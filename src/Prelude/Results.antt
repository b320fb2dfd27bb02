-- ===== src/Prelude/Results.antt =====
-- Errors as values, for the code that raises: `do` blocks stop at the first `err`.
use mathlib.Core.Path.{◌≡◌, refl}
use mathlib.Core.Logic.{◌⊎◌, inl, inr}
use mathlib.Core.Bool.{Bool, true, false}
use mathlib.Core.Option.{Option, none, some}

pub data Result {ℓ κ} (E : Type ℓ) (A : Type κ) : Type (ℓ ⊔ κ) where
  ok : A → Result E A
  err : E → Result E A

infixl 5 ◌>>=◌ ◌>>◌
abbrev pub ◌>>=◌ {ℓ κ μ} :
    {E : Type ℓ} {A : Type κ} {B : Type μ} → Result E A → (A → Result E B) → Result E B
ok a >>= f = f a
err e >>= f = err e

abbrev pub ◌>>◌ {ℓ κ} : {E : Type ℓ} {B : Type κ} → Result E (Unit {0}) → Result E B → Result E B
m >> k = m >>= λ _. k

-- if not b: raise e
abbrev pub guard {ℓ} : {E : Type ℓ} → Bool → E → Result E (Unit {0})
guard true e = ok tt
guard false e = err e

-- the value of an option, or the error where there is none
abbrev pub require {ℓ κ} : {E : Type ℓ} {A : Type κ} → Option A → E → Result E A
require none e = err e
require (some a) e = ok a

module _ {ℓ κ μ} {E : Type ℓ} {A : Type κ} {B : Type μ} where
  -- inversion of a bind that succeeds
  pub >>=-eq-ok :
      (m : Result E A) (f : A → Result E B) (b : B)
      → (m >>= f) ≡ ok b
      → (a : A) × (m ≡ ok a) × (f a ≡ ok b)
  >>=-eq-ok (ok a) f b h = (a, refl, h)
  >>=-eq-ok (err e) f b h = cc

module _ {ℓ} {E : Type ℓ} where
  pub guard-eq-ok : (b : Bool) (e : E) (u : Unit {0}) → guard b e ≡ ok u → b ≡ true
  guard-eq-ok true e u h = refl
  guard-eq-ok false e u h = cc

pub Result-cases {ℓ κ} :
    {E : Type ℓ} {A : Type κ} (m : Result E A) → ((a : A) × (m ≡ ok a)) ⊎ ((e : E) × (m ≡ err e))
Result-cases (ok a) = inl (a, refl)
Result-cases (err e) = inr (e, refl)
