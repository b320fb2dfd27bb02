-- ===== src/Prelude/Rows.antt =====
-- The rows of a table without a numeric key, with the WHERE clauses as Boolean tests on a row.
use Prim.Native.Nat.{ℕ, suc, ◌+◌, ◌≤◌, ◌<◌}
use mathlib.Core.Path.{◌≡◌, refl}
use mathlib.Core.Bool.{Bool, true, false, ◌||◌, ◌&&◌}
use mathlib.Core.Option.{Option, none, some}
use mathlib.Core.List.{List, [], ◌∷◌, ◌++◌, Memᴰ}
use native.Mathlib.Omega.{arith}
use mathlib.Core.Logic.{inl, inr}
use fief.Prelude.Tests.{if◌then◌else◌, Bool-cases}

module _ {ℓ} {A : Type ℓ} where
  abbrev pub length : List A → ℕ
  length [] = 0
  length (x ∷ xs) = suc (length xs)

  -- SELECT … WHERE p
  unfoldable pub select : (A → Bool) → List A → List A
  select p [] = []
  select p (x ∷ xs) = let rest = select p xs in if p x then x ∷ rest else rest

  -- the row that a WHERE clause on unique columns selects, if there is one
  unfoldable pub select_one : (A → Bool) → List A → Option A
  select_one p [] = none
  select_one p (x ∷ xs) = if p x then some x else select_one p xs

  -- DELETE … WHERE p
  unfoldable pub delete : (A → Bool) → List A → List A
  delete p [] = []
  delete p (x ∷ xs) = let rest = delete p xs in if p x then rest else x ∷ rest

  -- UPDATE … SET f WHERE p
  unfoldable pub update : (A → Bool) → (A → A) → List A → List A
  update p f [] = []
  update p f (x ∷ xs) = let rest = update p f xs in if p x then f x ∷ rest else x ∷ rest

  unfoldable pub count : (A → Bool) → List A → ℕ
  count p [] = 0
  count p (x ∷ xs) = let rest = count p xs in if p x then suc rest else rest

  -- a row that satisfies `p` is there
  unfoldable pub exists : (A → Bool) → List A → Bool
  exists p [] = false
  exists p (x ∷ xs) = p x || exists p xs

  abbrev pub All {κ} : (A → Type κ) → List A → Type κ
  All P [] = Unit
  All P (x ∷ xs) = P x × All P xs

module _ {ℓ} {A : Type ℓ} where
  pub select-append :
      (p : A → Bool) (xs ys : List A) → select p (xs ++ ys) ≡ select p xs ++ select p ys
  unfolding select
  select-append p [] ys = refl
  select-append p (x ∷ xs) ys = ground (arith, select-append p xs ys)

  pub delete-append :
      (p : A → Bool) (xs ys : List A) → delete p (xs ++ ys) ≡ delete p xs ++ delete p ys
  unfolding delete
  delete-append p [] ys = refl
  delete-append p (x ∷ xs) ys = ground (arith, delete-append p xs ys)

  pub select-delete_self : (p : A → Bool) (xs : List A) → select p (delete p xs) ≡ []
  unfolding select delete
  select-delete_self p [] = refl
  select-delete_self p (x ∷ xs) = ground (arith, select-delete_self p xs)

  pub select_one-delete_self : (p : A → Bool) (xs : List A) → select_one p (delete p xs) ≡ none
  unfolding select_one delete
  select_one-delete_self p [] = refl
  select_one-delete_self p (x ∷ xs) = ground (arith, select_one-delete_self p xs)

  pub exists-append :
      (p : A → Bool) (xs ys : List A) → exists p (xs ++ ys) ≡ (exists p xs || exists p ys)
  unfolding exists
  exists-append p [] ys = refl
  exists-append p (x ∷ xs) ys = ground (arith, exists-append p xs ys)

  pub exists-append_new :
      (p : A → Bool) (xs : List A) (y : A) → p y ≡ true → exists p (xs ++ y ∷ []) ≡ true
  unfolding exists
  exists-append_new p [] y h = ground arith
  exists-append_new p (x ∷ xs) y h = ground (arith, exists-append_new p xs y h)

  pub select_one-eq-none :
      (p : A → Bool) (xs : List A) → exists p xs ≡ false → select_one p xs ≡ none
  unfolding exists select_one
  select_one-eq-none p [] h = refl
  select_one-eq-none p (x ∷ xs) h = ground (arith, select_one-eq-none p xs)

  -- a stricter WHERE clause that the row found satisfies finds it too
  pub select_one-stricter :
      (p q r : A → Bool) (xs : List A) (a : A)
      → ((x : A) → r x ≡ (p x && q x))
      → select_one p xs ≡ some a
      → q a ≡ true
      → select_one r xs ≡ some a
  unfolding select_one
  select_one-stricter p q r [] a h e t = cc
  select_one-stricter p q r (x ∷ xs) a h e t = elim (Bool-cases (p x)) [
    | inl here ↦ ground (arith, h x)
    | inr later ↦ ground (arith, h x, select_one-stricter p q r xs a h)
  ]

  -- two DELETEs are one
  pub delete-delete :
      (p q r : A → Bool) (xs : List A)
      → ((x : A) → r x ≡ (q x || p x))
      → delete p (delete q xs) ≡ delete r xs
  unfolding delete
  delete-delete p q r [] h = refl
  delete-delete p q r (x ∷ xs) h = ground (arith, h x, delete-delete p q r xs h)

  pub delete-none : (p : A → Bool) (xs : List A) → ((x : A) → p x ≡ false) → delete p xs ≡ xs
  unfolding delete
  delete-none p [] h = refl
  delete-none p (x ∷ xs) h = ground (arith, h x, delete-none p xs h)

  pub select_one-append_none :
      (p : A → Bool) (xs ys : List A)
      → select_one p xs ≡ none
      → select_one p (xs ++ ys) ≡ select_one p ys
  unfolding select_one
  select_one-append_none p [] ys h = refl
  select_one-append_none p (x ∷ xs) ys h = ground (arith, select_one-append_none p xs ys)

  pub exists-delete :
      (p q : A → Bool) (xs : List A) → exists p xs ≡ false → exists p (delete q xs) ≡ false
  unfolding exists delete
  exists-delete p q [] h = refl
  exists-delete p q (x ∷ xs) h = ground (arith, exists-delete p q xs)

  pub exists-delete_implied :
      (p q : A → Bool) (xs : List A)
      → ((x : A) → p x ≡ true → q x ≡ true)
      → exists p (delete q xs) ≡ false
  unfolding exists delete
  exists-delete_implied p q [] h = refl
  exists-delete_implied p q (x ∷ xs) h = ground (arith, h x, exists-delete_implied p q xs h)

  pub exists-delete_self : (p : A → Bool) (xs : List A) → exists p (delete p xs) ≡ false
  unfolding exists delete
  exists-delete_self p [] = refl
  exists-delete_self p (x ∷ xs) = ground (arith, exists-delete_self p xs)

  -- a DELETE takes every row that a stricter WHERE clause selects
  pub select_one-delete_implied :
      (p q : A → Bool) (xs : List A)
      → ((x : A) → p x ≡ true → q x ≡ true)
      → select_one p (delete q xs) ≡ none
  unfolding select_one delete
  select_one-delete_implied p q [] h = refl
  select_one-delete_implied p q (x ∷ xs) h = ground (arith, h x, select_one-delete_implied p q xs h)

  -- a DELETE leaves alone what a disjoint WHERE clause selects
  pub select-delete_disjoint :
      (p q : A → Bool) (xs : List A)
      → ((x : A) → q x ≡ true → p x ≡ false)
      → select q (delete p xs) ≡ select q xs
  unfolding select delete
  select-delete_disjoint p q [] h = refl
  select-delete_disjoint p q (x ∷ xs) h = ground (arith, h x, select-delete_disjoint p q xs h)

  pub select_one-satisfies :
      (p : A → Bool) (xs : List A) (a : A) → select_one p xs ≡ some a → p a ≡ true
  unfolding select_one
  select_one-satisfies p [] a e = cc
  select_one-satisfies p (x ∷ xs) a e = ground (arith, select_one-satisfies p xs a)

  -- the row that was appended is the one that is found, where no other is
  pub select_one-append_new :
      (p : A → Bool) (xs : List A) (y : A)
      → exists p xs ≡ false
      → p y ≡ true
      → select_one p (xs ++ y ∷ []) ≡ some y
  unfolding exists select_one
  select_one-append_new p [] y h e = ground arith
  select_one-append_new p (x ∷ xs) y h e = ground (arith, select_one-append_new p xs y)

  pub exists-narrower :
      (p q : A → Bool) (xs : List A)
      → ((x : A) → q x ≡ true → p x ≡ true)
      → exists p xs ≡ false
      → exists q xs ≡ false
  unfolding exists
  exists-narrower p q [] h e = refl
  exists-narrower p q (x ∷ xs) h e = ground (arith, h x, exists-narrower p q xs h)

  pub length-select-eq-count : (p : A → Bool) (xs : List A) → length (select p xs) ≡ count p xs
  unfolding select count
  length-select-eq-count p [] = refl
  length-select-eq-count p (x ∷ xs) = ground (arith, length-select-eq-count p xs)

  pub length-append : (xs ys : List A) → length (xs ++ ys) ≡ length xs + length ys
  length-append [] ys = omega arith
  length-append (x ∷ xs) ys = omega (arith, length-append xs ys)

  pub All-append {κ} : (P : A → Type κ) (xs ys : List A) → All P xs → All P ys → All P (xs ++ ys)
  All-append P [] ys hx hy = hy
  All-append P (x ∷ xs) ys hx hy = (hx.0, All-append P xs ys hx.1 hy)

-- An UPDATE that takes rows out of what `p` selects.
module _ {ℓ} {A : Type ℓ} (p q : A → Bool) (f : A → A) (leaves : (x : A) → p (f x) ≡ false) where
  pub count-update-le : (xs : List A) → count p (update q f xs) ≤ count p xs
  unfolding count update
  count-update-le [] = omega arith
  count-update-le (x ∷ xs) = ground (arith, leaves x, count-update-le xs)

  pub count-update-lt :
      (m : A → Bool) (xs : List A) (a : A)
      → select_one m (select p xs) ≡ some a
      → q a ≡ true
      → count p (update q f xs) < count p xs
  unfolding count update select select_one
  count-update-lt m [] a e h = cc
  count-update-lt m (x ∷ xs) a e h =
      ground (arith, leaves x, count-update-le xs, count-update-lt m xs a)

module _ {ℓ} {A : Type ℓ} where
  -- a row that satisfies `p` is a member
  pub exists-Memᴰ :
      (p : A → Bool) (xs : List A) → exists p xs ≡ true → (x : A) × Memᴰ x xs × (p x ≡ true)
  unfolding exists
  exists-Memᴰ p [] h = absurd (ground arith)
  exists-Memᴰ p (x ∷ xs) h = elim (Bool-cases (p x)) [
    | inl e ↦ (x, Memᴰ.head refl, e)
    | inr e ↦ let (y, m, q) = exists-Memᴰ p xs (ground arith) in (y, Memᴰ.tail m, q)
  ]

  -- a selected row that satisfies `p` is a member, and satisfies the WHERE clause
  pub exists-select :
      (p q : A → Bool) (xs : List A)
      → exists p (select q xs) ≡ true
      → (x : A) × Memᴰ x xs × (q x ≡ true) × (p x ≡ true)
  unfolding exists select
  exists-select p q [] h = absurd (ground arith)
  exists-select p q (x ∷ xs) h = elim (Bool-cases (q x && p x)) [
    | inl e ↦ (x, Memᴰ.head refl, ground arith, ground arith)
    | inr e ↦ let (y, m, r, r') = exists-select p q xs (ground arith) in (y, Memᴰ.tail m, r, r')
  ]
