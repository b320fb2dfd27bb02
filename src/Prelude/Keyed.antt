-- ===== src/Prelude/Keyed.antt =====
-- A table with a numeric primary key: the rows under their keys. `put` stands for an INSERT of a new
-- key and for an UPDATE of a row that is there.
use Prim.Native.Nat.{ℕ}
use mathlib.Core.Path.{◌≡◌, refl}
use mathlib.Core.Option.{Option, none, some}
use mathlib.Core.List.{List, [], ◌∷◌}
use native.Mathlib.Omega.{arith}
use mathlib.Core.Logic.{inl, inr}
use mathlib.Core.Bool.{Bool, true, false}
use fief.Prelude.Tests.{◌==◌, if◌then◌else◌, Bool-cases}
use fief.Prelude.Rows.{select, exists}

pub record Dict {ℓ} (V : Type ℓ) : Type ℓ where
  pub entries : List (ℕ × V)

module _ {ℓ} {V : Type ℓ} where
  get_entry : ℕ → List (ℕ × V) → Option V
  get_entry k [] = none
  get_entry k ((j, v) ∷ l) = if j == k then some v else get_entry k l

  put_entry : ℕ → V → List (ℕ × V) → List (ℕ × V)
  put_entry k v [] = (k, v) ∷ []
  put_entry k v ((j, w) ∷ l) = if j == k then (k, v) ∷ l else (j, w) ∷ put_entry k v l

  remove_entry : ℕ → List (ℕ × V) → List (ℕ × V)
  remove_entry k [] = []
  remove_entry k ((j, w) ∷ l) =
      let rest = remove_entry k l in if j == k then rest else (j, w) ∷ rest

  abbrev pub empty : Dict V
  empty = record { entries = [] }

  unfoldable pub get : Dict V → ℕ → Option V
  unfolding get_entry
  get d k = get_entry k d.entries

  unfoldable pub put : Dict V → ℕ → V → Dict V
  unfolding put_entry
  put d k v = record { entries = put_entry k v d.entries }

  unfoldable pub remove : Dict V → ℕ → Dict V
  unfolding remove_entry
  remove d k = record { entries = remove_entry k d.entries }

  get_entry-put_entry :
      (k j : ℕ) (v : V) (l : List (ℕ × V))
      → get_entry j (put_entry k v l) ≡ (if k == j then some v else get_entry j l)
  unfolding get_entry put_entry
  get_entry-put_entry k j v [] = refl
  get_entry-put_entry k j v ((i, w) ∷ l) = ground (arith, get_entry-put_entry k j v l)

  get_entry-remove_entry :
      (k j : ℕ) (l : List (ℕ × V))
      → get_entry j (remove_entry k l) ≡ (if k == j then none else get_entry j l)
  unfolding get_entry remove_entry
  get_entry-remove_entry k j [] = ground arith
  get_entry-remove_entry k j ((i, w) ∷ l) = ground (arith, get_entry-remove_entry k j l)

module _ {ℓ} {V : Type ℓ} where
  get_entry-listed :
      (k : ℕ) (l : List (ℕ × V))
      → exists (λ (e : ℕ × V). e.0 == k) l ≡ true
      → (v : V) × (get_entry k l ≡ some v)
  unfolding get_entry exists
  get_entry-listed k [] h = cc
  get_entry-listed k ((j, v) ∷ l) h = elim (Bool-cases (j == k)) [
    | inl here ↦ (v, ground arith)
    | inr later ↦ let (w, found) = get_entry-listed k l (ground arith) in (w, ground arith)
  ]

  -- a key in the list has a row
  pub get-listed :
      (d : Dict V) (k : ℕ)
      → exists (λ (e : ℕ × V). e.0 == k) d.entries ≡ true
      → (v : V) × (get d k ≡ some v)
  unfolding get
  get-listed d k = get_entry-listed k d.entries

module _ {ℓ} {V : Type ℓ} where
  pub get-put :
      (d : Dict V) (k j : ℕ) (v : V) → get (put d k v) j ≡ (if k == j then some v else get d j)
  unfolding get put
  get-put d k j v = get_entry-put_entry k j v d.entries

  pub get-remove : (d : Dict V) (k j : ℕ) → get (remove d k) j ≡ (if k == j then none else get d j)
  unfolding get remove
  get-remove d k j = get_entry-remove_entry k j d.entries

  pub get-put_self : (d : Dict V) (k : ℕ) (v : V) → get (put d k v) k ≡ some v
  get-put_self d k v = ground (arith, get-put d k k v)

  pub get-remove_self : (d : Dict V) (k : ℕ) → get (remove d k) k ≡ none
  get-remove_self d k = ground (arith, get-remove d k k)

pub ruleset dict_laws = (get-put, get-remove)

module _ {ℓ} {V : Type ℓ} (p : (ℕ × V) → Bool) where
  select_entry :
      (i : ℕ) (u : V) (l : List (ℕ × V))
      → get_entry i l ≡ some u
      → p (i, u) ≡ true
      → (x : ℕ × V) × (xs : List (ℕ × V)) × (select p l ≡ x ∷ xs)
  unfolding get_entry select
  select_entry i u [] h e = absurd (ground arith)
  select_entry i u ((k, w) ∷ l) h e = elim (Bool-cases (p (k, w))) [
    | inl taken ↦ ((k, w), select p l, ground arith)
    | inr passed ↦ let (x, xs, rest) = select_entry i u l (ground arith) e in (x, xs, ground arith)
  ]

  select_two_entries :
      (i j : ℕ) (u v : V) (l : List (ℕ × V))
      → get_entry i l ≡ some u
      → get_entry j l ≡ some v
      → (i == j) ≡ false
      → p (i, u) ≡ true
      → p (j, v) ≡ true
      → (x y : ℕ × V) × (xs : List (ℕ × V)) × (select p l ≡ x ∷ y ∷ xs)
  unfolding get_entry select
  select_two_entries i j u v [] hi hj n ei ej = absurd (ground arith)
  select_two_entries i j u v ((k, w) ∷ l) hi hj n ei ej = elim (Bool-cases (k == i)) [
    | inl first ↦
        let (y, xs, rest) = select_entry j v l (ground arith) ej in ((k, w), y, xs, ground arith)
    | inr later ↦ elim (Bool-cases (k == j)) [
      | inl second ↦
          let (y, xs, rest) = select_entry i u l (ground arith) ei in ((k, w), y, xs, ground arith)
      | inr neither ↦
          let (x, y, xs, rest) =
            select_two_entries i j u v l (ground arith) (ground arith) n ei ej in
          elim (Bool-cases (p (k, w))) [
            | inl taken ↦ ((k, w), x, y ∷ xs, ground arith)
            | inr passed ↦ (x, y, xs, ground arith)
          ]
    ]
  ]

  -- a WHERE clause that two rows with different keys satisfy
  pub select-two :
      (i j : ℕ) (u v : V) (d : Dict V)
      → get d i ≡ some u
      → get d j ≡ some v
      → (i == j) ≡ false
      → p (i, u) ≡ true
      → p (j, v) ≡ true
      → (x y : ℕ × V) × (xs : List (ℕ × V)) × (select p d.entries ≡ x ∷ y ∷ xs)
  unfolding get
  select-two i j u v d = select_two_entries i j u v d.entries

  select-put_entry :
      (k : ℕ) (v : V) (l : List (ℕ × V))
      → get_entry k l ≡ none
      → select p l ≡ []
      → p (k, v) ≡ true
      → select p (put_entry k v l) ≡ (k, v) ∷ []
  unfolding get_entry put_entry select
  select-put_entry k v [] h e t = ground arith
  select-put_entry k v ((j, w) ∷ l) h e t = ground (arith, select-put_entry k v l)

  -- the only row that a WHERE clause selects, after it was inserted
  pub select-put_new :
      (d : Dict V) (k : ℕ) (v : V)
      → get d k ≡ none
      → select p d.entries ≡ []
      → p (k, v) ≡ true
      → select p (put d k v).entries ≡ (k, v) ∷ []
  unfolding get put
  select-put_new d k v = select-put_entry k v d.entries
