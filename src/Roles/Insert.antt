-- ===== src/Roles/Insert.antt =====
-- When the insertion of several rows of user permissions succeeds: `create_many` of
-- fief/repositories/user_permission.py.
use fief.Roles.Rows.{exists-role_rows, has_user}
use fief.Prelude.{
  exists, List, ℕ, ◌≡◌, ok, true, err, ◌++◌, false, arith, ◌∷◌, ap, [], sym, append-nil, Bool-cases,
  inl, refl, ◌==◌, append_assoc, inr, exists-append, Bool, ◌&&◌, not, ◌∙◌,
}
use fief.Roles.{
  create_many, is_distinct, UserPermission, is_row, mem, integrity_error, role_rows, conflicts,
  from_role, updated_rows, UserRole,
}

other_row :
    (u p q r : ℕ) (ps : List ℕ) (l : List UserPermission)
    → mem p ps ≡ false
    → mem q ps ≡ true
    → exists (is_row u q r) l ≡ false
    → exists (is_row u q r) (l ++ from_role u r p ∷ []) ≡ false
unfolding exists
other_row u p q r ps l lacks has h = elim (Bool-cases (p == q)) [
  | inl same ↦ absurd (grind arith)
  | inr other ↦ ground (
    arith,
    exists-append (is_row u q r) l (from_role u r p ∷ []),
    exists-role_rows u q r u r (p ∷ []),
  )
]

pub create_many-role_rows :
    (u r : ℕ) (ps : List ℕ) (l : List UserPermission)
    → is_distinct ps ≡ true
    → ((p : ℕ) → mem p ps ≡ true → exists (is_row u p r) l ≡ false)
    → create_many (role_rows u r ps) l ≡ ok (l ++ role_rows u r ps)
unfolding create_many is_distinct exists
create_many-role_rows u r [] l d h = ap ok (sym (append-nil l))
create_many-role_rows u r (p ∷ ps) l d h =
    let free : exists (is_row u p r) l ≡ false = h p (ground arith) in
    let others : (q : ℕ)
        → mem q ps ≡ true
        → exists (is_row u q r) (l ++ from_role u r p ∷ []) ≡ false =
      λ q e. other_row u p q r ps l (ground arith) e (h q (ground arith)) in
    let rest = create_many-role_rows u r ps (l ++ from_role u r p ∷ []) (ground arith) others in
    rw (free, rest) (ap ok (append_assoc l (from_role u r p ∷ []) (role_rows u r ps)))

pub create_many-append :
    (xs ys l l' : List UserPermission)
    → create_many xs l ≡ ok l'
    → create_many (xs ++ ys) l ≡ create_many ys l'
unfolding create_many
create_many-append [] ys l l' h = ground arith
create_many-append (x ∷ xs) ys l l' h = ground (arith, create_many-append xs ys (l ++ x ∷ []) l')

conflicts_lem :
    (u p r : ℕ) (x : UserPermission) (l : List UserPermission)
    → is_row u p r x ≡ true
    → exists (conflicts x) l ≡ exists (is_row u p r) l
unfolding exists
conflicts_lem u p r x [] h = refl
conflicts_lem u p r x (y ∷ l) h = grind (arith, conflicts_lem u p r x l h)

-- a row that is there already
pub create_many-integrity_error :
    (u p r : ℕ) (xs l : List UserPermission)
    → exists (is_row u p r) l ≡ true
    → exists (is_row u p r) xs ≡ true
    → create_many xs l ≡ err integrity_error
unfolding create_many exists
create_many-integrity_error u p r [] l there new = ground arith
create_many-integrity_error u p r (x ∷ xs) l there new =
    let rest = create_many-integrity_error u p r xs (l ++ x ∷ []) in
    elim (Bool-cases (is_row u p r x)) [
      | inl same ↦ rw (conflicts_lem u p r x l same, there) refl
      | inr other ↦ ground (arith, rest, exists-append (is_row u p r) l (x ∷ []))
    ]

-- no user twice
unfoldable pub is_distinct_users : List UserRole → Bool
is_distinct_users [] = true
is_distinct_users (x ∷ xs) = not (has_user x.user_id xs) && is_distinct_users xs

other_user :
    (u p r : ℕ) (x : UserRole) (xs : List UserRole) (added : List ℕ) (l : List UserPermission)
    → has_user x.user_id xs ≡ false
    → has_user u xs ≡ true
    → exists (is_row u p r) l ≡ false
    → exists (is_row u p r) (l ++ role_rows x.user_id r added) ≡ false
other_user u p r x xs added l lacks has h = elim (Bool-cases (x.user_id == u)) [
  | inl same ↦ absurd (grind arith)
  | inr other ↦ ground (
    arith,
    exists-append (is_row u p r) l (role_rows x.user_id r added),
    exists-role_rows u p r x.user_id r added,
  )
]

pub create_many-updated_rows :
    (r : ℕ) (added : List ℕ) (xs : List UserRole) (l : List UserPermission)
    → is_distinct added ≡ true
    → is_distinct_users xs ≡ true
    → ((u p : ℕ) → (has_user u xs && mem p added) ≡ true → exists (is_row u p r) l ≡ false)
    → create_many (updated_rows r added xs) l ≡ ok (l ++ updated_rows r added xs)
unfolding updated_rows create_many is_distinct_users exists
create_many-updated_rows r added [] l d v h = ap ok (sym (append-nil l))
create_many-updated_rows r added (x ∷ xs) l d v h =
    let rows = role_rows x.user_id r added in
    let first = create_many-role_rows x.user_id r added l d (λ p e. h x.user_id p (ground arith)) in
    let others : (u p : ℕ)
        → (has_user u xs && mem p added) ≡ true
        → exists (is_row u p r) (l ++ rows) ≡ false =
      λ u p e. other_user u p r x xs added l (ground arith) (ground arith) (h u p (ground arith)) in
    create_many-append rows (updated_rows r added xs) l (l ++ rows) first
    ∙ create_many-updated_rows r added xs (l ++ rows) d (ground arith) others
    ∙ ap ok (append_assoc l rows (updated_rows r added xs))
