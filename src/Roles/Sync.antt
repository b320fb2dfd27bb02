-- ===== src/Roles/Sync.antt =====
-- What the rows of user permissions mean: the abstract view of the tables of
-- fief/services/user_role_permissions.py and fief/tasks/roles.py.
use fief.Roles.Rows.{has_user, has_user-select, mem-difference}
use fief.Prelude.{
  List, delete, exists, ℕ, select, Bool, get, ◌≡◌, true, ◌==◌, ◌∷◌, none, [], not, false, arith,
  ◌&&◌, Bool-cases, inl, some, refl, ◌++◌, inr, exists-delete, exists-append, Dict, ap, same_number,
  Option-cases,
}
use fief.Roles.{
  is_distinct, RoleStore, is_row, UserRole, difference, is_user_role, Role, mem, updated_role,
  distinct, RoleUpdate,
}
use fief.Roles.Insert.{is_distinct_users}

-- the role is there and has the permission
unfoldable pub gives : ℕ → ℕ → Dict Role → Bool
gives r p roles = elim (get roles r) [ none ↦ false | some role ↦ mem p role.permissions ]

unfoldable pub is_distinct_rows : List UserRole → Bool
is_distinct_rows [] = true
is_distinct_rows (x ∷ xs) =
    not (exists (is_user_role x.user_id x.role_id) xs) && is_distinct_rows xs

-- A user has a permission from a role exactly if the user has the role and the role has the permission;
-- with the constraints of the database on the other tables.
pub record IsSynced (s : RoleStore) : Type 0 where
  pub rows :
      (u p r : ℕ)
      → exists (is_row u p r) s.user_permissions
        ≡ (exists (is_user_role u r) s.user_roles && gives r p s.roles)
  pub unique : is_distinct_rows s.user_roles ≡ true
  pub role_permissions :
      (r : ℕ) (role : Role) → get s.roles r ≡ some role → is_distinct role.permissions ≡ true
  pub role_exists :
      (u r : ℕ)
      → exists (is_user_role u r) s.user_roles ≡ true
      → (role : Role) × (get s.roles r ≡ some role)
  pub user_exists : (u r : ℕ) → exists (is_user_role u r) s.user_roles ≡ true → mem u s.users ≡ true

-- the rows of one role have each user once
no_user-select :
    (r : ℕ) (x : UserRole) (xs : List UserRole)
    → (x.role_id == r) ≡ true
    → has_user x.user_id (select (λ y. y.role_id == r) xs)
      ≡ exists (is_user_role x.user_id x.role_id) xs
no_user-select r x xs e = grind (arith, has_user-select x.user_id r xs)

pub is_distinct_users-select :
    (r : ℕ) (xs : List UserRole)
    → is_distinct_rows xs ≡ true
    → is_distinct_users (select (λ x. x.role_id == r) xs) ≡ true
unfolding is_distinct_users is_distinct_rows select
is_distinct_users-select r [] h = refl
is_distinct_users-select r (x ∷ xs) h = elim (Bool-cases (x.role_id == r)) [
  | inl same ↦ rw same (ground (arith, no_user-select r x xs same, is_distinct_users-select r xs))
  | inr other ↦ rw other (is_distinct_users-select r xs (ground arith))
]

pub is_distinct_rows-delete :
    (q : UserRole → Bool) (xs : List UserRole)
    → is_distinct_rows xs ≡ true
    → is_distinct_rows (delete q xs) ≡ true
unfolding is_distinct_rows delete
is_distinct_rows-delete q [] h = refl
is_distinct_rows-delete q (x ∷ xs) h = elim (Bool-cases (q x)) [
  | inl e ↦ rw e (is_distinct_rows-delete q xs (ground arith))
  | inr e ↦ rw e (
      ground (
        arith,
        exists-delete (is_user_role x.user_id x.role_id) q xs,
        is_distinct_rows-delete q xs,
      ))
]

pub is_distinct_rows-append :
    (u r : ℕ) (xs : List UserRole)
    → is_distinct_rows xs ≡ true
    → exists (is_user_role u r) xs ≡ false
    → is_distinct_rows (xs ++ record { user_id = u; role_id = r } ∷ []) ≡ true
unfolding is_distinct_rows exists
is_distinct_rows-append u r [] h e = refl
is_distinct_rows-append u r (x ∷ xs) h e =
    let new : UserRole = record { user_id = u; role_id = r } in
    ground (
      arith,
      exists-append (is_user_role x.user_id x.role_id) xs (new ∷ []),
      is_distinct_rows-append u r xs,
    )

pub is_distinct-difference :
    (xs ys : List ℕ) → is_distinct xs ≡ true → is_distinct (difference xs ys) ≡ true
unfolding is_distinct select
is_distinct-difference [] ys h = refl
is_distinct-difference (x ∷ xs) ys h = elim (Bool-cases (mem x ys)) [
  | inl e ↦ rw e (is_distinct-difference xs ys (ground arith))
  | inr e ↦ rw e (ground (arith, mem-difference x xs ys, is_distinct-difference xs ys))
]

-- the rows of a list hold each of its permissions
mem-distinct : (p : ℕ) (ps : List ℕ) → mem p (distinct ps) ≡ mem p ps
unfolding distinct exists
mem-distinct p [] = refl
mem-distinct p (q ∷ ps) = elim (Bool-cases (mem q ps)) [
  | inl e ↦ elim (Bool-cases (q == p)) [
    | inl same ↦ rw e (ground (arith, mem-distinct p ps, ap (λ x. mem x ps) (same_number q p same)))
    | inr other ↦ rw (e, other) (mem-distinct p ps)
  ]
  | inr e ↦ rw e (ground (arith, mem-distinct p ps))
]

distinct-is_distinct : (ps : List ℕ) → is_distinct (distinct ps) ≡ true
unfolding distinct is_distinct
distinct-is_distinct [] = refl
distinct-is_distinct (p ∷ ps) = elim (Bool-cases (mem p ps)) [
  | inl e ↦ rw e (distinct-is_distinct ps)
  | inr e ↦ rw e (ground (arith, mem-distinct p ps, distinct-is_distinct ps))
]

pub updated_role-is_distinct :
    (q : RoleUpdate) (role : Role)
    → is_distinct role.permissions ≡ true
    → is_distinct (updated_role q role).permissions ≡ true
unfolding updated_role
updated_role-is_distinct q role d = elim (Option-cases q.permissions) [
  | inl e ↦ rw e d
  | inr (ps, e) ↦ rw e (distinct-is_distinct ps)
]
