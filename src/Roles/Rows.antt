-- ===== src/Roles/Rows.antt =====
-- Which rows of user permissions there are, after the insertions and the deletions of
-- fief/repositories/user_permission.py.
use fief.Roles.Endpoints.{is_direct}
use fief.Roles.{
  delete_many, updated_rows, is_row, mem, UserPermission, UserRole, difference, is_user_role,
  role_rows, is_from,
}
use fief.Prelude.{
  ◌++◌, ℕ, exists, List, select, delete, ◌==◌, ◌≡◌, Bool, not, ◌&&◌, ◌∷◌, arith, [], exists-append,
  refl, Bool-cases, inl, inr, none,
}

pub exists-role_rows :
    (u p r u' r' : ℕ) (ps : List ℕ)
    → exists (is_row u p r) (role_rows u' r' ps) ≡ ((u' == u) && (r' == r) && mem p ps)
unfolding exists
exists-role_rows u p r u' r' [] = ground arith
exists-role_rows u p r u' r' (q ∷ ps) = ground (arith, exists-role_rows u p r u' r' ps)

-- the user is among the users of these rows
abbrev pub has_user : ℕ → List UserRole → Bool
has_user u = exists (λ x. x.user_id == u)

pub exists-updated_rows :
    (u p r r' : ℕ) (added : List ℕ) (xs : List UserRole)
    → exists (is_row u p r) (updated_rows r' added xs) ≡ ((r' == r) && mem p added && has_user u xs)
unfolding exists updated_rows
exists-updated_rows u p r r' added [] = ground arith
exists-updated_rows u p r r' added (x ∷ xs) = ground (
  arith,
  exists-append (is_row u p r) (role_rows x.user_id r' added) (updated_rows r' added xs),
  exists-role_rows u p r x.user_id r' added,
  exists-updated_rows u p r r' added xs,
)

pub has_user-select :
    (u r : ℕ) (xs : List UserRole)
    → has_user u (select (λ x. x.role_id == r) xs) ≡ exists (is_user_role u r) xs
unfolding exists select
has_user-select u r [] = refl
has_user-select u r (x ∷ xs) = ground (arith, has_user-select u r xs)

pub exists-delete_from :
    (u p r u' r' : ℕ) (l : List UserPermission)
    → exists (is_row u p r) (delete (λ x. (x.user_id == u') && is_from r' x.from_role_id) l)
      ≡ (not ((u == u') && (r == r')) && exists (is_row u p r) l)
unfolding exists delete
exists-delete_from u p r u' r' [] = ground arith
exists-delete_from u p r u' r' (x ∷ l) = ground (arith, exists-delete_from u p r u' r' l)

exists-delete_permission :
    (u p r p' r' : ℕ) (l : List UserPermission)
    → exists (is_row u p r) (delete (λ x. (x.permission_id == p') && is_from r' x.from_role_id) l)
      ≡ (not ((p == p') && (r == r')) && exists (is_row u p r) l)
unfolding exists delete
exists-delete_permission u p r p' r' [] = ground arith
exists-delete_permission u p r p' r' (x ∷ l) =
    ground (arith, exists-delete_permission u p r p' r' l)

pub exists-delete_many :
    (u p r r' : ℕ) (ps : List ℕ) (l : List UserPermission)
    → exists (is_row u p r) (delete_many r' ps l)
      ≡ (not ((r == r') && mem p ps) && exists (is_row u p r) l)
unfolding delete_many exists
exists-delete_many u p r r' [] l = ground arith
exists-delete_many u p r r' (q ∷ ps) l = ground (
  arith,
  exists-delete_permission u p r q r' l,
  exists-delete_many u p r r' ps
      (delete (λ x. (x.permission_id == q) && is_from r' x.from_role_id) l),
)

pub mem-difference :
    (p : ℕ) (xs ys : List ℕ) → mem p (difference xs ys) ≡ (mem p xs && not (mem p ys))
unfolding exists select
mem-difference p [] ys = refl
mem-difference p (x ∷ xs) ys = elim (Bool-cases (mem x ys)) [
  | inl e ↦ elim (Bool-cases (x == p)) [
    | inl same ↦ rw e (grind (arith, mem-difference p xs ys))
    | inr other ↦ rw e (ground (arith, mem-difference p xs ys))
  ]
  | inr e ↦ elim (Bool-cases (x == p)) [
    | inl same ↦ rw e (grind (arith, mem-difference p xs ys))
    | inr other ↦ rw e (ground (arith, mem-difference p xs ys))
  ]
]

pub exists-delete_user_role :
    (u r u' r' : ℕ) (xs : List UserRole)
    → exists (is_user_role u r) (delete (is_user_role u' r') xs)
      ≡ (not ((u == u') && (r == r')) && exists (is_user_role u r) xs)
unfolding exists delete
exists-delete_user_role u r u' r' [] = ground arith
exists-delete_user_role u r u' r' (x ∷ xs) = ground (arith, exists-delete_user_role u r u' r' xs)

pub exists-delete_role :
    (u r r' : ℕ) (xs : List UserRole)
    → exists (is_user_role u r) (delete (λ x. x.role_id == r') xs)
      ≡ (not (r == r') && exists (is_user_role u r) xs)
unfolding exists delete
exists-delete_role u r r' [] = ground arith
exists-delete_role u r r' (x ∷ xs) = ground (arith, exists-delete_role u r r' xs)

pub exists-delete_from_role :
    (u p r r' : ℕ) (l : List UserPermission)
    → exists (is_row u p r) (delete (λ x. is_from r' x.from_role_id) l)
      ≡ (not (r == r') && exists (is_row u p r) l)
unfolding exists delete
exists-delete_from_role u p r r' [] = ground arith
exists-delete_from_role u p r r' (x ∷ l) = ground (arith, exists-delete_from_role u p r r' l)

pub exists-delete_direct :
    (u p r u' p' : ℕ) (l : List UserPermission)
    → exists (is_row u p r) (delete (is_direct u' p') l) ≡ exists (is_row u p r) l
unfolding exists delete
exists-delete_direct u p r u' p' [] = refl
exists-delete_direct u p r u' p' (x ∷ l) = ground (arith, exists-delete_direct u p r u' p' l)

pub exists-append_direct :
    (u p r u' p' : ℕ) (l : List UserPermission)
    → exists
        (is_row u p r)
        (l ++ record { user_id = u'; permission_id = p'; from_role_id = none } ∷ [])
      ≡ exists (is_row u p r) l
unfolding exists
exists-append_direct u p r u' p' [] = ground arith
exists-append_direct u p r u' p' (x ∷ l) = ground (arith, exists-append_direct u p r u' p' l)
