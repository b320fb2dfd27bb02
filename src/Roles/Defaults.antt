-- ===== src/Roles/Defaults.antt =====
-- The default roles of a new user: add_default_roles of fief/services/user_roles.py without the worker.
use fief.Roles.Preserve.{added-IsSynced}
use fief.Roles.Insert.{create_many-role_rows}
use fief.Models.{object_created}
use fief.Roles.Sync.{IsSynced}
use fief.Roles.{
  RoleStore, add_role, Role, add_role_permissions, role_rows, is_user_role, mem, add_roles,
  is_distinct, add_default_roles, default_roles,
}
use fief.Prelude.{
  ℕ, List, ◌≡◌, get, ok, some, true, false, refl, arith, [], ◌∷◌, exists, ◌||◌, Bool-cases, inl,
  inr, ◌==◌, ◌++◌, ◌∙◌, ==_refl, exists-append, get-listed,
}

-- the store after a role was added
abbrev with_role : ℕ → ℕ → Role → RoleStore → RoleStore
with_role u r role s = record s {
  user_roles = s.user_roles ++ record { user_id = u; role_id = r } ∷ [];
  user_permissions = s.user_permissions ++ role_rows u r role.permissions;
  audit = s.audit ++ (object_created, some u, r) ∷ [];
}

add_role_lem :
    (u r : ℕ) (role : Role) (s : RoleStore)
    → IsSynced s
    → get s.roles r ≡ some role
    → exists (is_user_role u r) s.user_roles ≡ false
    → add_role u r false s ≡ ok (with_role u r role s)
unfolding add_role add_role_permissions
add_role_lem u r role s y known new =
    let inserted =
      create_many-role_rows u r role.permissions s.user_permissions
        (y.role_permissions r role known) (λ p e. y.rows u p r ∙ ground arith) in
    rw (known, new, inserted) refl

-- the roles of the user are the old ones and the added ones
abbrev pub Added : ℕ → List ℕ → RoleStore → RoleStore → Type 0
Added u rs s s' =
    IsSynced s'
    × (s'.roles ≡ s.roles)
    × ((r : ℕ)
        → exists (is_user_role u r) s'.user_roles
          ≡ (exists (is_user_role u r) s.user_roles || mem r rs))

pub add_roles-Added :
    (u : ℕ) (rs : List ℕ) (s : RoleStore)
    → IsSynced s
    → mem u s.users ≡ true
    → is_distinct rs ≡ true
    → ((r : ℕ) → mem r rs ≡ true → (role : Role) × (get s.roles r ≡ some role))
    → ((r : ℕ) → mem r rs ≡ true → exists (is_user_role u r) s.user_roles ≡ false)
    → (s' : RoleStore) × (add_roles u rs false s ≡ ok s') × Added u rs s s'
unfolding add_roles is_distinct exists
add_roles-Added u [] s y there distinct known new = (s, refl, (y, refl, λ r. ground arith))
add_roles-Added u (r ∷ rs) s y there distinct known new =
    let (role, found) = known r (ground (arith, ==_refl r)) in
    let fresh = new r (ground (arith, ==_refl r)) in
    let s1 = with_role u r role s in
    let y1 : IsSynced s1 = added-IsSynced u r role s s.queue s1.audit y found fresh there in
    let held : (q : ℕ)
        → exists (is_user_role u q) s1.user_roles
          ≡ (exists (is_user_role u q) s.user_roles || (r == q)) =
      λ q. ground (
        arith,
        exists-append (is_user_role u q) s.user_roles (record { user_id = u; role_id = r } ∷ []),
      ) in
    let (s', run, (y', same, roles)) =
      add_roles-Added u rs s1 y1 there (ground arith) (λ q e. known q (ground arith))
        (λ q e. elim (Bool-cases (r == q)) [
          | inl same ↦ absurd (grind arith)
          | inr other ↦ ground (arith, held q, new q)
        ]) in
    (
      s',
      rw (add_role_lem u r role s y found fresh) run,
      (y', same, λ q. ground (arith, roles q, held q)),
    )

listed-default_roles :
    (r : ℕ) (l : List (ℕ × Role))
    → mem r (default_roles l) ≡ true
    → exists (λ (e : ℕ × Role). e.0 == r) l ≡ true
unfolding exists
listed-default_roles r [] h = cc
listed-default_roles r ((k, role) ∷ l) h = ground (arith, listed-default_roles r l)

-- A user without roles gets every default role, and the rows of permissions stay in step.
pub add_default_roles-Added :
    (u : ℕ) (s : RoleStore)
    → IsSynced s
    → mem u s.users ≡ true
    → is_distinct (default_roles s.roles.entries) ≡ true
    → ((r : ℕ) → exists (is_user_role u r) s.user_roles ≡ false)
    → (s' : RoleStore) × (add_default_roles u false s ≡ ok s')
      × Added u (default_roles s.roles.entries) s s'
unfolding add_default_roles
add_default_roles-Added u s y there distinct new =
    add_roles-Added u (default_roles s.roles.entries) s y there distinct
      (λ r e. get-listed s.roles r (listed-default_roles r s.roles.entries e)) (λ r e. new r)
