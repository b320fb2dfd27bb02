-- ===== src/Roles/Drain.antt =====
-- Requests that change roles, each followed by the worker's tasks: fief/apps/api/routers/roles.py and
-- fief/apps/api/routers/users.py with fief/tasks/user_roles.py and fief/tasks/roles.py.
use fief.Roles.Rows.{exists-delete_from}
use fief.Roles.Preserve.{added-IsSynced, removed-IsSynced}
use fief.Roles.Insert.{create_many-role_rows}
use fief.Models.{object_created, object_deleted}
use fief.Roles.Sync.{IsSynced}
use fief.Prelude.{
  ℕ, List, ◌≡◌, [], inl, inr, refl, Result, ok, exists, ◌∷◌, true, false, err, ◌∙◌, get, ◌++◌, some,
  Option-cases, arith, delete, Bool, ◌==◌, ◌&&◌, not,
}
use fief.Roles.Endpoints.{create_user_role, settled, delete_user_role}
use fief.Roles.{
  RoleStore, RoleTask, drain, run_task, is_row, mem, add_role_permissions, RoleError, Role,
  is_user_role, is_distinct, on_user_role_created, with_permissions, role_rows,
  on_user_role_deleted, delete_role_permissions, UserPermission, is_from,
}

-- every task succeeded, none is left, and the rows are in step
abbrev pub IsSettled : RoleStore × List RoleTask → Type 0
IsSettled r = IsSynced r.0 × (r.1 ≡ []) × (r.0.queue ≡ [])

pub settled-IsSettled :
    (s : RoleStore) (run : Result RoleError RoleStore)
    → IsSynced s
    → s.queue ≡ []
    → ((s' : RoleStore) → run ≡ ok s' → IsSettled (drain s'))
    → IsSettled (settled s run)
unfolding settled
settled-IsSettled s (err e) y empty h = (y, refl, empty)
settled-IsSettled s (ok s') y empty h = h s' refl

-- one task in the queue
pub drain_one :
    (t : RoleTask) (s s' : RoleStore)
    → s.queue ≡ t ∷ []
    → run_task t (record s { queue = [] }) ≡ ok s'
    → drain s ≡ (s', [])
unfolding drain
drain_one t s s' one h = rw (one, h) refl

pub create_user_role_lem :
    (u r : ℕ) (s s' : RoleStore)
    → create_user_role u r s ≡ ok s'
    → (mem u s.users ≡ true)
      × (exists (is_user_role u r) s.user_roles ≡ false)
      × (role : Role) × (get s.roles r ≡ some role)
      × (s' ≡ record s {
        user_roles = s.user_roles ++ record { user_id = u; role_id = r } ∷ [];
        queue = s.queue ++ on_user_role_created u r ∷ [];
        audit = s.audit ++ (object_created, some u, r) ∷ [];
      })
unfolding create_user_role
create_user_role_lem u r s s' h = elim (Option-cases (get s.roles r)) [
  | inl lost ↦ absurd (ground arith)
  | inr (role, known) ↦ (ground arith, ground arith, role, known, ground arith)
]

-- the rows of the role, for a user that is new to it
pub run_created :
    (u r : ℕ) (role : Role) (s : RoleStore)
    → get s.roles r ≡ some role
    → mem u s.users ≡ true
    → is_distinct role.permissions ≡ true
    → ((p : ℕ) → exists (is_row u p r) s.user_permissions ≡ false)
    → run_task (on_user_role_created u r) s
      ≡ ok (with_permissions s (s.user_permissions ++ role_rows u r role.permissions))
unfolding run_task add_role_permissions
run_created u r role s known there d free =
    rw
      (
        known,
        there,
        create_many-role_rows u r role.permissions s.user_permissions d (λ p e. free p),
      )
      refl

pub create_user_role-IsSettled :
    (u r : ℕ) (s : RoleStore)
    → IsSynced s
    → s.queue ≡ []
    → IsSettled (settled s (create_user_role u r s))
create_user_role-IsSettled u r s y empty =
    settled-IsSettled s (create_user_role u r s) y empty (λ s' h.
      let (there, new, role, known, same) = create_user_role_lem u r s s' h in
      let free : (p : ℕ) → exists (is_row u p r) s.user_permissions ≡ false =
        λ p. y.rows u p r ∙ rw new refl in
      let users = s.user_roles ++ record { user_id = u; role_id = r } ∷ [] in
      let logged = s.audit ++ (object_created, some u, r) ∷ [] in
      let s1 : RoleStore = record s { user_roles = users; queue = []; audit = logged } in
      let ran = run_created u r role s1 known there (y.role_permissions r role known) free in
      let left : drain s'
          ≡ (with_permissions s1 (s.user_permissions ++ role_rows u r role.permissions), []) =
        rw same (
          drain_one (on_user_role_created u r)
            (record s1 { queue = s.queue ++ on_user_role_created u r ∷ [] })
            (with_permissions s1 (s.user_permissions ++ role_rows u r role.permissions))
            (rw empty refl) ran) in
      rw left (added-IsSynced u r role s [] logged y known new there, refl, refl))

delete_user_role_lem :
    (u r : ℕ) (s s' : RoleStore)
    → delete_user_role u r s ≡ ok s'
    → (mem u s.users ≡ true)
      × (role : Role) × (get s.roles r ≡ some role)
      × (s' ≡ record s {
        user_roles = delete (is_user_role u r) s.user_roles;
        queue = (s.queue ++ on_user_role_deleted u r ∷ []) ++ on_user_role_deleted u r ∷ [];
        audit = s.audit ++ (object_deleted, some u, r) ∷ [];
      })
unfolding delete_user_role
delete_user_role_lem u r s s' h = elim (Option-cases (get s.roles r)) [
  | inl lost ↦ absurd (ground arith)
  | inr (role, known) ↦ (ground arith, role, known, ground arith)
]

run_deleted :
    (u r : ℕ) (role : Role) (s : RoleStore)
    → get s.roles r ≡ some role
    → mem u s.users ≡ true
    → run_task (on_user_role_deleted u r) s ≡ ok (delete_role_permissions u r s)
unfolding run_task
run_deleted u r role s known there = rw (known, there) refl

pub delete_user_role-IsSettled :
    (u r : ℕ) (s : RoleStore)
    → IsSynced s
    → s.queue ≡ []
    → IsSettled (settled s (delete_user_role u r s))
unfolding drain delete_role_permissions
delete_user_role-IsSettled u r s y empty =
    settled-IsSettled s (delete_user_role u r s) y empty (λ s' h.
      let (there, role, known, same) = delete_user_role_lem u r s s' h in
      let q : UserPermission → Bool = λ x. (x.user_id == u) && is_from r x.from_role_id in
      let logged = s.audit ++ (object_deleted, some u, r) ∷ [] in
      let s1 : RoleStore = record s {
        user_roles = delete (is_user_role u r) s.user_roles;
        queue = [];
        audit = logged;
      } in
      let s2 = delete_role_permissions u r s1 in
      let s3 = delete_role_permissions u r s2 in
      let left : drain s' ≡ (s3, []) =
        rw (same, empty, run_deleted u r role s1 known there, run_deleted u r role s2 known there)
          refl in
      let gone : (u' p r' : ℕ)
          → exists (is_row u' p r') s3.user_permissions
            ≡ (not ((u' == u) && (r' == r)) && exists (is_row u' p r') s.user_permissions) =
        λ u' p r'. ground (
          arith,
          exists-delete_from u' p r' u r s.user_permissions,
          exists-delete_from u' p r' u r (delete q s.user_permissions),
        ) in
      rw left (removed-IsSynced u r s s3.user_permissions [] logged y gone, refl, refl))
