-- ===== src/Roles/Settle.antt =====
-- Any sequence of requests that change roles and permissions, each followed by the worker's tasks:
-- fief/apps/api/routers/roles.py and fief/apps/api/routers/users.py.
use fief.Roles.Preserve.{
  updated-IsSynced, gives-some, direct-IsSynced, created-IsSynced, dropped-IsSynced,
}
use fief.Roles.Insert.{create_many-updated_rows}
use fief.Models.{object_updated, object_created, object_deleted}
use fief.Roles.Endpoints.{
  settled, settle_all, request, create_user_permission, RoleRequest, delete_user_permission,
  create_role, remove_role, post_user_role, drop_user_role, patch_role, post_user_permission,
  drop_user_permission, is_direct, post_role, drop_role,
}
use fief.Roles.Drain.{
  IsSettled, settled-IsSettled, drain_one, create_user_role-IsSettled, delete_user_role-IsSettled,
}
use fief.Roles.Rows.{has_user, mem-difference, exists-delete_direct, exists-append_direct}
use fief.Roles.Sync.{
  updated_role-is_distinct, IsSynced, is_distinct-difference, is_distinct_users-select,
}
use fief.Prelude.{
  ℕ, List, ◌≡◌, get, [], ok, some, select, ◌==◌, true, ◌&&◌, put, exists, ◌++◌, ◌∷◌, none, false,
  arith, Option-cases, inl, refl, inr, get-put_self, delete, remove,
}
use fief.Roles.{
  run_task, update_role, RoleUpdate, Role, RoleStore, updated_role, create_many, updated_rows,
  difference, mem, on_role_updated, is_row, with_permissions, delete_many, drain, UserPermission,
  is_from,
}

pub update_role_lem :
    (r : ℕ) (q : RoleUpdate) (s s' : RoleStore)
    → update_role r q s ≡ ok s'
    → (role : Role) × (get s.roles r ≡ some role)
      × (s' ≡ (
          let new = updated_role q role in
          record s {
            roles = put s.roles r new;
            queue =
                s.queue
                ++ on_role_updated r
                    (difference new.permissions role.permissions)
                    (difference role.permissions new.permissions)
                  ∷ [];
            audit = s.audit ++ (object_updated, none, r) ∷ [];
          }))
unfolding update_role
update_role_lem r q s s' h = elim (Option-cases (get s.roles r)) [
  | inl lost ↦ absurd (ground arith)
  | inr (role, known) ↦ (role, known, ground arith)
]

run_updated :
    (r : ℕ) (role : Role) (added deleted : List ℕ) (s : RoleStore)
    → get s.roles r ≡ some role
    → (let xs = select (λ x. x.role_id == r) s.user_roles in
        create_many (updated_rows r added xs) s.user_permissions
        ≡ ok (s.user_permissions ++ updated_rows r added xs))
    → (let xs = select (λ x. x.role_id == r) s.user_roles in
        run_task (on_role_updated r added deleted) s
        ≡ ok (
            with_permissions s
              (delete_many r deleted (s.user_permissions ++ updated_rows r added xs))))
unfolding run_task
run_updated r role added deleted s known inserted = rw (known, inserted) refl

-- an added permission is in no row yet
added_free :
    (r : ℕ) (role new : Role) (s : RoleStore)
    → IsSynced s
    → get s.roles r ≡ some role
    → (u p : ℕ)
    → (has_user u (select (λ x. x.role_id == r) s.user_roles)
        && mem p (difference new.permissions role.permissions))
      ≡ true
    → exists (is_row u p r) s.user_permissions ≡ false
added_free r role new s y known u p h = ground (
  arith,
  y.rows u p r,
  gives-some r p s.roles role known,
  mem-difference p new.permissions role.permissions,
)

pub update_role-IsSettled :
    (r : ℕ) (q : RoleUpdate) (s : RoleStore)
    → IsSynced s
    → s.queue ≡ []
    → IsSettled (settled s (update_role r q s))
update_role-IsSettled r q s y empty = settled-IsSettled s (update_role r q s) y empty (λ s' h.
    let (role, known, same) = update_role_lem r q s s' h in
    let d = updated_role-is_distinct q role (y.role_permissions r role known) in
    let new = updated_role q role in
    let added = difference new.permissions role.permissions in
    let deleted = difference role.permissions new.permissions in
    let xs = select (λ x. x.role_id == r) s.user_roles in
    let logged = s.audit ++ (object_updated, none, r) ∷ [] in
    let s1 : RoleStore = record s { roles = put s.roles r new; queue = []; audit = logged } in
    let inserted =
      create_many-updated_rows r added xs s.user_permissions
        (is_distinct-difference new.permissions role.permissions d)
        (is_distinct_users-select r s.user_roles y.unique) (added_free r role new s y known) in
    let ran = run_updated r new added deleted s1 (get-put_self s.roles r new) inserted in
    let s2 =
      with_permissions s1 (delete_many r deleted (s.user_permissions ++ updated_rows r added xs)) in
    let left : drain s' ≡ (s2, []) = rw same (
      drain_one (on_role_updated r added deleted)
        (record s1 { queue = s.queue ++ on_role_updated r added deleted ∷ [] }) s2 (rw empty refl)
        ran) in
    rw left (updated-IsSynced r role new s logged y known d, refl, refl))

-- a request that sends no task
quiet :
    (s' s1 : RoleStore)
    → s' ≡ s1
    → s1.queue ≡ []
    → IsSynced (record s1 { queue = [] })
    → IsSettled (drain s')
unfolding drain
quiet s' s1 same empty y = rw (same, empty) (y, refl, refl)

module _ (new_id : RoleStore → ℕ) (fresh : (s : RoleStore) → get s.roles (new_id s) ≡ none) where
  request-IsSettled :
      (q : RoleRequest) (s : RoleStore)
      → IsSynced s
      → s.queue ≡ []
      → IsSettled (settled s (request new_id q s))
  unfolding request create_user_permission delete_user_permission create_role remove_role
  request-IsSettled (post_user_role u r) s y empty = create_user_role-IsSettled u r s y empty
  request-IsSettled (drop_user_role u r) s y empty = delete_user_role-IsSettled u r s y empty
  request-IsSettled (patch_role r q) s y empty = update_role-IsSettled r q s y empty
  request-IsSettled (post_user_permission u p) s y empty =
      let row : UserPermission = record { user_id = u; permission_id = p; from_role_id = none } in
      let l = s.user_permissions ++ row ∷ [] in
      let logged = s.audit ++ (object_created, some u, p) ∷ [] in
      settled-IsSettled s (create_user_permission u p s) y empty (λ s' h.
        quiet s' (record s { user_permissions = l; audit = logged }) (ground arith) empty
          (direct-IsSynced s l logged y
            (λ u' p' r. exists-append_direct u' p' r u p s.user_permissions)))
  request-IsSettled (drop_user_permission u p) s y empty =
      let l = delete (is_direct u p) s.user_permissions in
      let logged = s.audit ++ (object_deleted, some u, p) ∷ [] in
      settled-IsSettled s (delete_user_permission u p s) y empty (λ s' h.
        quiet s' (record s { user_permissions = l; audit = logged }) (ground arith) empty
          (direct-IsSynced s l logged y
            (λ u' p' r. exists-delete_direct u' p' r u p s.user_permissions)))
  request-IsSettled (post_role role) s y empty =
      let r = new_id s in
      let logged = s.audit ++ (object_created, none, r) ∷ [] in
      settled-IsSettled s (create_role r role s) y empty (λ s' h.
        quiet s' (record s { roles = put s.roles r role; audit = logged }) (ground arith) empty
          (created-IsSynced r role s logged y (fresh s) (ground arith)))
  request-IsSettled (drop_role r) s y empty =
      let logged = s.audit ++ (object_deleted, none, r) ∷ [] in
      settled-IsSettled s (remove_role r s) y empty (λ s' h.
        quiet s'
          (record s {
            roles = remove s.roles r;
            user_roles = delete (λ x. x.role_id == r) s.user_roles;
            user_permissions = delete (λ x. is_from r x.from_role_id) s.user_permissions;
            audit = logged;
          })
          (ground arith) empty (dropped-IsSynced r s logged y))

  -- Whatever requests come, if the worker has run the tasks of one before the next: every task succeeds,
  -- and at the end a user has a permission from a role exactly if the user has the role and the role
  -- has the permission. The tables start in step, with no task waiting, and a new role has a new id.
  pub settle_all-IsSettled :
      (qs : List RoleRequest) (s : RoleStore)
      → IsSynced s
      → s.queue ≡ []
      → IsSettled (settle_all new_id qs s)
  unfolding settle_all
  settle_all-IsSettled [] s y empty = (y, refl, empty)
  settle_all-IsSettled (q ∷ qs) s y empty =
      let (s1, failed) = settled s (request new_id q s) in
      let (y1, none_failed, empty1) = request-IsSettled q s y empty in
      let (y2, none_later, empty2) = settle_all-IsSettled qs s1 y1 empty1 in
      (y2, rw (none_failed, none_later) refl, empty2)
