-- ===== src/Roles/Endpoints.antt =====
-- The requests of the API that change roles and permissions: the routes of
-- fief/apps/api/routers/roles.py, and those for the roles and permissions of a user in
-- fief/apps/api/routers/users.py. A service's error stands for the route's answer to it, and `not_found`
-- for the status 404. Deleting a role deletes the rows that refer to it: the foreign keys of
-- fief/models/user_role.py and fief/models/user_permission.py.
use fief.Models.{object_deleted, object_created}
use fief.Prelude.{
  ℕ, Bool, Result, ◌==◌, ◌>>◌, ◌>>=◌, ◌&&◌, require, none, guard, true, get, some, ok, exists,
  false, not, remove, put, delete, ◌++◌, ◌∷◌, [], List, err,
}
use fief.Roles.{
  delete_role, all_exist, add_role, RoleStore, is_distinct, UserPermission, Role, RoleError, mem,
  role_create_not_existing_permission, integrity_error, not_found,
  user_permission_create_not_existing_permission, user_role_create_not_existing_role,
  log_object_write, user_permission_create_already_added_permission, with_permissions, is_from,
  RoleUpdate, drain, update_role, RoleTask,
}

unfoldable pub create_user_role : ℕ → ℕ → RoleStore → Result RoleError RoleStore
unfolding add_role
create_user_role u r s = do
  guard (mem u s.users) not_found
  role ← require (get s.roles r) user_role_create_not_existing_role
  add_role u r true s

unfoldable pub delete_user_role : ℕ → ℕ → RoleStore → Result RoleError RoleStore
unfolding delete_role
delete_user_role u r s = do
  guard (mem u s.users) not_found
  role ← require (get s.roles r) not_found
  delete_role u r true s

-- get_by_permission_and_user with `direct_only`
abbrev pub is_direct : ℕ → ℕ → UserPermission → Bool
is_direct u p x =
    (x.user_id == u)
    && (x.permission_id == p)
    && elim x.from_role_id [ none ↦ true | some _ ↦ false ]

unfoldable pub create_user_permission : ℕ → ℕ → RoleStore → Result RoleError RoleStore
create_user_permission u p s = do
  guard (mem u s.users) not_found
  guard (mem p s.permissions) user_permission_create_not_existing_permission
  guard (not (exists (is_direct u p) s.user_permissions))
      user_permission_create_already_added_permission
  ok (
      log_object_write object_created (some u) p (
        with_permissions s (
          s.user_permissions
          ++ record { user_id = u; permission_id = p; from_role_id = none } ∷ [])))

unfoldable pub delete_user_permission : ℕ → ℕ → RoleStore → Result RoleError RoleStore
delete_user_permission u p s = do
  guard (mem u s.users) not_found
  guard (exists (is_direct u p) s.user_permissions) not_found
  ok (
      log_object_write object_deleted (some u) p
        (with_permissions s (delete (is_direct u p) s.user_permissions)))

-- the role gets the new id `r`
unfoldable pub create_role : ℕ → Role → RoleStore → Result RoleError RoleStore
unfolding all_exist is_distinct
create_role r role s = do
  guard (all_exist role.permissions s.permissions) role_create_not_existing_permission
  guard (is_distinct role.permissions) integrity_error
  ok (log_object_write object_created none r (record s { roles = put s.roles r role }))

unfoldable pub remove_role : ℕ → RoleStore → Result RoleError RoleStore
remove_role r s = do
  role ← require (get s.roles r) not_found
  ok (
      log_object_write object_deleted none r (record s {
        roles = remove s.roles r;
        user_roles = delete (λ x. x.role_id == r) s.user_roles;
        user_permissions = delete (λ x. is_from r x.from_role_id) s.user_permissions;
      }))

pub data RoleRequest : Type 0 where
  post_user_role drop_user_role post_user_permission drop_user_permission : ℕ → ℕ → RoleRequest
  post_role : Role → RoleRequest
  patch_role : ℕ → RoleUpdate → RoleRequest
  drop_role : ℕ → RoleRequest

-- what the worker leaves when a request is over: a failed request is rolled back
unfoldable pub settled : RoleStore → Result RoleError RoleStore → RoleStore × List RoleTask
unfolding drain
settled s (err e) = (s, [])
settled s (ok s') = drain s'

module _ (new_id : RoleStore → ℕ) where
  -- the request's route; `new_id` gives the id of a new role
  unfoldable pub request : RoleRequest → RoleStore → Result RoleError RoleStore
  unfolding create_user_role delete_user_role create_user_permission delete_user_permission
      create_role update_role remove_role
  request (post_user_role u r) s = create_user_role u r s
  request (drop_user_role u r) s = delete_user_role u r s
  request (post_user_permission u p) s = create_user_permission u p s
  request (drop_user_permission u p) s = delete_user_permission u p s
  request (post_role role) s = create_role (new_id s) role s
  request (patch_role r q) s = update_role r q s
  request (drop_role r) s = remove_role r s

  -- requests, each of which the worker's tasks follow, with the tasks that failed
  unfoldable pub settle_all : List RoleRequest → RoleStore → RoleStore × List RoleTask
  unfolding request settled
  settle_all [] s = (s, [])
  settle_all (q ∷ qs) s =
      let (s', failed) = settled s (request q s) in
      let (s'', later) = settle_all qs s' in (s'', failed ++ later)
