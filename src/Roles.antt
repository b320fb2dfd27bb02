-- ===== src/Roles.antt =====
-- Roles and the permissions that users have from them: fief/services/user_roles.py,
-- fief/services/user_role_permissions.py, the update of fief/apps/api/routers/roles.py, and the tasks of
-- fief/tasks/user_roles.py and fief/tasks/roles.py, with the repositories of user roles and user
-- permissions. The tasks wait in a queue until a worker runs them. The webhooks are left out.
pub mod Endpoints
pub mod Rows
pub mod Insert
pub mod Sync
pub mod Preserve
pub mod Drain
pub mod Settle
pub mod Race
pub mod Defaults
mod Tests
use fief.Token.{granted}
use fief.Models.{AuditLogMessage, object_updated, object_deleted, object_created}
use fief.Prelude.{
  List, Result, ℕ, Bool, none, ok, select, Dict, guard, ◌>>◌, exists, some, ◌==◌, true, [], ◌∷◌,
  delete, map, ◌>>=◌, Option, err, ◌++◌, ◌&&◌, if◌then◌else◌, false, require, not, get, put,
}

pub record Role : Type 0 where
  pub granted_by_default : Bool
  pub permissions : List ℕ

pub record UserRole : Type 0 where
  pub user_id : ℕ
  pub role_id : ℕ

pub record UserPermission : Type 0 where
  pub user_id : ℕ
  pub permission_id : ℕ
  pub from_role_id : Option ℕ

pub data RoleTask : Type 0 where
  on_user_role_created : ℕ → ℕ → RoleTask
  on_user_role_deleted : ℕ → ℕ → RoleTask
  on_role_updated : ℕ → List ℕ → List ℕ → RoleTask

pub record RoleStore : Type 0 where
  pub users : List ℕ
  pub permissions : List ℕ
  pub roles : Dict Role
  pub user_roles : List UserRole
  pub user_permissions : List UserPermission
  pub queue : List RoleTask
  pub audit : List (AuditLogMessage × Option ℕ × ℕ)

pub data RoleError : Type 0 where
  user_role_already_exists user_role_does_not_exist : RoleError
  role_create_not_existing_permission role_update_not_existing_permission : RoleError
  user_role_create_not_existing_role : RoleError
  user_permission_create_not_existing_permission : RoleError
  user_permission_create_already_added_permission : RoleError
  not_found object_does_not_exist integrity_error : RoleError

abbrev pub is_user_role : ℕ → ℕ → UserRole → Bool
is_user_role u r x = (x.user_id == u) && (x.role_id == r)

abbrev pub is_from : ℕ → Option ℕ → Bool
is_from r none = false
is_from r (some s) = s == r

-- the row of a permission that a user has from a role
abbrev pub is_row : ℕ → ℕ → ℕ → UserPermission → Bool
is_row u p r x = (x.user_id == u) && (x.permission_id == p) && is_from r x.from_role_id

-- the unique constraint on user, permission and role: a NULL role is equal to none
abbrev pub conflicts : UserPermission → UserPermission → Bool
conflicts x y = elim x.from_role_id [ none ↦ false | some r ↦ is_row x.user_id x.permission_id r y ]

-- UserPermissionRepository.create_many: all the rows, or the database's error and none
unfoldable pub create_many :
    List UserPermission → List UserPermission → Result RoleError (List UserPermission)
create_many [] l = ok l
create_many (x ∷ xs) l =
    let rest = create_many xs (l ++ x ∷ []) in
    if exists (conflicts x) l then err integrity_error else rest

abbrev pub from_role : ℕ → ℕ → ℕ → UserPermission
from_role u r p = record { user_id = u; permission_id = p; from_role_id = some r }

abbrev pub role_rows : ℕ → ℕ → List ℕ → List UserPermission
role_rows u r ps = map (from_role u r) ps

abbrev pub with_permissions : RoleStore → List UserPermission → RoleStore
with_permissions s l = record s { user_permissions = l }

-- UserRolePermissionsService.add_role_permissions
unfoldable pub add_role_permissions : ℕ → ℕ → Role → RoleStore → Result RoleError RoleStore
unfolding create_many
add_role_permissions u r role s = do
  l ← create_many (role_rows u r role.permissions) s.user_permissions
  ok (with_permissions s l)

-- UserRolePermissionsService.delete_role_permissions, delete_by_user_and_role
unfoldable pub delete_role_permissions : ℕ → ℕ → RoleStore → RoleStore
delete_role_permissions u r s =
    with_permissions s
      (delete (λ x. (x.user_id == u) && is_from r x.from_role_id) s.user_permissions)

abbrev pub send : List RoleTask → RoleStore → RoleStore
send ts s = record s { queue = s.queue ++ ts }

abbrev pub log_object_write : AuditLogMessage → Option ℕ → ℕ → RoleStore → RoleStore
log_object_write m u r s = record s { audit = s.audit ++ (m, u, r) ∷ [] }

-- UserRolesService.add_role; the role is the row `r`
unfoldable pub add_role : ℕ → ℕ → Bool → RoleStore → Result RoleError RoleStore
unfolding add_role_permissions
add_role u r run_in_worker s = do
  role ← require (get s.roles r) not_found
  guard (not (exists (is_user_role u r) s.user_roles)) user_role_already_exists
  let s' =
      log_object_write object_created (some u) r
        (record s { user_roles = s.user_roles ++ record { user_id = u; role_id = r } ∷ [] })
  if run_in_worker
      then ok (send (on_user_role_created u r ∷ []) s')
      else add_role_permissions u r role s'

-- UserRolesService.delete_role: the task is sent in any case, and again for the worker
unfoldable pub delete_role : ℕ → ℕ → Bool → RoleStore → Result RoleError RoleStore
unfolding delete_role_permissions
delete_role u r run_in_worker s = do
  guard (exists (is_user_role u r) s.user_roles) user_role_does_not_exist
  let s' = send (on_user_role_deleted u r ∷ []) (
      log_object_write object_deleted (some u) r
        (record s { user_roles = delete (is_user_role u r) s.user_roles }))
  if run_in_worker
      then ok (send (on_user_role_deleted u r ∷ []) s')
      else ok (delete_role_permissions u r s')

-- the roles that are granted by default
abbrev pub default_roles : List (ℕ × Role) → List ℕ
default_roles [] = []
default_roles ((r, role) ∷ l) =
    if role.granted_by_default then r ∷ default_roles l else default_roles l

unfoldable pub add_roles : ℕ → List ℕ → Bool → RoleStore → Result RoleError RoleStore
unfolding add_role
add_roles u [] run_in_worker s = ok s
add_roles u (r ∷ rs) run_in_worker s = do
  s' ← add_role u r run_in_worker s
  add_roles u rs run_in_worker s'

-- UserRolesService.add_default_roles
unfoldable pub add_default_roles : ℕ → Bool → RoleStore → Result RoleError RoleStore
unfolding add_roles
add_default_roles u run_in_worker s = add_roles u (default_roles s.roles.entries) run_in_worker s

abbrev pub mem : ℕ → List ℕ → Bool
mem p ps = exists (λ q. q == p) ps

-- xs - ys
abbrev pub difference : List ℕ → List ℕ → List ℕ
difference xs ys = select (λ p. not (mem p ys)) xs

-- every permission is in the table
unfoldable pub all_exist : List ℕ → List ℕ → Bool
all_exist [] table = true
all_exist (p ∷ ps) table = mem p table && all_exist ps table

-- no permission twice: the primary key of the table of roles and permissions
unfoldable pub is_distinct : List ℕ → Bool
is_distinct [] = true
is_distinct (p ∷ ps) = not (mem p ps) && is_distinct ps

pub record RoleUpdate : Type 0 where
  pub granted_by_default : Option Bool
  pub permissions : Option (List ℕ)

-- the rows of a list of permissions, in which an id may stand twice: the session writes each
-- permission to the table before it reads the next one, so that a repeated one has its row already
unfoldable pub distinct : List ℕ → List ℕ
distinct [] = []
distinct (p ∷ ps) = let rest = distinct ps in if mem p ps then rest else p ∷ rest

-- the role with the fields that the request sets
unfoldable pub updated_role : RoleUpdate → Role → Role
unfolding distinct
updated_role q role = record {
  granted_by_default = elim q.granted_by_default [ none ↦ role.granted_by_default | some b ↦ b ];
  permissions = elim q.permissions [ none ↦ role.permissions | some ps ↦ distinct ps ];
}

-- PATCH /roles/{id}
unfoldable pub update_role : ℕ → RoleUpdate → RoleStore → Result RoleError RoleStore
unfolding all_exist updated_role
update_role r q s = do
  role ← require (get s.roles r) not_found
  let new = updated_role q role
  guard (elim q.permissions [ none ↦ true | some ps ↦ all_exist ps s.permissions ])
      role_update_not_existing_permission
  ok (
      send
        (on_role_updated r (difference new.permissions role.permissions)
            (difference role.permissions new.permissions)
          ∷ [])
        (log_object_write object_updated none r (record s { roles = put s.roles r new })))

-- the rows of the added permissions for the users with the role
unfoldable pub updated_rows : ℕ → List ℕ → List UserRole → List UserPermission
updated_rows r added [] = []
updated_rows r added (x ∷ xs) = role_rows x.user_id r added ++ updated_rows r added xs

-- delete_by_permission_and_role for each permission
unfoldable pub delete_many : ℕ → List ℕ → List UserPermission → List UserPermission
delete_many r [] l = l
delete_many r (p ∷ ps) l =
    delete_many r ps (delete (λ x. (x.permission_id == p) && is_from r x.from_role_id) l)

abbrev pub require_user : ℕ → RoleStore → Result RoleError (Unit {0})
require_user u s = guard (mem u s.users) object_does_not_exist

-- a task's `run`
unfoldable pub run_task : RoleTask → RoleStore → Result RoleError RoleStore
unfolding add_role_permissions delete_role_permissions create_many updated_rows delete_many
run_task (on_user_role_created u r) s = do
  role ← require (get s.roles r) object_does_not_exist
  require_user u s
  add_role_permissions u r role s
run_task (on_user_role_deleted u r) s = do
  role ← require (get s.roles r) object_does_not_exist
  require_user u s
  ok (delete_role_permissions u r s)
run_task (on_role_updated r added deleted) s = do
  role ← require (get s.roles r) object_does_not_exist
  l ←
      create_many (updated_rows r added (select (λ x. x.role_id == r) s.user_roles))
        s.user_permissions
  ok (with_permissions s (delete_many r deleted l))

-- what a run leaves, and the task if it failed: its session is rolled back
unfoldable pub attempt :
    RoleTask → Result RoleError RoleStore → RoleStore → RoleStore × List RoleTask
attempt t (ok s') s = (s', [])
attempt t (err e) s = (s, t ∷ [])

-- the tasks in their order, with those that failed
unfoldable pub run_tasks : List RoleTask → RoleStore → RoleStore × List RoleTask
unfolding run_task attempt
run_tasks [] s = (s, [])
run_tasks (t ∷ ts) s =
    let (s', failed) = attempt t (run_task t s) s in
    let (s'', later) = run_tasks ts s' in (s'', failed ++ later)

-- the worker takes the whole queue
unfoldable pub drain : RoleStore → RoleStore × List RoleTask
unfolding run_tasks
drain s = run_tasks s.queue (record s { queue = [] })
