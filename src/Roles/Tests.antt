-- ===== src/Roles/Tests.antt =====
-- Roles of a small deployment.
use fief.Roles.Race.{drain-race}
use fief.Models.{object_created, object_updated}
use fief.Roles.Settle.{settle_all-IsSettled}
use fief.Roles.Endpoints.{
  create_user_role, settle_all, RoleRequest, settled, post_role, request, post_user_role,
  create_role,
}
use fief.Prelude.{
  exists, List, get, false, ◌≡◌, ◌++◌, none, ◌∷◌, ℕ, arith, some, refl, suc, ◌≤◌, [], put, select,
  ◌+◌, err, true,
}
use fief.Roles.Drain.{IsSettled}
use fief.Roles.Sync.{IsSynced, is_distinct_rows, gives}
use fief.Roles.{
  Role, RoleUpdate, RoleStore, add_role, drain, from_role, on_user_role_created, run_tasks,
  on_role_updated, update_role, updated_role, attempt, all_exist, run_task, is_distinct,
  add_role_permissions, create_many, difference, integrity_error, is_user_role, is_row, distinct,
}

-- an id above all that there are
above : List (ℕ × Role) → ℕ
above [] = 0
above ((k, role) ∷ l) = suc (k + above l)

new_id : RoleStore → ℕ
unfolding above
new_id s = above s.roles.entries

get-above : (l : List (ℕ × Role)) (j : ℕ) → above l ≤ j → get (record { entries = l }) j ≡ none
unfolding get above
get-above [] j h = refl
get-above ((k, role) ∷ l) j h = ground (arith, get-above l j)

fresh : (s : RoleStore) → get s.roles (new_id s) ≡ none
unfolding new_id
fresh s = get-above s.roles.entries (above s.roles.entries) (omega arith)

-- two users and two permissions
abbrev opening : RoleStore
opening = record {
  users = 1 ∷ 2 ∷ [];
  permissions = 100 ∷ 101 ∷ [];
  roles = record { entries = [] };
  user_roles = [];
  user_permissions = [];
  queue = [];
  audit = [];
}

opening-IsSynced : IsSynced opening
unfolding exists get is_distinct_rows
opening-IsSynced = record {
  rows = λ u p r. refl;
  unique = refl;
  role_permissions = λ r role h. ground arith;
  role_exists = λ u r h. absurd (ground arith);
  user_exists = λ u r h. absurd (ground arith);
}

-- a role with one permission
abbrev reader : Role
reader = record { granted_by_default = false; permissions = 100 ∷ [] }

abbrev requests : List RoleRequest
requests = post_role reader ∷ post_user_role 2 0 ∷ []

-- the role, which the second user has
abbrev store : RoleStore
store = record opening {
  roles = record { entries = (0, reader) ∷ [] };
  user_roles = record { user_id = 2; role_id = 0 } ∷ [];
  user_permissions = from_role 2 0 100 ∷ [];
  audit = (object_created, none, 0) ∷ (object_created, some 2, 0) ∷ [];
}

-- the role gets the other permission too
abbrev more : RoleUpdate
more = record { granted_by_default = none; permissions = some (100 ∷ 101 ∷ []) }

abbrev added : RoleStore
added = record store {
  user_roles = store.user_roles ++ record { user_id = 1; role_id = 0 } ∷ [];
  queue = on_user_role_created 1 0 ∷ [];
  audit = store.audit ++ (object_created, some 1, 0) ∷ [];
}

abbrev updated : RoleStore
updated = record added {
  roles = record {
    entries = (0, record { granted_by_default = false; permissions = 100 ∷ 101 ∷ [] }) ∷ [];
  };
  queue = on_user_role_created 1 0 ∷ on_role_updated 0 (101 ∷ []) [] ∷ [];
  audit = added.audit ++ (object_updated, none, 0) ∷ [];
}

settled_store : settle_all new_id requests opening ≡ (store, [])
unfolding settle_all settled request create_user_role add_role drain run_tasks attempt run_task
    add_role_permissions create_many get put exists update_role updated_role distinct all_exist
    is_distinct create_role above new_id
settled_store = refl

store-IsSynced : IsSynced store
store-IsSynced =
    let whole = settle_all-IsSettled new_id fresh requests opening opening-IsSynced refl in
    (rw settled_store at whole).0

settle_all-IsSettled_example : IsSettled (settle_all new_id requests opening)
settle_all-IsSettled_example =
    settle_all-IsSettled new_id fresh requests opening opening-IsSynced refl

drain-race_example :
    (let new = updated_role more reader in
      let task =
        on_role_updated 0
          (difference new.permissions reader.permissions)
          (difference reader.permissions new.permissions) in
      let (s3, failed) = drain updated in
      (failed ≡ task ∷ [])
      × (run_task task s3 ≡ err integrity_error)
      × (exists (is_user_role 2 0) s3.user_roles ≡ true)
      × (gives 0 101 s3.roles ≡ true)
      × (exists (is_row 2 101 0) s3.user_permissions ≡ false))
unfolding create_user_role add_role put get exists select update_role updated_role distinct
    all_exist is_distinct
drain-race_example =
    drain-race 1 2 0 101 reader more store added updated store-IsSynced refl refl refl refl refl
      refl refl
