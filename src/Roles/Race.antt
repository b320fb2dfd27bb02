-- ===== src/Roles/Race.antt =====
-- A change of a role while the task for a new holder waits: fief/tasks/user_roles.py before
-- fief/tasks/roles.py.
use fief.Roles.Preserve.{gives-some}
use fief.Models.{object_created, object_updated}
use fief.Roles.Insert.{create_many-integrity_error}
use fief.Roles.Rows.{exists-role_rows, exists-updated_rows, has_user-select, mem-difference}
use fief.Roles.Drain.{create_user_role_lem, run_created}
use fief.Roles.Endpoints.{create_user_role}
use fief.Roles.Sync.{IsSynced, gives, updated_role-is_distinct}
use fief.Prelude.{
  ℕ, List, get, ◌≡◌, ◌++◌, some, ◌++◌, [], ok, exists, true, false, err, select, ◌∷◌, ◌==◌, arith,
  exists-append, refl, put, none, get-put_self, ◌∙◌, Bool-cases, inl, ap, same_number, inr,
}
use fief.Roles.{
  run_task, Role, RoleUpdate, RoleStore, UserPermission, role_rows, is_user_role, update_role, mem,
  on_role_updated, updated_role, difference, integrity_error, drain, is_row, updated_rows, RoleTask,
  RoleError, on_user_role_created, with_permissions, UserRole,
}

-- the task of the update, after the task of the new holder
run_late :
    (u r p : ℕ) (new : Role) (added deleted : List ℕ) (s : RoleStore) (l : List UserPermission)
    → get s.roles r ≡ some new
    → s.user_permissions ≡ l ++ role_rows u r new.permissions
    → exists (is_user_role u r) s.user_roles ≡ true
    → mem p new.permissions ≡ true
    → mem p added ≡ true
    → run_task (on_role_updated r added deleted) s ≡ err integrity_error
unfolding run_task
run_late u r p new added deleted s l known rows has given more =
    let xs = select (λ x. x.role_id == r) s.user_roles in
    let there : exists (is_row u p r) s.user_permissions ≡ true = rw rows (
      ground (
        arith,
        exists-append (is_row u p r) l (role_rows u r new.permissions),
        exists-role_rows u p r u r new.permissions,
      )) in
    let again : exists (is_row u p r) (updated_rows r added xs) ≡ true =
      ground (arith, exists-updated_rows u p r r added xs, has_user-select u r s.user_roles) in
    rw
      (
        known,
        create_many-integrity_error u p r (updated_rows r added xs) s.user_permissions there again,
      )
      refl

-- the update of this row
update_role_row :
    (r : ℕ) (role : Role) (q : RoleUpdate) (s s' : RoleStore)
    → get s.roles r ≡ some role
    → update_role r q s ≡ ok s'
    → s' ≡ (
        let new = updated_role q role in
        record s {
          roles = put s.roles r new;
          queue =
              s.queue
              ++ on_role_updated r
                  (difference new.permissions role.permissions)
                  (difference role.permissions new.permissions)
                ∷ [];
          audit = s.audit ++ (object_updated, none, r) ∷ [];
        })
unfolding update_role
update_role_row r role q s s' known h = ground arith

two_tasks :
    (t t' : RoleTask) (s s' : RoleStore) (e : RoleError)
    → s.queue ≡ t ∷ t' ∷ []
    → run_task t (record s { queue = [] }) ≡ ok s'
    → run_task t' s' ≡ err e
    → drain s ≡ (s', t' ∷ [])
unfolding drain
two_tasks t t' s s' e two h h' = rw (two, h, h') refl

has_new :
    (u r : ℕ) (xs : List UserRole)
    → exists (is_user_role u r) (xs ++ record { user_id = u; role_id = r } ∷ []) ≡ true
unfolding exists
has_new u r [] = ground arith
has_new u r (x ∷ xs) = ground (arith, has_new u r xs)

-- another holder has no row of the new permission
other_holder :
    (u v r p : ℕ) (ps : List ℕ) (role : Role) (s : RoleStore)
    → IsSynced s
    → get s.roles r ≡ some role
    → exists (is_user_role u r) s.user_roles ≡ false
    → exists (is_user_role v r) s.user_roles ≡ true
    → mem p role.permissions ≡ false
    → exists (is_row v p r) (s.user_permissions ++ role_rows u r ps) ≡ false
other_holder u v r p ps role s y known first holder lacks =
    let inserted = exists-append (is_row v p r) s.user_permissions (role_rows u r ps) in
    let rows = exists-role_rows v p r u r ps in
    elim (Bool-cases (u == v)) [
      | inl same ↦ absurd (
          ground (
            arith,
            first,
            holder,
            ap (λ x. exists (is_user_role x r) s.user_roles) (same_number u v same),
          ))
      | inr other ↦ ground (arith, inserted, rows, y.rows v p r, gives-some r p s.roles role known)
    ]

-- If a role gets a permission while the task for a new holder of the role waits, the tables stay out of
-- step for the others: the task of the new holder already inserts the new permission, the task of the
-- update then fails on its row, and so does any retry, and a user who had the role before has no row of
-- the permission.
pub drain-race :
    (u v r p : ℕ) (role : Role) (q : RoleUpdate) (s s1 s2 : RoleStore)
    → IsSynced s
    → s.queue ≡ []
    → get s.roles r ≡ some role
    → create_user_role u r s ≡ ok s1
    → update_role r q s1 ≡ ok s2
    → exists (is_user_role v r) s.user_roles ≡ true
    → mem p role.permissions ≡ false
    → mem p (updated_role q role).permissions ≡ true
    → (let new = updated_role q role in
        let task =
          on_role_updated r
            (difference new.permissions role.permissions)
            (difference role.permissions new.permissions) in
        let (s3, failed) = drain s2 in
        (failed ≡ task ∷ [])
        × (run_task task s3 ≡ err integrity_error)
        × (exists (is_user_role v r) s3.user_roles ≡ true)
        × (gives r p s3.roles ≡ true)
        × (exists (is_row v p r) s3.user_permissions ≡ false))
drain-race u v r p role q s s1 s2 y empty known h1 h2 holder lacks gets =
    let (there, first, role1, known1, same1) = create_user_role_lem u r s s1 h1 in
    let new = updated_role q role in
    let added = difference new.permissions role.permissions in
    let deleted = difference role.permissions new.permissions in
    let task = on_role_updated r added deleted in
    let users = s.user_roles ++ record { user_id = u; role_id = r } ∷ [] in
    let d = updated_role-is_distinct q role (y.role_permissions r role known) in
    let same2 = update_role_row r role q s1 s2 (rw same1 known) h2 in
    let s0 : RoleStore = record s {
      roles = put s.roles r new;
      user_roles = users;
      queue = [];
      audit = (s.audit ++ (object_created, some u, r) ∷ []) ++ (object_updated, none, r) ∷ [];
    } in
    let queued : s2 ≡ record s0 { queue = on_user_role_created u r ∷ task ∷ [] } =
      rw (same2, same1, empty) refl in
    let here = get-put_self s.roles r new in
    let free : (p' : ℕ) → exists (is_row u p' r) s.user_permissions ≡ false =
      λ p'. y.rows u p' r ∙ rw first refl in
    let s3 = with_permissions s0 (s.user_permissions ++ role_rows u r new.permissions) in
    let ran = run_created u r new s0 here there d free in
    let has : exists (is_user_role u r) users ≡ true = has_new u r s.user_roles in
    let more : mem p added ≡ true =
      ground (arith, mem-difference p new.permissions role.permissions) in
    let late = run_late u r p new added deleted s3 s.user_permissions here refl has gets more in
    let left : drain s2 ≡ (s3, task ∷ []) = rw queued (
      two_tasks (on_user_role_created u r) task
        (record s0 { queue = on_user_role_created u r ∷ task ∷ [] }) s3 integrity_error refl ran
        late) in
    rw left (
      refl,
      late,
      ground (
        arith,
        exists-append (is_user_role v r) s.user_roles (record { user_id = u; role_id = r } ∷ []),
      ),
      gives-some r p (put s.roles r new) new here ∙ gets,
      other_holder u v r p new.permissions role s y known first holder lacks,
    )
