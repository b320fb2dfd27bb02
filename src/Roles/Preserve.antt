-- ===== src/Roles/Preserve.antt =====
-- The changes of the tables that keep the rows of user permissions in step with the roles:
-- fief/services/user_role_permissions.py and fief/tasks/roles.py.
use fief.Roles.Rows.{
  exists-role_rows, exists-delete_user_role, exists-delete_many, exists-updated_rows,
  has_user-select, mem-difference, exists-delete_from_role, exists-delete_role,
}
use fief.Models.{AuditLogMessage}
use fief.Roles.{
  RoleStore, Role, RoleTask, mem, is_user_role, role_rows, is_row, UserPermission, is_distinct,
  delete_many, difference, updated_rows, is_from,
}
use fief.Roles.Sync.{gives, IsSynced, is_distinct_rows-append, is_distinct_rows-delete}
use fief.Prelude.{
  exists, ℕ, List, get, ◌≡◌, some, Option, false, true, ◌++◌, ◌∷◌, [], exists-append, Bool-cases,
  ◌==◌, inl, arith, inr, put, refl, ap, not, ◌∙◌, if◌then◌else◌, sym, get-put, ◌&&◌, same_number,
  delete, select, Dict, remove, none, get-remove,
}

pub gives-some :
    (r p : ℕ) (roles : Dict Role) (role : Role)
    → get roles r ≡ some role
    → gives r p roles ≡ mem p role.permissions
unfolding gives
gives-some r p roles role h = rw (gives, h) refl

pub added-IsSynced :
    (u r : ℕ) (role : Role) (s : RoleStore) (q : List RoleTask)
    (a : List (AuditLogMessage × Option ℕ × ℕ))
    → IsSynced s
    → get s.roles r ≡ some role
    → exists (is_user_role u r) s.user_roles ≡ false
    → mem u s.users ≡ true
    → IsSynced (record s {
      user_roles = s.user_roles ++ record { user_id = u; role_id = r } ∷ [];
      user_permissions = s.user_permissions ++ role_rows u r role.permissions;
      queue = q;
      audit = a;
    })
unfolding exists gives
added-IsSynced u r role s q a y known new there = record {
  rows = λ u' p r'.
      let perms =
        exists-append (is_row u' p r') s.user_permissions (role_rows u r role.permissions) in
      let users =
        exists-append (is_user_role u' r') s.user_roles
          (record { user_id = u; role_id = r } ∷ []) in
      let old = exists-role_rows u' p r' u r role.permissions in
      let given = gives-some r p s.roles role known in
      elim (Bool-cases (r == r')) [
        | inl same ↦ grind (arith, y.rows u' p r', perms, users, old, given)
        | inr other ↦ ground (arith, y.rows u' p r', perms, users, old)
      ];
  unique = is_distinct_rows-append u r s.user_roles y.unique new;
  role_permissions = y.role_permissions;
  role_exists = λ u' r' e.
      let users =
        exists-append (is_user_role u' r') s.user_roles
          (record { user_id = u; role_id = r } ∷ []) in
      elim (Bool-cases (r == r')) [
        | inl same ↦ (role, ap (get s.roles) (sym (same_number r r' same)) ∙ known)
        | inr other ↦ y.role_exists u' r' (ground (arith, users))
      ];
  user_exists = λ u' r' e.
      let users =
        exists-append (is_user_role u' r') s.user_roles
          (record { user_id = u; role_id = r } ∷ []) in
      elim (Bool-cases (u == u')) [
        | inl same ↦ ap (λ v. mem v s.users) (sym (same_number u u' same)) ∙ there
        | inr other ↦ y.user_exists u' r' (ground (arith, users))
      ];
}

pub removed-IsSynced :
    (u r : ℕ) (s : RoleStore) (l : List UserPermission) (q : List RoleTask)
    (a : List (AuditLogMessage × Option ℕ × ℕ))
    → IsSynced s
    → ((u' p r' : ℕ)
        → exists (is_row u' p r') l
          ≡ (not ((u' == u) && (r' == r)) && exists (is_row u' p r') s.user_permissions))
    → IsSynced (record s {
      user_roles = delete (is_user_role u r) s.user_roles;
      user_permissions = l;
      queue = q;
      audit = a;
    })
removed-IsSynced u r s l q a y h = record {
  rows = λ u' p r'.
      ground (arith, y.rows u' p r', h u' p r', exists-delete_user_role u' r' u r s.user_roles);
  unique = is_distinct_rows-delete (is_user_role u r) s.user_roles y.unique;
  role_permissions = y.role_permissions;
  role_exists = λ u' r' e.
      y.role_exists u' r' (ground (arith, exists-delete_user_role u' r' u r s.user_roles));
  user_exists = λ u' r' e.
      y.user_exists u' r' (ground (arith, exists-delete_user_role u' r' u r s.user_roles));
}

-- rows that are not from a role
pub direct-IsSynced :
    (s : RoleStore) (l : List UserPermission) (a : List (AuditLogMessage × Option ℕ × ℕ))
    → IsSynced s
    → ((u p r : ℕ) → exists (is_row u p r) l ≡ exists (is_row u p r) s.user_permissions)
    → IsSynced (record s { user_permissions = l; queue = []; audit = a })
direct-IsSynced s l a y h = record {
  rows = λ u p r. h u p r ∙ y.rows u p r;
  unique = y.unique;
  role_permissions = y.role_permissions;
  role_exists = y.role_exists;
  user_exists = y.user_exists;
}

gives-put :
    (r r' p : ℕ) (new : Role) (roles : Dict Role)
    → gives r' p (put roles r new) ≡ (if r == r' then mem p new.permissions else gives r' p roles)
unfolding gives
gives-put r r' p new roles = rw (gives, get-put) (ground arith)

put-is_distinct :
    (r r' : ℕ) (new role : Role) (s : RoleStore)
    → IsSynced s
    → is_distinct new.permissions ≡ true
    → get (put s.roles r new) r' ≡ some role
    → is_distinct role.permissions ≡ true
put-is_distinct r r' new role s y d h = elim (Bool-cases (r == r')) [
  | inl same ↦
      let eq : new ≡ role = ground (arith, get-put s.roles r r' new) in
      ap (λ (x : Role). is_distinct x.permissions) (sym eq) ∙ d
  | inr other ↦ y.role_permissions r' role (ground (arith, get-put s.roles r r' new))
]

put-role_exists :
    (u r r' : ℕ) (new : Role) (s : RoleStore)
    → IsSynced s
    → exists (is_user_role u r') s.user_roles ≡ true
    → (role : Role) × (get (put s.roles r new) r' ≡ some role)
put-role_exists u r r' new s y e = elim (Bool-cases (r == r')) [
  | inl same ↦ (new, ground (arith, get-put s.roles r r' new))
  | inr other ↦
      let (role, known) = y.role_exists u r' e in (role, ground (arith, get-put s.roles r r' new))
]

-- rows for the added permissions, and none for the deleted ones
pub updated-IsSynced :
    (r : ℕ) (role new : Role) (s : RoleStore) (a : List (AuditLogMessage × Option ℕ × ℕ))
    → IsSynced s
    → get s.roles r ≡ some role
    → is_distinct new.permissions ≡ true
    → IsSynced (record s {
      roles = put s.roles r new;
      user_permissions = delete_many r (difference role.permissions new.permissions) (
          s.user_permissions
          ++ updated_rows r
              (difference new.permissions role.permissions)
              (select (λ x. x.role_id == r) s.user_roles));
      queue = [];
      audit = a;
    })
updated-IsSynced r role new s a y known d =
    let added = difference new.permissions role.permissions in
    let deleted = difference role.permissions new.permissions in
    let xs = select (λ x. x.role_id == r) s.user_roles in
    record {
      rows = λ u p r'.
          let inserted =
            exists-append (is_row u p r') s.user_permissions (updated_rows r added xs) in
          let left =
            exists-delete_many u p r' r deleted (s.user_permissions ++ updated_rows r added xs) in
          let rows = exists-updated_rows u p r' r added xs in
          let holders = has_user-select u r s.user_roles in
          let more = mem-difference p new.permissions role.permissions in
          let fewer = mem-difference p role.permissions new.permissions in
          let old = gives-some r p s.roles role known in
          elim (Bool-cases (r == r')) [
            | inl same ↦ grind (
              arith,
              y.rows u p r',
              inserted,
              left,
              rows,
              holders,
              more,
              fewer,
              old,
              gives-put r r' p new s.roles,
            )
            | inr other ↦
                ground (arith, y.rows u p r', inserted, left, rows, gives-put r r' p new s.roles)
          ];
      unique = y.unique;
      role_permissions = λ r' role' h. put-is_distinct r r' new role' s y d h;
      role_exists = λ u r' e. put-role_exists u r r' new s y e;
      user_exists = y.user_exists;
    }

-- a role that nobody has yet
pub created-IsSynced :
    (r : ℕ) (new : Role) (s : RoleStore) (a : List (AuditLogMessage × Option ℕ × ℕ))
    → IsSynced s
    → get s.roles r ≡ none
    → is_distinct new.permissions ≡ true
    → IsSynced (record s { roles = put s.roles r new; queue = []; audit = a })
created-IsSynced r new s a y fresh d = record {
  rows = λ u p r'. elim (Bool-cases (exists (is_user_role u r') s.user_roles)) [
    | inl has ↦
        let (role, known) = y.role_exists u r' has in
        elim (Bool-cases (r == r')) [
          | inl same ↦
              absurd (ground (arith, known, fresh, ap (get s.roles) (same_number r r' same)))
          | inr other ↦ ground (arith, y.rows u p r', gives-put r r' p new s.roles)
        ]
    | inr lacks ↦ ground (arith, y.rows u p r')
  ];
  unique = y.unique;
  role_permissions = λ r' role' h. put-is_distinct r r' new role' s y d h;
  role_exists = λ u r' e. put-role_exists u r r' new s y e;
  user_exists = y.user_exists;
}

gives-remove :
    (r r' p : ℕ) (roles : Dict Role)
    → gives r' p (remove roles r) ≡ (not (r == r') && gives r' p roles)
unfolding gives
gives-remove r r' p roles = rw (gives, get-remove) (ground arith)

-- a role, with the rows that refer to it
pub dropped-IsSynced :
    (r : ℕ) (s : RoleStore) (a : List (AuditLogMessage × Option ℕ × ℕ))
    → IsSynced s
    → IsSynced (record s {
      roles = remove s.roles r;
      user_roles = delete (λ x. x.role_id == r) s.user_roles;
      user_permissions = delete (λ x. is_from r x.from_role_id) s.user_permissions;
      queue = [];
      audit = a;
    })
dropped-IsSynced r s a y = record {
  rows = λ u p r'. ground (
    arith,
    y.rows u p r',
    exists-delete_from_role u p r' r s.user_permissions,
    exists-delete_role u r' r s.user_roles,
    gives-remove r r' p s.roles,
  );
  unique = is_distinct_rows-delete (λ x. x.role_id == r) s.user_roles y.unique;
  role_permissions =
      λ r' role h. y.role_permissions r' role (ground (arith, get-remove s.roles r r'));
  role_exists = λ u r' e.
      let (role, known) =
        y.role_exists u r' (ground (arith, exists-delete_role u r' r s.user_roles)) in
      (role, ground (arith, exists-delete_role u r' r s.user_roles, get-remove s.roles r r'));
  user_exists =
      λ u r' e. y.user_exists u r' (ground (arith, exists-delete_role u r' r s.user_roles));
}
