-- ===== src/Users/Create.antt =====
-- New and changed accounts: create, on_after_register and update of fief/services/user_manager.py, with
-- UserRolesService.add_default_roles. The rows of roles that were written before an error of
-- add_default_roles are not kept.
use fief.Users.Passwords.{validate_password, set_user_attributes, store_user, log_user}
use fief.Roles.{RoleStore, RoleError, add_default_roles}
use fief.BreachedPasswords.{Corpus}
use fief.Users.{
  UserFields, AccountLibrary, UserChanges, AccountSettings, get_by_email, UserCreate, not_taken,
  UserError, commit_user, integrity_error, role_error,
}
use fief.Models.{
  UserField, UserFieldValue, User, World, send_task, audit_logger, Tenant, user_registered,
  on_after_register, user_updated,
}
use fief.Prelude.{
  ℕ, exists, Option, Bool, String, List, some, ◌||◌, [], ◌∷◌, ◌==◌, true, Result, ◌&&◌, ◌++◌,
  if◌then◌else◌, none, update, false, err, ok, ◌>>◌, ◌>>=◌,
}

abbrev pub is_value : ℕ → UserField → UserFieldValue → Bool
is_value user_id field v = (v.user_id == user_id) && (v.user_field_id == field.id)

abbrev pub new_value : ℕ → UserField → Option String → List UserFieldValue
new_value user_id field none = []
new_value user_id field (some value) =
    record { user_id = user_id; user_field_id = field.id; value = value } ∷ []

-- the value that a missing row gets
unfoldable pub value_or_default : UserField → Option (Option String) → Option String
value_or_default field none = field.default
value_or_default field (some value) = value

-- the loop of `create` over the user fields
unfoldable pub create_values :
    ℕ → UserFields → List UserField → List UserFieldValue → List UserFieldValue
unfolding value_or_default
create_values user_id fields [] rows = rows
create_values user_id fields (field ∷ l) rows =
    create_values user_id fields l
      (rows ++ new_value user_id field (value_or_default field (fields field.slug)))

abbrev pub given_value : Option (Option String) → Option String
given_value none = none
given_value (some value) = value

abbrev pub set_value : Option String → UserFieldValue → UserFieldValue
set_value none v = v
set_value (some value) v = record v { value = value }

-- the loop of `update` over the user fields: an existing value changes only if a value is given
unfoldable pub update_values :
    ℕ → UserFields → List UserField → List UserFieldValue → List UserFieldValue
unfolding value_or_default exists
update_values user_id fields [] rows = rows
update_values user_id fields (field ∷ l) rows = update_values user_id fields l (
    if exists (is_value user_id field) rows
    then update (is_value user_id field) (set_value (given_value (fields field.slug))) rows
    else rows ++ new_value user_id field (value_or_default field (fields field.slug)))

abbrev pub is_null : Option (Option Bool) → Bool
is_null (some none) = true
is_null (some (some b)) = false
is_null none = false

abbrev pub has_null : UserChanges → Bool
has_null c = is_null c.email_verified || is_null c.is_active

module _ (lib : AccountLibrary) {Store : Type 0} (corpus : Corpus Store)
    (settings : AccountSettings) where
  -- the new row, once the password is valid
  unfoldable pub insert_user :
      UserCreate → ℕ → ℕ → String → List UserField → World → Result UserError (User × World)
  unfolding get_by_email not_taken commit_user create_values
  insert_user user_create tenant id salt user_fields w = do
    not_taken (get_by_email lib user_create.email tenant w)
    let user : User = record {
      id = id;
      tenant_id = tenant;
      email = user_create.email;
      email_verified = user_create.email_verified;
      hashed_password = lib.hash salt user_create.password;
      is_active = true;
      mfa_enabled = false;
    }
    w' ← commit_user user w
    let values = create_values id user_create.fields user_fields w'.user_field_values
    ok (user, record w' { user_field_values = values })

  abbrev pub known_user : ℕ → RoleStore → RoleStore
  known_user id roles = record roles { users = roles.users ++ id ∷ [] }

  abbrev default_roles_added :
      User
      → Option String
      → Store
      → World
      → RoleStore
      → Result RoleError RoleStore
      → Result UserError User × Store × World × RoleStore
  default_roles_added user brand s w roles (ok roles') =
      (ok user, s, send_task (on_after_register user.id brand) w, roles')
  default_roles_added user brand s w roles (err e) = (err (role_error e), s, w, roles)

  -- on_after_register: the default roles are added at once
  unfoldable pub after_register :
      User
      → Option String
      → Store
      → World
      → RoleStore
      → Result UserError User × Store × World × RoleStore
  unfolding send_task audit_logger add_default_roles
  after_register user brand s w roles =
      default_roles_added user brand s (audit_logger user_registered (some user.id) [] w) roles
        (add_default_roles user.id false roles)

  abbrev inserted :
      Option String
      → Store
      → World
      → RoleStore
      → Result UserError (User × World)
      → Result UserError User × Store × World × RoleStore
  inserted brand s w roles (err e) = (err e, s, w, roles)
  inserted brand s w roles (ok (user, w')) =
      after_register user brand s w' (known_user user.id roles)

  abbrev once_valid :
      UserCreate
      → ℕ
      → ℕ
      → String
      → Option String
      → List UserField
      → RoleStore
      → Option UserError × Store × World
      → Result UserError User × Store × World × RoleStore
  once_valid user_create tenant id salt brand user_fields roles (some e, s, w) =
      (err e, s, w, roles)
  once_valid user_create tenant id salt brand user_fields roles (none, s, w) =
      inserted brand s w roles (insert_user user_create tenant id salt user_fields w)

  -- create; validate_password gets no tenant
  unfoldable pub create :
      UserCreate
      → ℕ
      → ℕ
      → String
      → Option String
      → List UserField
      → Store
      → World
      → RoleStore
      → Result UserError User × Store × World × RoleStore
  unfolding validate_password insert_user after_register
  create user_create tenant id salt brand user_fields s w roles =
      once_valid user_create tenant id salt brand user_fields roles
        (validate_password lib corpus settings user_create.password none none s w)

  abbrev with_values : Option UserFields → List UserField → User → World → World
  with_values none user_fields user w = w
  with_values (some fields) user_fields user w = record w {
    user_field_values = update_values user.id fields user_fields w.user_field_values;
  }

  -- the commit fails on a flag that is set to null
  abbrev non_null :
      UserChanges → Result UserError User × Store × World → Result UserError User × Store × World
  non_null c (err e, s, w) = (err e, s, w)
  non_null c (ok user, s, w) = if has_null c then (err integrity_error, s, w) else (ok user, s, w)

  -- update
  unfoldable pub update_user :
      UserChanges
      → Option UserFields
      → User
      → Option Tenant
      → String
      → List UserField
      → Store
      → World
      → Result UserError User × Store × World
  unfolding set_user_attributes store_user audit_logger update_values
  update_user c fields user tenant salt user_fields s w =
      store_user lib corpus settings
        (λ user' w'.
          log_user lib corpus settings user_updated user' (with_values fields user_fields user' w'))
        (non_null c (set_user_attributes lib corpus settings user c tenant salt s w))
