-- ===== src/Users/Registered.antt =====
-- A new account, from the valid password to its default roles: create and on_after_register of
-- fief/services/user_manager.py.
use fief.Roles.Defaults.{add_default_roles-Added}
use fief.Users.Forgotten.{validate_password-users}
use fief.Users.Passwords.{validate_password}
use fief.Roles.Sync.{IsSynced}
use fief.Roles.{RoleStore, is_distinct, default_roles, is_user_role, mem}
use fief.Users.Create.{insert_user, create_values, create, after_register, known_user}
use fief.BreachedPasswords.{Corpus}
use fief.Models.{
  User, UserField, World, on_after_register, audit_logger, send_task, user_registered,
}
use fief.Users.{
  AccountLibrary, only_user, is_address, user_does_not_exist, AccountSettings, UserCreate, is_clash,
  not_taken, commit_user, get_by_email, UserError,
}
use fief.Prelude.{
  ℕ, String, Option, ◌≡◌, some, true, false, ok, err, refl, arith, get, none, put, List, ◌∷◌, [],
  exists, select, str_eq, ap, eq_iff, exists-append, ◌==◌, ◌++◌, select-put_new, sym, ◌∙◌,
  exists-append_new, ==_refl,
}

module _ (lib : AccountLibrary) where
  is_clash-free :
      (user : User) (l : List (ℕ × User))
      → select (is_address lib user.email user.tenant_id) l ≡ []
      → exists (is_clash user) l ≡ false
  unfolding select exists
  is_clash-free user [] h = refl
  is_clash-free user ((k, other) ∷ l) h =
      let same = λ (e : str_eq other.email user.email ≡ true).
        ap lib.lower ((eq_iff other.email user.email).0 e) in
      ground
        (arith, is_clash-free user l, same, eq_iff (lib.lower other.email) (lib.lower user.email))

  no_address :
      (email : String) (tenant : ℕ) (l : List (ℕ × User))
      → only_user l ≡ err user_does_not_exist
      → l ≡ []
  unfolding only_user
  no_address email tenant [] h = refl
  no_address email tenant ((k, user) ∷ []) h = cc
  no_address email tenant (e ∷ f ∷ l) h = cc

  module _ {Store : Type 0} (corpus : Corpus Store) (settings : AccountSettings) where
    -- the row of a new account
    abbrev pub new_user : UserCreate → ℕ → ℕ → String → User
    new_user user_create tenant id salt = record {
      id = id;
      tenant_id = tenant;
      email = user_create.email;
      email_verified = user_create.email_verified;
      hashed_password = lib.hash salt user_create.password;
      is_active = true;
      mfa_enabled = false;
    }

    abbrev pub with_account : UserCreate → ℕ → ℕ → String → List UserField → World → World
    with_account user_create tenant id salt user_fields w = record w {
      users = put w.users id (new_user user_create tenant id salt);
      user_field_values = create_values id user_create.fields user_fields w.user_field_values;
    }

    insert_user_lem :
        (user_create : UserCreate) (tenant id : ℕ) (salt : String) (user_fields : List UserField)
        (w : World)
        → get_by_email lib user_create.email tenant w ≡ err user_does_not_exist
        → insert_user lib corpus settings user_create tenant id salt user_fields w
          ≡ ok (
            new_user user_create tenant id salt,
            with_account user_create tenant id salt user_fields w,
          )
    unfolding insert_user not_taken commit_user get_by_email
    insert_user_lem user_create tenant id salt user_fields w free =
        let empty =
          no_address user_create.email tenant
            (select (is_address lib user_create.email tenant) w.users.entries) free in
        let unique = is_clash-free (new_user user_create tenant id salt) w.users.entries empty in
        rw (free, unique) refl

    known_user-IsSynced :
        (id : ℕ) (roles : RoleStore)
        → IsSynced roles
        → IsSynced (known_user lib corpus settings id roles)
    known_user-IsSynced id roles y = record {
      rows = y.rows;
      unique = y.unique;
      role_permissions = y.role_permissions;
      role_exists = y.role_exists;
      user_exists = λ u r e.
          ground (arith, y.user_exists u r, exists-append (λ q. q == u) roles.users (id ∷ []));
    }

    same_lookup :
        (email : String) (tenant : ℕ) (w w1 : World)
        → w1.users ≡ w.users
        → get_by_email lib email tenant w ≡ err user_does_not_exist
        → get_by_email lib email tenant w1 ≡ err user_does_not_exist
    unfolding get_by_email
    same_lookup email tenant w w1 users free = rw users free

    found_again :
        (user_create : UserCreate) (tenant id : ℕ) (salt : String) (w w' : World)
        → get_by_email lib user_create.email tenant w ≡ err user_does_not_exist
        → get w.users id ≡ none
        → w'.users ≡ put w.users id (new_user user_create tenant id salt)
        → get_by_email lib user_create.email tenant w' ≡ ok (new_user user_create tenant id salt)
    unfolding get_by_email only_user
    found_again user_create tenant id salt w w' free fresh stored =
        let test = is_address lib user_create.email tenant in
        let user = new_user user_create tenant id salt in
        let empty = no_address user_create.email tenant (select test w.users.entries) free in
        let chosen : test (id, user) ≡ true =
          ground (arith, eq_iff (lib.lower user_create.email) (lib.lower user_create.email)) in
        rw (stored, select-put_new test w.users id user fresh empty chosen) refl

    -- Where the password passes `validate_password`, no user of the tenant has the address up to case,
    -- the id is new, the rows of roles and permissions are in step and no default role is listed twice,
    -- `create` succeeds: looking up the address gives the new user, whose hash is the one of the
    -- password, the user has exactly the default roles, the rows of permissions are still in step, and
    -- the task on_after_register is sent last.
    pub create-registered :
        (user_create : UserCreate) (tenant id : ℕ) (salt : String) (brand : Option String)
        (user_fields : List UserField) (s s' : Store) (w w1 : World) (roles : RoleStore)
        → validate_password lib corpus settings user_create.password none none s w ≡ (none, s', w1)
        → get_by_email lib user_create.email tenant w ≡ err user_does_not_exist
        → get w.users id ≡ none
        → IsSynced roles
        → is_distinct (default_roles roles.roles.entries) ≡ true
        → ((r : ℕ) → exists (is_user_role id r) roles.user_roles ≡ false)
        → (let user = new_user user_create tenant id salt in
            (w' : World) × (roles' : RoleStore) × (create lib corpus settings user_create tenant id
                salt brand user_fields s w roles
              ≡ (ok user, s', w', roles'))
            × (get_by_email lib user_create.email tenant w' ≡ ok user)
            × IsSynced roles'
            × ((r : ℕ)
                → exists (is_user_role id r) roles'.user_roles
                  ≡ mem r (default_roles roles.roles.entries))
            × (w'.tasks ≡ w1.tasks ++ on_after_register id brand ∷ []))
    unfolding create after_register audit_logger send_task
    create-registered user_create tenant id salt brand user_fields s s' w w1 roles valid free fresh
          synced distinct none_yet =
        let users : w1.users ≡ w.users =
          ap (λ (x : Option UserError × Store × World). x.2.users) (sym valid)
          ∙ validate_password-users lib corpus settings user_create.password none none s w in
        let free' : get_by_email lib user_create.email tenant w1 ≡ err user_does_not_exist =
          same_lookup user_create.email tenant w w1 users free in
        let fresh' : get w1.users id ≡ none = rw users fresh in
        let user = new_user user_create tenant id salt in
        let (roles', added, (synced', same, held)) =
          add_default_roles-Added id (known_user lib corpus settings id roles)
            (known_user-IsSynced id roles synced)
            (ground (arith, exists-append_new (λ q. q == id) roles.users id, ==_refl id)) distinct
            none_yet in
        let w' = send_task (on_after_register id brand) (
          audit_logger user_registered (some id) []
            (with_account user_create tenant id salt user_fields w1)) in
        (
          w',
          roles',
          rw (valid, insert_user_lem user_create tenant id salt user_fields w1 free', added) refl,
          found_again user_create tenant id salt w1 w' free' fresh' refl,
          synced',
          λ r. held r ∙ ground (arith, none_yet r),
          refl,
        )
