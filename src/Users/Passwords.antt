-- ===== src/Users/Passwords.antt =====
-- Passwords of accounts: validate_password, set_user_attributes, reset_password and change_password of
-- fief/services/user_manager.py with fief/services/password.py. The salt of a new hash is an argument.
use fief.Models.{
  audit_logger, AuditLogMessage, Tenant, World, User, user_updated, user_password_breached_rejected,
  user_password_reset, null, text,
}
use fief.BreachedPasswords.{Corpus, is_breached}
use fief.Users.{
  AccountLibrary, PasswordMessage, AccountSettings, reset_target, set_email, commit_user,
  UserChanges, UserError, breached_password, at_least, not_strong_enough, invalid_password, at_most,
}
use fief.Prelude.{
  ℕ, Option, List, String, Bool, some, Result, ◌++◌, if◌then◌else◌, none, ltb, [], ◌∷◌, ok, err,
  false, true,
}

abbrev pub max_password_length : ℕ
max_password_length = 128

-- the flags of an update
abbrev pub set_flag : Option (Option Bool) → Bool → Bool
set_flag (some (some b)) old = b
set_flag (some none) old = old
set_flag none old = old

module _ (lib : AccountLibrary) where
  abbrev length_messages : ℕ → ℕ → List PasswordMessage
  length_messages n min_length =
      if ltb n min_length
      then at_least min_length ∷ []
      else if ltb max_password_length n
      then at_most max_password_length ∷ []
      else []

  -- PasswordValidation.validate: the messages, none for a valid password
  unfoldable pub validate : String → ℕ → ℕ → List PasswordMessage
  validate password min_length min_score =
      length_messages (lib.len password) min_length
      ++ (if ltb (lib.zxcvbn (lib.first max_password_length password)) min_score
          then not_strong_enough ∷ []
          else [])

module _ (lib : AccountLibrary) {Store : Type 0} (corpus : Corpus Store)
    (settings : AccountSettings) where
  abbrev pub breach_answer :
      Option ℕ → Option Tenant → Bool × Store × World → Option UserError × Store × World
  breach_answer subject tenant (false, s, w) = (none, s, w)
  breach_answer subject tenant (true, s, w) = (
    some breached_password,
    s,
    audit_logger user_password_breached_rejected subject
        (("tenant_id", elim tenant [ none ↦ null | some t ↦ text (lib.str t.id) ]) ∷ []) w,
  )

  abbrev pub messages_answer :
      List PasswordMessage
      → Option ℕ
      → String
      → Option Tenant
      → Store
      → World
      → Option UserError × Store × World
  messages_answer [] subject password tenant s w =
      breach_answer subject tenant (is_breached corpus settings.breaches password tenant s w)
  messages_answer (m ∷ l) subject password tenant s w = (some (invalid_password (m ∷ l)), s, w)

  -- validate_password: the error that it raises
  unfoldable pub validate_password :
      String → Option ℕ → Option Tenant → Store → World → Option UserError × Store × World
  unfolding validate is_breached audit_logger
  validate_password password subject tenant s w =
      messages_answer
        (validate lib password settings.password_min_length settings.password_min_score) subject
        password tenant s w

  abbrev pub with_flags : UserChanges → User → User
  with_flags c user = record user {
    email_verified = set_flag c.email_verified user.email_verified;
    is_active = set_flag c.is_active user.is_active;
  }

  unfoldable pub set_password :
      String
      → String
      → UserChanges
      → User
      → Option UserError × Store × World
      → Result UserError User × Store × World
  set_password salt password c user (some e, s, w) = (err e, s, w)
  set_password salt password c user (none, s, w) =
      (ok (with_flags c (record user { hashed_password = lib.hash salt password })), s, w)

  abbrev new_password :
      Option String
      → String
      → UserChanges
      → Option Tenant
      → User
      → Store
      → World
      → Result UserError User × Store × World
  new_password none salt c tenant user s w = (ok (with_flags c user), s, w)
  new_password (some password) salt c tenant user s w =
      set_password salt password c user (validate_password password (some user.id) tenant s w)

  unfoldable pub set_attributes :
      Result UserError User
      → UserChanges
      → Option Tenant
      → String
      → Store
      → World
      → Result UserError User × Store × World
  unfolding validate_password set_password
  set_attributes (err e) c tenant salt s w = (err e, s, w)
  set_attributes (ok user) c tenant salt s w = new_password c.password salt c tenant user s w

  -- set_user_attributes
  unfoldable pub set_user_attributes :
      User
      → UserChanges
      → Option Tenant
      → String
      → Store
      → World
      → Result UserError User × Store × World
  unfolding set_email set_attributes
  set_user_attributes user c tenant salt s w =
      set_attributes (set_email lib c.email user w) c tenant salt s w

  -- the row is stored, and `after` follows
  unfoldable pub store_user :
      (User → World → World)
      → Result UserError User × Store × World
      → Result UserError User × Store × World
  unfolding commit_user
  store_user after (err e, s, w) = (err e, s, w)
  store_user after (ok user, s, w) = elim (commit_user user w) [
    | ok w' ↦ (ok user, s, after user w')
    | err e ↦ (err e, s, w)
  ]

  abbrev pub only_password : String → UserChanges
  only_password password = record {
    email = none;
    password = some password;
    email_verified = none;
    is_active = none;
  }

  -- on_after_reset_password, on_after_update
  abbrev pub log_user : AuditLogMessage → User → World → World
  log_user m user w = audit_logger m (some user.id) [] w

  unfoldable pub reset_user :
      Result UserError User
      → String
      → Tenant
      → String
      → Store
      → World
      → Result UserError User × Store × World
  unfolding set_user_attributes store_user audit_logger
  reset_user (err e) password tenant salt s w = (err e, s, w)
  reset_user (ok user) password tenant salt s w =
      store_user (log_user user_password_reset)
        (set_user_attributes user (only_password password) (some tenant) salt s w)

  -- reset_password
  unfoldable pub reset_password :
      String → String → Tenant → String → Store → World → Result UserError User × Store × World
  unfolding reset_target reset_user
  reset_password token password tenant salt s w =
      reset_user (reset_target lib token tenant.id w) password tenant salt s w

  -- change_password: it gives set_user_attributes no tenant
  unfoldable pub change_password :
      String → User → String → Store → World → Result UserError User × Store × World
  unfolding set_user_attributes store_user audit_logger
  change_password password user salt s w =
      store_user (log_user user_updated)
        (set_user_attributes user (only_password password) none salt s w)
