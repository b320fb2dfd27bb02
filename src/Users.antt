-- ===== src/Users.antt =====
-- Accounts: fief/services/user_manager.py with fief/services/password.py and the repositories of users
-- and e-mail verifications. `AccountLibrary` holds what the code calls: methods of strings, zxcvbn,
-- the password helper, whose salt is an argument, HMAC, signed tokens, UUIDs and furl. An error leaves
-- the database as it was, and the audit log with the lines written before; only request_verify_email
-- has then committed a deletion. The webhooks are left out.
mod Tests
pub mod Passwords
pub mod Create
pub mod Reset
pub mod SingleUse
pub mod Registered
pub mod Emails
pub mod Routes
pub mod Enumeration
pub mod Forgotten
use fief.Roles.{RoleError}
use fief.BreachedPasswords.{BreachSettings, Corpus, is_breached}
use fief.Prelude.{
  String, ℕ, Bool, Option, List, Result, ok, err, none, some, true, false, guard, require, get, put,
  not, exists, select, ◌&&◌, ◌==◌, str_eq, ltb, if◌then◌else◌, [], ◌∷◌, ◌++◌, ◌>>=◌, ◌>>◌, map,
  delete, ◌+◌, update, select_one,
}
use fief.Models.{
  User, World, Tenant, Time, EmailVerification, UserField, UserFieldValue, is_expired, audit_logger,
  user_password_reset, user_password_breached_rejected, AuditLogMessage, user_updated, send_task,
  seconds, null, on_after_forgot_password, on_email_verification_requested, text,
  user_forgot_password_requested, user_email_verify_requested,
}

-- what decoding a reset token gives: one of the errors that the caller catches, another one, or claims
pub data Decoded : Type 0 where
  rejected failed : Decoded
  claims : Option String → Option String → Decoded

pub record AccountLibrary : Type 0 where
  pub lower : String → String
  pub len : String → ℕ
  pub first : ℕ → String → String
  pub zxcvbn : String → ℕ
  pub hash : String → String → String
  pub verify_and_update : String → String → Bool × Option String
  pub get_verify_code_hash : String → String
  pub sign : ℕ → String → String → String
  pub decode : ℕ → String → Decoded
  pub uuid : String → Option ℕ
  pub str : ℕ → String
  pub reset_url : ℕ → String → String

pub data PasswordMessage : Type 0 where
  at_least at_most : ℕ → PasswordMessage
  not_strong_enough : PasswordMessage

pub data UserError : Type 0 where
  user_does_not_exist user_already_exists user_inactive : UserError
  invalid_email_verification_code invalid_reset_password_token : UserError
  invalid_password : List PasswordMessage → UserError
  breached_password : UserError
  multiple_results_found jwt_error : UserError
  integrity_error : UserError
  role_error : RoleError → UserError

pub record AccountSettings : Type 0 where
  pub password_min_length : ℕ
  pub password_min_score : ℕ
  pub email_verification_lifetime_seconds : ℕ
  pub breaches : BreachSettings

-- `fields.get_value`: nothing where it raises AttributeError
abbrev pub UserFields : Type 0
UserFields = String → Option (Option String)

pub record UserCreate : Type 0 where
  pub email : String
  pub email_verified : Bool
  pub password : String
  pub fields : UserFields

-- the fields of an update that are set; of the flags also those that are set to null
pub record UserChanges : Type 0 where
  pub email : Option String
  pub password : Option String
  pub email_verified : Option (Option Bool)
  pub is_active : Option (Option Bool)

-- scalar_one_or_none, with the error for none
unfoldable pub only_user : List (ℕ × User) → Result UserError User
only_user [] = err user_does_not_exist
only_user ((k, user) ∷ []) = ok user
only_user (e ∷ f ∷ l) = err multiple_results_found

-- the flow of `try: get_by_email; raise UserAlreadyExistsError; except UserDoesNotExistError: pass`
unfoldable pub not_taken : Result UserError User → Result UserError (Unit {0})
not_taken (ok user) = err user_already_exists
not_taken (err user_does_not_exist) = ok tt
not_taken (err e) = err e

-- the unique constraint on the address and the tenant: another row with both
abbrev pub is_clash : User → (ℕ × User) → Bool
is_clash user (k, other) =
    not (k == user.id) && str_eq other.email user.email && (other.tenant_id == user.tenant_id)

-- UserRepository.create and update
unfoldable pub commit_user : User → World → Result UserError World
unfolding exists
commit_user user w =
    if exists (is_clash user) w.users.entries
    then err integrity_error
    else ok (record w { users = put w.users user.id user })

-- get
unfoldable pub get_account : ℕ → ℕ → World → Result UserError User
get_account id tenant w = do
  user ← require (get w.users id) user_does_not_exist
  guard (user.tenant_id == tenant) user_does_not_exist
  ok user

abbrev pub is_by_user : ℕ → EmailVerification → Bool
is_by_user user_id v = v.user_id == user_id

abbrev pub is_code : String → EmailVerification → Bool
is_code code v = str_eq v.code code

-- EmailVerificationRepository.delete_by_user
unfoldable pub delete_by_user : ℕ → World → World
delete_by_user user_id w = record w {
  email_verifications = delete (is_by_user user_id) w.email_verifications;
}

-- the end of both verifications
unfoldable pub confirm_email : User → EmailVerification → World → Result UserError (User × World)
unfolding commit_user delete_by_user
confirm_email user v w = do
  let user' = record user { email = v.email; email_verified = true }
  w' ← commit_user user' w
  ok (user', delete_by_user user.id w')

-- get_by_code_and_user
unfoldable pub get_by_code_and_user : String → ℕ → World → Option EmailVerification
unfolding select_one
get_by_code_and_user code user_id w =
    select_one (λ v. is_code code v && is_by_user user_id v) w.email_verifications

-- get_by_code
unfoldable pub get_by_code : String → World → Option EmailVerification
unfolding select_one
get_by_code code w = select_one (is_code code) w.email_verifications

abbrev pub in_tenant : Option ℕ → User → Bool
in_tenant none user = true
in_tenant (some tenant) user = user.tenant_id == tenant

module _ (lib : AccountLibrary) where
  abbrev pub is_address : String → ℕ → (ℕ × User) → Bool
  is_address email tenant (k, user) =
      str_eq (lib.lower user.email) (lib.lower email) && (user.tenant_id == tenant)

  -- get_by_email
  unfoldable pub get_by_email : String → ℕ → World → Result UserError User
  unfolding only_user select
  get_by_email email tenant w = only_user (select (is_address email tenant) w.users.entries)

  -- the checks of request_verify_email, before it writes
  unfoldable pub may_request : User → String → World → Result UserError (Unit {0})
  unfolding get_by_email not_taken
  may_request user email w = do
    guard user.is_active user_inactive
    if str_eq user.email email then ok tt else not_taken (get_by_email email user.tenant_id w)

  abbrev pub verification_row :
      AccountSettings → Time → User → String → String → ℕ → EmailVerification
  verification_row settings now user email code id = record {
    id = id;
    code = lib.get_verify_code_hash code;
    email = email;
    user_id = user.id;
    expires_at = now + seconds settings.email_verification_lifetime_seconds;
  }

  -- the old codes of the user are deleted, and this is committed before the new row is inserted
  unfoldable pub store_code :
      AccountSettings
      → Time
      → User
      → String
      → String
      → ℕ
      → Option String
      → Result UserError (Unit {0})
      → World
      → Result UserError (Unit {0}) × World
  unfolding delete_by_user exists audit_logger send_task
  store_code settings now user email code id brand (err e) w = (err e, w)
  store_code settings now user email code id brand (ok t) w =
      let kept = delete_by_user user.id w in
      let row = verification_row settings now user email code id in
      if exists (is_code row.code) kept.email_verifications then (err integrity_error, kept) else (
        ok tt,
        send_task (on_email_verification_requested id code brand) (
            audit_logger user_email_verify_requested (some user.id) (("email", text email) ∷ [])
              (record kept { email_verifications = kept.email_verifications ++ row ∷ [] })),
      )

  -- request_verify_email; `code` and `id` are fresh
  unfoldable pub request_verify_email :
      AccountSettings
      → Time
      → User
      → String
      → String
      → ℕ
      → Option String
      → World
      → Result UserError (Unit {0}) × World
  unfolding may_request store_code
  request_verify_email settings now user email code id brand w =
      store_code settings now user email code id brand (may_request user email w) w

  -- verify_email
  unfoldable pub verify_email : User → String → World → Result UserError (User × World)
  unfolding get_by_code_and_user confirm_email
  verify_email user code w = do
    guard user.is_active user_inactive
    v ←
        require (get_by_code_and_user (lib.get_verify_code_hash code) user.id w)
          invalid_email_verification_code
    confirm_email user v w

  -- verify_email_by_code; the user of the row is there by the foreign key
  unfoldable pub verify_email_by_code :
      Time → String → Option ℕ → World → Result UserError (User × World)
  unfolding get_by_code confirm_email
  verify_email_by_code now code tenant_id w = do
    v ← require (get_by_code (lib.get_verify_code_hash code) w) invalid_email_verification_code
    guard (not (is_expired now v.expires_at)) invalid_email_verification_code
    user ← require (get w.users v.user_id) user_does_not_exist
    guard (in_tenant tenant_id user) invalid_email_verification_code
    confirm_email user v w

  -- forgot_password; the fingerprint is hashed with `salt`
  unfoldable pub forgot_password : User → String → Option String → World → Result UserError World
  unfolding audit_logger send_task
  forgot_password user salt brand w = do
    guard user.is_active user_inactive
    let token = lib.sign user.tenant_id (lib.str user.id) (lib.hash salt user.hashed_password)
    ok (
        send_task (on_after_forgot_password user.id (lib.reset_url user.tenant_id token) brand)
          (audit_logger user_forgot_password_requested (some user.id) [] w))

  -- the claims `sub` and `password_fgpt`
  unfoldable pub read_claims : Decoded → Result UserError (String × String)
  read_claims rejected = err invalid_reset_password_token
  read_claims failed = err jwt_error
  read_claims (claims none fgpt) = err invalid_reset_password_token
  read_claims (claims (some sub) none) = err invalid_reset_password_token
  read_claims (claims (some sub) (some fgpt)) = ok (sub, fgpt)

  -- the user whose password a token resets
  unfoldable pub reset_target : String → ℕ → World → Result UserError User
  unfolding read_claims get_account
  reset_target token tenant w = do
    read ← read_claims (lib.decode tenant token)
    id ← require (lib.uuid read.0) invalid_reset_password_token
    user ← get_account id tenant w
    guard (lib.verify_and_update user.hashed_password read.1).0 invalid_reset_password_token
    guard user.is_active user_inactive
    ok user

  -- the address that set_user_attributes sets
  unfoldable pub set_email : Option String → User → World → Result UserError User
  unfolding get_by_email not_taken
  set_email none user w = ok user
  set_email (some email) user w =
      if str_eq user.email email
      then ok user
      else (not_taken (get_by_email email user.tenant_id w) >> ok (record user { email = email }))
