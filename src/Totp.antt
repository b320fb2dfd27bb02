-- ===== src/Totp.antt =====
-- TOTP enrolment, verification and teardown: fief/services/security/totp.py, with the repository
-- fief/repositories/user_totp_secret.py and fief/services/security/mfa_state.py. `pyotp` and the
-- encryption of fief/services/security/encryption.py (Fernet) are the operations of `Otp`.
pub mod Replay
pub mod Enrollment
pub mod Flag
pub mod Reuse
mod Tests
use fief.Models.{
  Time, UserTotpSecret, User, World, audit_logger, send_task, user_mfa_state_inconsistent,
  user_mfa_enrolled, user_mfa_disabled, text, on_mfa_state_changed,
}
use fief.Prelude.{
  String, Bool, ℕ, not, ◌/◌, Option, none, is_some, put, remove, some, get, false, if◌then◌else◌,
  count, true, delete, leb, ◌||◌, ◌==◌, ltb, [], ◌∷◌, ◌&&◌,
}

-- What the service uses of `pyotp`, Fernet and the QR renderer. `verify secret code now` is
-- `pyotp.TOTP(secret).verify(code, valid_window=1)` at the time `now`; `decrypt` gives `none` where
-- `MfaSecretDecryptionError` is raised.
pub record Otp : Type 0 where
  pub encrypt : String → String
  pub decrypt : String → Option String
  pub verify : String → String → Time → Bool
  pub provisioning_uri : String → String → String → String
  pub qr_data_uri : String → String

pub data VerifyResult : Type 0 where
  success invalid replay inconsistent_state : VerifyResult

pub record EnrollmentBundle : Type 0 where
  pub secret_b32 : String
  pub otpauth_uri : String
  pub qr_png_data_uri : String

pub data BeginResult : Type 0 where
  enrolling : EnrollmentBundle → BeginResult
  already_enrolled : BeginResult

-- UserTotpSecretRepository.get_by_user_id
abbrev pub get_secret : ℕ → World → Option UserTotpSecret
get_secret user_id w = get w.totp_secrets user_id

abbrev pub if_confirmed : UserTotpSecret → Option UserTotpSecret
if_confirmed row = if is_some row.confirmed_at then some row else none

-- UserTotpSecretRepository.get_confirmed_by_user_id
unfoldable pub get_confirmed : ℕ → World → Option UserTotpSecret
get_confirmed user_id w = elim (get_secret user_id w) [ none ↦ none | some row ↦ if_confirmed row ]

-- UserWebAuthnCredentialRepository.count_for_user
unfoldable pub count_passkeys : ℕ → World → ℕ
count_passkeys user_id w = count (λ c. c.user_id == user_id) w.passkeys

-- what `recompute_mfa_enabled` derives from the factors
unfoldable pub has_factor : ℕ → World → Bool
has_factor user_id w = is_some (get_confirmed user_id w) || ltb 0 (count_passkeys user_id w)

-- user.mfa_enabled = b; user_repo.update(user)
abbrev pub set_mfa_enabled : User → Bool → World → World
set_mfa_enabled user b w = record w {
  users = put w.users user.id (record user { mfa_enabled = b });
}

abbrev pub eqb : Bool → Bool → Bool
eqb true b = b
eqb false b = not b

unfoldable pub recompute_mfa_enabled : User → World → World
unfolding has_factor
recompute_mfa_enabled user w =
    let desired = has_factor user.id w in
    if eqb user.mfa_enabled desired then w else set_mfa_enabled user desired w

-- the notification, if there is a `send_task`: its argument is the brand
abbrev pub notify_state : User → String → Option (Option String) → World → World
notify_state user state none w = w
notify_state user state (some brand_id) w =
    send_task (on_mfa_state_changed user.id state brand_id) w

-- the step of the row was used up: proposed_step <= row.last_used_step
abbrev pub used_up : ℕ → Option ℕ → Bool
used_up proposed none = false
used_up proposed (some last) = leb proposed last

-- _current_step: int(time.time() / 30)
unfoldable pub current_step : Time → ℕ
current_step now = now / 30000000

abbrev inconsistent : User → String → World → VerifyResult × World
inconsistent user reason w = (
  inconsistent_state,
  audit_logger user_mfa_state_inconsistent (some user.id) (("reason", text reason) ∷ []) w,
)

module _ (otp : Otp) where
  new_secret : String → UserTotpSecret
  new_secret secret_b32 = record {
    secret_encrypted = otp.encrypt secret_b32;
    confirmed_at = none;
    last_used_step = none;
  }

  bundle : User → String → String → EnrollmentBundle
  bundle user label secret_b32 =
      let uri = otp.provisioning_uri secret_b32 user.email label in
      record { secret_b32 = secret_b32; otpauth_uri = uri; qr_png_data_uri = otp.qr_data_uri uri }

  start : User → String → String → World → BeginResult × World
  unfolding new_secret bundle
  start user label secret_b32 w = (
    enrolling (bundle user label secret_b32),
    record w { totp_secrets = put w.totp_secrets user.id (new_secret secret_b32) },
  )

  -- `secret_b32` is what `pyotp.random_base32()` returns
  unfoldable pub begin_enrollment : User → String → String → World → BeginResult × World
  unfolding start
  begin_enrollment user label secret_b32 w = elim (get_secret user.id w) [
    | none ↦ start user label secret_b32 w
    | some existing ↦
        if is_some existing.confirmed_at
        then (already_enrolled, w)
        else start user label secret_b32 (record w { totp_secrets = remove w.totp_secrets user.id })
  ]

  abbrev confirm : Time → User → UserTotpSecret → Option (Option String) → World → World
  confirm now user row notify w = notify_state user "enabled" notify (
      audit_logger user_mfa_enrolled (some user.id) [] (
        set_mfa_enabled user true (record w {
          totp_secrets =
              put w.totp_secrets user.id
                (record row { confirmed_at = some now; last_used_step = some (current_step now) });
        })))

  confirm_row :
      Time → User → String → UserTotpSecret → Option (Option String) → World → Bool × World
  confirm_row now user code row notify w = elim (otp.decrypt row.secret_encrypted) [
    | none ↦ (false, w)
    | some secret_b32 ↦
        if otp.verify secret_b32 code now then (true, confirm now user row notify w) else (false, w)
  ]

  -- `notify` is the brand of the email, or `none` where `send_task` is None
  unfoldable pub confirm_enrollment :
      Time → User → String → Option (Option String) → World → Bool × World
  unfolding confirm_row current_step
  confirm_enrollment now user code notify w = elim (get_secret user.id w) [
    | none ↦ (false, w)
    | some row ↦
        if is_some row.confirmed_at then (false, w) else confirm_row now user code row notify w
  ]

  verify_row : Time → User → String → UserTotpSecret → String → World → VerifyResult × World
  verify_row now user code row secret_b32 w =
      let proposed_step = current_step now in
      if used_up proposed_step row.last_used_step
      then (replay, w)
      else if otp.verify secret_b32 code now
      then (
        success,
        record w {
          totp_secrets =
              put w.totp_secrets user.id (record row { last_used_step = some proposed_step });
        },
      )
      else (invalid, w)

  unfoldable pub verify : Time → User → String → World → VerifyResult × World
  unfolding verify_row
  verify now user code w = elim (get_confirmed user.id w) [
    | none ↦
        if user.mfa_enabled then inconsistent user "missing_confirmed_secret" w else (invalid, w)
    | some row ↦ elim (otp.decrypt row.secret_encrypted) [
      | none ↦ inconsistent user "decryption_failed" w
      | some secret_b32 ↦ verify_row now user code row secret_b32 w
    ]
  ]

-- `user.mfa_enabled` as it stands in the database, for the object that the session holds
abbrev pub delete_factors : ℕ → World → World
delete_factors user_id w = record w {
  totp_secrets = remove w.totp_secrets user_id;
  recovery_codes = delete (λ c. c.user_id == user_id) w.recovery_codes;
}

-- TotpService.disable; `send` is `send_task` with the brand, or `none`
unfoldable pub disable : User → Option (Option String) → Bool → World → World
unfolding recompute_mfa_enabled
disable user send notify w =
    let w' =
      audit_logger user_mfa_disabled (some user.id) []
        (recompute_mfa_enabled user (delete_factors user.id w)) in
    if notify && user.mfa_enabled then notify_state user "disabled" send w' else w'
