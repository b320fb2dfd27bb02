-- ===== src/Passkeys.antt =====
-- Passkeys as a second factor: fief/services/security/webauthn.py with the repository
-- fief/repositories/user_webauthn_credential.py. `py_webauthn` and `base64` are the parameter
-- `Ceremonies`, Redis is the parameter `KeyValue`; bytes are texts. The options that a ceremony begins
-- with are what the browser gets, with the challenge in it.
pub mod Routes
pub mod Assertion
pub mod Ownership
pub mod Registration
mod Tests
use fief.Totp.{recompute_mfa_enabled}
use fief.Models.{
  Time, User, World, UserWebAuthnCredential, audit_logger, text, number, seconds,
  user_passkey_registered, user_passkey_deleted, user_passkey_verified, user_passkey_verify_failed,
  user_passkey_sign_count_rollback,
}
use fief.Prelude.{
  ℕ, String, Bool, Option, List, none, some, [], ◌∷◌, select, update, Result, delete, select_one,
  if◌then◌else◌, leb, ◌==◌, str_eq, exists, ◌&&◌, err, ok, ltb, true, false, ◌++◌, not,
}

-- `_reg_key` and `_auth_key`
pub data ChallengeKey : Type 0 where
  reg_key auth_key : ℕ → ChallengeKey

-- GET at an instant, SET with a lifetime in seconds at an instant, and DEL
pub record KeyValue (Store : Type 0) : Type 0 where
  pub get_key : ChallengeKey → Time → Store → Option String
  pub set_key : ChallengeKey → String → ℕ → Time → Store → Store
  pub delete_key : ChallengeKey → Store → Store

-- an authenticator's answer: the ids that it names, and the rest
pub record AuthenticatorResponse : Type 0 where
  pub raw_id : Option String
  pub id : Option String
  pub transports : List String
  pub body : String

pub record VerifiedRegistration : Type 0 where
  pub credential_id : String
  pub credential_public_key : String
  pub sign_count : ℕ
  pub aaguid : Option String
  pub multi_device : Bool
  pub credential_backed_up : Bool

-- response, challenge, origin, relying party, and for an assertion the public key and the count
pub record Ceremonies : Type 0 where
  pub b64url_encode : String → String
  pub b64url_decode : String → Option String
  pub hex32 : String → String
  pub verify_registration_response :
      AuthenticatorResponse → String → String → String → Option VerifiedRegistration
  pub verify_authentication_response :
      AuthenticatorResponse → String → String → String → String → ℕ → Option ℕ

-- the errors of the service, and a stored challenge that is not Base64
pub data WebAuthnError : Type 0 where
  challenge_expired credential_not_found invalid_assertion sign_count_rollback : WebAuthnError
  integrity_error value_error : WebAuthnError

abbrev pub challenge_ttl_seconds : ℕ
challenge_ttl_seconds = 300

abbrev pub null_aaguid : String
null_aaguid = "00000000-0000-0000-0000-000000000000"

-- UserWebAuthnCredentialRepository.list_by_user_id, up to the order
unfoldable pub list_by_user_id : ℕ → World → List UserWebAuthnCredential
list_by_user_id user_id w = select (λ c. c.user_id == user_id) w.passkeys

unfoldable pub get_by_credential_id : String → World → Option UserWebAuthnCredential
get_by_credential_id id w = select_one (λ c. str_eq c.credential_id id) w.passkeys

unfoldable pub update_after_assertion : String → ℕ → Time → World → World
update_after_assertion id sign_count now w = record w {
  passkeys =
      update (λ c. str_eq c.credential_id id)
        (λ c. record c { sign_count = sign_count; last_used_at = some now }) w.passkeys;
}

-- delete_by_id_for_user
unfoldable pub delete_passkey : ℕ → ℕ → World → World
delete_passkey id user_id w = record w {
  passkeys = delete (λ c. (c.id == id) && (c.user_id == user_id)) w.passkeys;
}

-- rename_by_id_for_user
unfoldable pub rename_passkey : ℕ → ℕ → Option String → World → World
rename_passkey id user_id label w = record w {
  passkeys =
      update (λ c. (c.id == id) && (c.user_id == user_id)) (λ c. record c { label = label })
        w.passkeys;
}

-- the counter regressed: a stored zero and a reported zero never count as that
abbrev pub is_rollback : ℕ → ℕ → Bool
is_rollback stored received = leb received stored && ltb 0 stored && not (received == 0)

-- assertion_response.get("rawId") or assertion_response.get("id")
abbrev pub non_empty : Option String → Option String
non_empty none = none
non_empty (some s) = if str_eq s "" then none else some s

abbrev pub first_id : Option String → Option String → Option String
first_id none id = non_empty id
first_id (some s) id = some s

abbrev pub credential_named : AuthenticatorResponse → Option String
credential_named r = first_id (non_empty r.raw_id) r.id

abbrev pub known_aaguid : Option String → Option String
known_aaguid none = none
known_aaguid (some a) = if str_eq a null_aaguid then none else some a

-- WebAuthnService.delete
unfoldable pub delete_credential : User → ℕ → World → Bool × World
unfolding recompute_mfa_enabled delete_passkey
delete_credential user id w =
    if exists (λ c. (c.id == id) && (c.user_id == user.id)) w.passkeys
    then (
      true,
      audit_logger user_passkey_deleted (some user.id) (("credential_id", number id) ∷ [])
          (recompute_mfa_enabled user (delete_passkey id user.id w)),
    )
    else (false, w)

module _ (ceremonies : Ceremonies) {Store : Type 0} (redis : KeyValue Store) where
  -- the challenge of the options is the new random `challenge`
  unfoldable pub begin_registration : Time → User → String → Store → Store
  begin_registration now user challenge s =
      redis.set_key (reg_key user.id) (ceremonies.b64url_encode challenge) challenge_ttl_seconds now
        s

  unfoldable pub begin_assertion : Time → ℕ → String → Store → Store
  begin_assertion now login_session_id challenge s =
      redis.set_key (auth_key login_session_id) (ceremonies.b64url_encode challenge)
        challenge_ttl_seconds now s

  abbrev pub registered_row :
      Time → ℕ → User → AuthenticatorResponse → VerifiedRegistration → UserWebAuthnCredential
  registered_row now new_id user r v = record {
    id = new_id;
    user_id = user.id;
    credential_id = v.credential_id;
    public_key = v.credential_public_key;
    sign_count = v.sign_count;
    transports = r.transports;
    aaguid = known_aaguid v.aaguid;
    backup_eligible = v.multi_device;
    backup_state = v.credential_backed_up;
    label = none;
    created_at = now;
    last_used_at = none;
  }

  -- the row, which the unique constraint on the credential id may refuse
  unfoldable pub store_credential :
      Time
      → ℕ
      → User
      → AuthenticatorResponse
      → Option VerifiedRegistration
      → World
      → Result WebAuthnError UserWebAuthnCredential × World
  unfolding recompute_mfa_enabled
  store_credential now new_id user r none w = (err invalid_assertion, w)
  store_credential now new_id user r (some v) w =
      if exists (λ c. str_eq c.credential_id v.credential_id) w.passkeys
      then (err integrity_error, w)
      else (let row = registered_row now new_id user r v in
          (
            ok row,
            audit_logger user_passkey_registered (some user.id)
                (("credential_id_hex", text (ceremonies.hex32 v.credential_id)) ∷ [])
                (recompute_mfa_enabled user (record w { passkeys = w.passkeys ++ row ∷ [] })),
          ))

  unfoldable pub register_with :
      Time
      → ℕ
      → User
      → String
      → String
      → AuthenticatorResponse
      → Option String
      → World
      → Result WebAuthnError UserWebAuthnCredential × World
  unfolding store_credential
  register_with now new_id user rp_id origin r none w = (err value_error, w)
  register_with now new_id user rp_id origin r (some challenge) w =
      store_credential now new_id user r
        (ceremonies.verify_registration_response r challenge origin rp_id) w

  unfoldable pub register_popped :
      Time
      → ℕ
      → User
      → String
      → String
      → AuthenticatorResponse
      → Option String
      → Store
      → World
      → Result WebAuthnError UserWebAuthnCredential × Store × World
  unfolding register_with
  register_popped now new_id user rp_id origin r none s w = (err challenge_expired, s, w)
  register_popped now new_id user rp_id origin r (some b64) s w =
      let (result, w') =
        register_with now new_id user rp_id origin r (ceremonies.b64url_decode b64) w in
      (result, redis.delete_key (reg_key user.id) s, w')

  unfoldable pub finish_registration :
      Time
      → ℕ
      → User
      → String
      → String
      → AuthenticatorResponse
      → Store
      → World
      → Result WebAuthnError UserWebAuthnCredential × Store × World
  unfolding register_popped
  finish_registration now new_id user rp_id origin r s w =
      register_popped now new_id user rp_id origin r (redis.get_key (reg_key user.id) now s) s w

  abbrev pub verify_failed : User → String → World → World
  verify_failed user reason w =
      audit_logger user_passkey_verify_failed (some user.id) (("reason", text reason) ∷ []) w

  -- the count that the library read from an accepted response
  unfoldable pub assertion_accepted :
      Time
      → User
      → UserWebAuthnCredential
      → Option ℕ
      → World
      → Result WebAuthnError UserWebAuthnCredential × World
  unfolding update_after_assertion
  assertion_accepted now user cred none w =
      (err invalid_assertion, verify_failed user "invalid_signature" w)
  assertion_accepted now user cred (some new_sign_count) w =
      if is_rollback cred.sign_count new_sign_count
      then (
        err sign_count_rollback,
        audit_logger user_passkey_sign_count_rollback (some user.id)
            (("credential_id_hex", text (ceremonies.hex32 cred.credential_id))
              ∷ ("stored", number cred.sign_count)
              ∷ ("received", number new_sign_count)
              ∷ [])
            w,
      )
      else (
        ok cred,
        audit_logger user_passkey_verified (some user.id)
            (("credential_id_hex", text (ceremonies.hex32 cred.credential_id)) ∷ [])
            (update_after_assertion cred.credential_id new_sign_count now w),
      )

  unfoldable pub assertion_found :
      Time
      → User
      → String
      → String
      → AuthenticatorResponse
      → String
      → Option UserWebAuthnCredential
      → World
      → Result WebAuthnError UserWebAuthnCredential × World
  unfolding assertion_accepted
  assertion_found now user rp_id origin r challenge none w =
      (err credential_not_found, verify_failed user "credential_not_found" w)
  assertion_found now user rp_id origin r challenge (some cred) w =
      assertion_accepted now user cred
        (ceremonies.verify_authentication_response r challenge origin rp_id cred.public_key
          cred.sign_count)
        w

  abbrev pub decoded : Option String → Option String
  decoded none = none
  decoded (some s) = ceremonies.b64url_decode s

  abbrev pub credential_of : Option String → World → Option UserWebAuthnCredential
  credential_of none w = none
  credential_of (some id) w = get_by_credential_id id w

  unfoldable pub assertion_with :
      Time
      → User
      → String
      → String
      → AuthenticatorResponse
      → Option String
      → World
      → Result WebAuthnError UserWebAuthnCredential × World
  unfolding assertion_found get_by_credential_id
  assertion_with now user rp_id origin r none w = (err value_error, w)
  assertion_with now user rp_id origin r (some challenge) w =
      assertion_found now user rp_id origin r challenge
        (credential_of (decoded (credential_named r)) w) w

  unfoldable pub assertion_popped :
      Time
      → User
      → String
      → String
      → ℕ
      → AuthenticatorResponse
      → Option String
      → Store
      → World
      → Result WebAuthnError UserWebAuthnCredential × Store × World
  unfolding assertion_with
  assertion_popped now user rp_id origin login_session_id r none s w = (err challenge_expired, s, w)
  assertion_popped now user rp_id origin login_session_id r (some b64) s w =
      let (result, w') = assertion_with now user rp_id origin r (ceremonies.b64url_decode b64) w in
      (result, redis.delete_key (auth_key login_session_id) s, w')

  unfoldable pub verify_assertion :
      Time
      → User
      → String
      → String
      → ℕ
      → AuthenticatorResponse
      → Store
      → World
      → Result WebAuthnError UserWebAuthnCredential × Store × World
  unfolding assertion_popped
  verify_assertion now user rp_id origin login_session_id r s w =
      assertion_popped now user rp_id origin login_session_id r
        (redis.get_key (auth_key login_session_id) now s) s w
