-- ===== src/Passkeys/Routes.antt =====
-- The passkey challenge of a login: /mfa/passkey and /mfa/passkey/verify of
-- fief/apps/auth/routers/auth.py. The relying party and the origin are what `derive_rp_params` gives.
use fief.Challenge.{gate_mfa_challenge, record_failed_mfa_attempt, Gated, open_for, bounced}
use fief.Flow.{complete_login_after_mfa, RequestInfo, NewToken}
use fief.Models.{UserWebAuthnCredential, LoginSession, SessionToken, Time, World, User}
use fief.Passkeys.{
  Ceremonies, KeyValue, verify_assertion, begin_assertion, list_by_user_id, AuthenticatorResponse,
  WebAuthnError, credential_not_found, invalid_assertion, sign_count_rollback, challenge_expired,
  integrity_error, value_error,
}
use fief.Prelude.{
  Option, List, String, ℕ, Bool, true, ◌∷◌, Result, false, [], if◌then◌else◌, ok, err,
}
use fief.Flow.Response.{Route, login_route, verify_email_request_route, mfa_totp_route}

-- A redirect, the page with the options, JSON with the way on and the session cookie, or JSON with an
-- error and its status; a ValueError is a server error.
pub data PasskeyAnswer : Type 0 where
  redirected : Route → PasskeyAnswer
  options_page : PasskeyAnswer
  json_redirect : Route → String → PasskeyAnswer
  json_error : String → ℕ → PasskeyAnswer
  json_server_error : PasskeyAnswer

-- what a request brings
pub record PasskeyRequest : Type 0 where
  pub login_session : Option LoginSession
  pub session_token : Option SessionToken
  pub info : RequestInfo
  pub new_token : NewToken
  pub rp_id : String
  pub origin : String
  pub response : AuthenticatorResponse

abbrev pub is_nil : List UserWebAuthnCredential → Bool
is_nil [] = true
is_nil (c ∷ l) = false

module _ (ceremonies : Ceremonies) {Store : Type 0} (redis : KeyValue Store) where
  unfoldable pub passkey_gated :
      Time → String → Gated → Store → World → PasskeyAnswer × Store × World
  unfolding begin_assertion list_by_user_id
  passkey_gated now challenge bounced s w = (redirected login_route, s, w)
  passkey_gated now challenge (open_for user ls) s w =
      if is_nil (list_by_user_id user.id w)
      then (redirected mfa_totp_route, s, w)
      else (options_page, begin_assertion ceremonies redis now ls.id challenge s, w)

  -- GET /mfa/passkey, with the new challenge
  unfoldable pub mfa_passkey :
      Time → String → PasskeyRequest → Store → World → PasskeyAnswer × Store × World
  unfolding passkey_gated gate_mfa_challenge
  mfa_passkey now challenge request s w =
      let (gated, w') = gate_mfa_challenge now request.login_session w in
      passkey_gated now challenge gated s w'

  -- what the result of the assertion means for the login
  unfoldable pub assertion_answer :
      Time
      → User
      → LoginSession
      → PasskeyRequest
      → Result WebAuthnError UserWebAuthnCredential
      → World
      → PasskeyAnswer × World
  unfolding complete_login_after_mfa record_failed_mfa_attempt
  assertion_answer now user ls request (ok cred) w =
      let (cookie, w') =
        complete_login_after_mfa now ls user request.info request.new_token request.session_token
          w in
      (json_redirect verify_email_request_route cookie, w')
  assertion_answer now user ls request (err credential_not_found) w =
      (json_error "invalid" 401, (record_failed_mfa_attempt now ls w).1)
  assertion_answer now user ls request (err invalid_assertion) w =
      (json_error "invalid" 401, (record_failed_mfa_attempt now ls w).1)
  assertion_answer now user ls request (err sign_count_rollback) w =
      (json_error "credential_compromised" 401, w)
  assertion_answer now user ls request (err challenge_expired) w =
      (json_error "challenge_expired" 400, w)
  assertion_answer now user ls request (err integrity_error) w = (json_server_error, w)
  assertion_answer now user ls request (err value_error) w = (json_server_error, w)

  unfoldable pub passkey_verify_gated :
      Time → PasskeyRequest → Gated → Store → World → PasskeyAnswer × Store × World
  unfolding assertion_answer verify_assertion
  passkey_verify_gated now request bounced s w = (redirected login_route, s, w)
  passkey_verify_gated now request (open_for user ls) s w =
      let (result, s', w') =
        verify_assertion ceremonies redis now user request.rp_id request.origin ls.id
          request.response s w in
      let (answer, w'') = assertion_answer now user ls request result w' in (answer, s', w'')

  -- POST /mfa/passkey/verify
  unfoldable pub mfa_passkey_verify :
      Time → PasskeyRequest → Store → World → PasskeyAnswer × Store × World
  unfolding passkey_verify_gated gate_mfa_challenge
  mfa_passkey_verify now request s w =
      let (gated, w') = gate_mfa_challenge now request.login_session w in
      passkey_verify_gated now request gated s w'
