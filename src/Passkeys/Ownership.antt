-- ===== src/Passkeys/Ownership.antt =====
-- Whose passkey completes a login: /mfa/passkey/verify of fief/apps/auth/routers/auth.py with
-- `verify_assertion` of fief/services/security/webauthn.py.
use fief.Challenge.{gate_mfa_challenge, open_for}
use fief.Flow.{rotate_session_token, delete_current, session_row}
use fief.Flow.Response.{verify_email_request_route}
use fief.Prelude.{
  String, ℕ, Result, ◌≡◌, ok, some, exists, str_eq, false, ◌&&◌, ◌==◌, refl, true, err, arith,
  exists-append_new, eq_iff, ◌≢◌,
}
use fief.Models.{Time, User, LoginSession, World, UserWebAuthnCredential}
use fief.Passkeys.Routes.{
  assertion_answer, PasskeyRequest, json_redirect, mfa_passkey_verify, passkey_verify_gated,
}
use fief.Passkeys.{
  Ceremonies, KeyValue, verify_assertion, AuthenticatorResponse, WebAuthnError, auth_key, decoded,
  credential_named, get_by_credential_id, is_rollback,
}

module _ (ceremonies : Ceremonies) {Store : Type 0} (redis : KeyValue Store) where
  accepted :
      (now : Time) (user : User) (rp_id origin : String) (ls : ℕ) (r : AuthenticatorResponse)
      (s : Store) (w : World) (b64 challenge id : String) (cred : UserWebAuthnCredential)
      (received : ℕ)
      → redis.get_key (auth_key ls) now s ≡ some b64
      → ceremonies.b64url_decode b64 ≡ some challenge
      → decoded ceremonies redis (credential_named r) ≡ some id
      → get_by_credential_id id w ≡ some cred
      → ceremonies.verify_authentication_response r challenge origin rp_id cred.public_key
          cred.sign_count
        ≡ some received
      → is_rollback cred.sign_count received ≡ false
      → (verify_assertion ceremonies redis now user rp_id origin ls r s w).0 ≡ ok cred
  unfolding verify_assertion
  accepted now user rp_id origin ls r s w b64 challenge id cred received stored raw named row read
        kept =
      rw (stored, raw, named, row, read, kept) refl

  completed :
      (now : Time) (user : User) (ls : LoginSession) (request : PasskeyRequest)
      (result : Result WebAuthnError UserWebAuthnCredential) (w : World)
      (cred : UserWebAuthnCredential)
      → result ≡ ok cred
      → (let (answer, w') = assertion_answer ceremonies redis now user ls request result w in
          (answer ≡ json_redirect verify_email_request_route request.new_token.value)
          × (exists
                (λ t. str_eq t.token request.new_token.hash && (t.user_id == user.id))
                w'.session_tokens
              ≡ true))
  unfolding assertion_answer rotate_session_token
  completed now user ls request (err e) w cred h = absurd (ground arith)
  completed now user ls request (ok c) w cred h = (
    refl,
    exists-append_new (λ t. str_eq t.token request.new_token.hash && (t.user_id == user.id))
        (delete_current request.session_token w).session_tokens
        (session_row now user.id request.info request.new_token)
        (ground (arith, eq_iff request.new_token.hash request.new_token.hash)),
  )

  -- Any registered passkey completes the login of any waiting user: if the response verifies against a
  -- row of another user, the answer logs the browser in as the user who waits, with a new session
  -- of that user. So whoever knows a password gets past the second factor with a passkey of their own.
  pub foreign_passkey_completes :
      (now : Time) (request : PasskeyRequest) (s : Store) (w : World) (ls : LoginSession)
      (user : User) (b64 challenge id : String) (cred : UserWebAuthnCredential) (received : ℕ)
      → gate_mfa_challenge now request.login_session w ≡ (open_for user ls, w)
      → redis.get_key (auth_key ls.id) now s ≡ some b64
      → ceremonies.b64url_decode b64 ≡ some challenge
      → decoded ceremonies redis (credential_named request.response) ≡ some id
      → get_by_credential_id id w ≡ some cred
      → ceremonies.verify_authentication_response request.response challenge request.origin
          request.rp_id cred.public_key cred.sign_count
        ≡ some received
      → is_rollback cred.sign_count received ≡ false
      → cred.user_id ≢ user.id
      → (let (answer, _, w') = mfa_passkey_verify ceremonies redis now request s w in
          (answer ≡ json_redirect verify_email_request_route request.new_token.value)
          × (exists
                (λ t. str_eq t.token request.new_token.hash && (t.user_id == user.id))
                w'.session_tokens
              ≡ true))
  unfolding mfa_passkey_verify passkey_verify_gated
  foreign_passkey_completes now request s w ls user b64 challenge id cred received gate stored raw
        named row read kept other =
      let (result, s', w') =
        verify_assertion ceremonies redis now user request.rp_id request.origin ls.id
          request.response s w in
      let done = completed now user ls request result w' cred (
        accepted now user request.rp_id request.origin ls.id request.response s w b64 challenge id
          cred received stored raw named row read kept) in
      rw gate done
