-- ===== src/Challenge/Handlers.antt =====
-- The handlers `mfa_totp` and `mfa_recover` of fief/apps/auth/routers/auth.py.
use fief.Flow.{complete_login_after_mfa, clear_mfa_state}
use fief.RateLimit.{Verdict, allowed, exceeded, redis_error}
use fief.Challenge.{
  ChallengeRequest, Gated, gate_mfa_challenge, logged_in, open_for, maybe_self_heal_orphan_mfa,
  rate_limit_line, bounced, wrong_code,
}
use fief.Models.{
  Time, User, LoginSession, World, audit_logger, user_mfa_verified, user_mfa_state_inconsistent,
  text,
}
use fief.Prelude.{String, Option, if◌then◌else◌, some, none, false, [], ◌∷◌, true}
use fief.Flow.Response.{
  Limiter, Settings, Response, plain, redirect, page, form_error, verify_email_request_route,
  login_route, server_error,
}
use fief.Totp.{Otp, VerifyResult, verify, disable, success, inconsistent_state, replay, invalid}

module _ (otp : Otp) {Store : Type 0} (limiter : Limiter Store) (settings : Settings)
    (hash_key : String → String) where
  unfoldable pub after_verify :
      Time → User → LoginSession → ChallengeRequest → VerifyResult → World → Response × World
  after_verify now user ls request success w =
      let (cookie, w') =
        complete_login_after_mfa now ls user request.info request.new_token request.session_token
          w in
      (
        logged_in verify_email_request_route cookie,
        audit_logger user_mfa_verified (some user.id) [] w',
      )
  after_verify now user ls request inconsistent_state w = (
    plain (redirect login_route),
    clear_mfa_state ls (
        audit_logger user_mfa_state_inconsistent (some user.id)
          (("reason", text "decryption_failed_or_missing_at_verify") ∷ [])
          (disable user none true w)),
  )
  after_verify now user ls request replay w = wrong_code now user ls "replay" "invalid_mfa_code" w
  after_verify now user ls request invalid w = wrong_code now user ls "invalid" "invalid_mfa_code" w

  totp_verified : Time → User → LoginSession → ChallengeRequest → String → World → Response × World
  unfolding after_verify
  totp_verified now user ls request typed w =
      let (result, w') = verify otp now user typed w in after_verify now user ls request result w'

  totp_checked :
      Time → User → LoginSession → ChallengeRequest → String → Verdict → World → Response × World
  unfolding totp_verified
  totp_checked now user ls request typed (allowed n) w = totp_verified now user ls request typed w
  totp_checked now user ls request typed (exceeded n) w = (
    plain (form_error "invalid_mfa_code" none),
    rate_limit_line user "mfa_totp_ip" (hash_key request.info.ip_rate_limit_key) "/mfa/totp"
        request.info.ip_raw w,
  )
  totp_checked now user ls request typed redis_error w = (plain server_error, w)

  totp_submitted :
      Time
      → User
      → LoginSession
      → ChallengeRequest
      → String
      → Store
      → World
      → Response × Store × World
  unfolding totp_checked
  totp_submitted now user ls request typed s w =
      if settings.rate_limit_enabled
      then (let (verdict, s') =
            limiter "mfa_totp_ip" request.info.ip_rate_limit_key
              (record { max_count = settings.rate_limit_mfa_per_ip_per_min; per_seconds = 60 }) now
              s in
          let (response, w') = totp_checked now user ls request typed verdict w in
          (response, s', w'))
      else (let (response, w') = totp_verified now user ls request typed w in (response, s, w'))

  totp_form :
      Time
      → User
      → LoginSession
      → ChallengeRequest
      → Option String
      → Store
      → World
      → Response × Store × World
  unfolding totp_submitted
  totp_form now user ls request none s w = (plain page, s, w)
  totp_form now user ls request (some typed) s w = totp_submitted now user ls request typed s w

  totp_gated : Time → ChallengeRequest → Gated → Store → World → Response × Store × World
  unfolding totp_form
  totp_gated now request bounced s w = (plain (redirect login_route), s, w)
  totp_gated now request (open_for user ls) s w =
      let (healed, w') =
        if request.is_get then maybe_self_heal_orphan_mfa user ls w else (false, w) in
      if healed
      then (plain (redirect login_route), s, w')
      else totp_form now user ls request request.form_code s w'

  -- the route /mfa/totp
  unfoldable pub mfa_totp : Time → ChallengeRequest → Store → World → Response × Store × World
  unfolding totp_gated
  mfa_totp now request s w =
      let (gated, w') = gate_mfa_challenge now request.login_session w in
      totp_gated now request gated s w'
