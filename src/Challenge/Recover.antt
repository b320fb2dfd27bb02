-- ===== src/Challenge/Recover.antt =====
-- The handler `mfa_recover` of fief/apps/auth/routers/auth.py. `email_normalized` is
-- `(user.email or "").strip().lower()`; the per-email gate is skipped where that is empty.
use fief.Flow.{auto_revoke_others}
use fief.Totp.{disable}
use fief.Flow.{complete_login_after_mfa}
use fief.RateLimit.{Verdict, allowed, exceeded, redis_error}
use fief.Challenge.{
  ChallengeRequest, Gated, gate_mfa_challenge, logged_in, open_for, rate_limit_line,
  maybe_self_heal_orphan_mfa, wrong_code, bounced,
}
use fief.Models.{Time, User, LoginSession, World}
use fief.Prelude.{String, List, Option, Bool, ℕ, if◌then◌else◌, str_eq, none, some, false, true}
use fief.Flow.Response.{
  Limiter, Settings, Response, plain, page, redirect, form_error, login_route, server_error,
  verify_email_request_route,
}
use fief.Recovery.{Hasher, consume, codes}

module _ (bcrypt : Hasher) {Store : Type 0} (limiter : Limiter Store) (settings : Settings)
    (hash_key email_normalized : String → String) where
  unfoldable pub after_consume :
      Time → User → LoginSession → ChallengeRequest → Bool → World → Response × World
  after_consume now user ls request true w =
      let (cookie, w') =
        complete_login_after_mfa now ls user request.info request.new_token request.session_token
          (disable user none true w) in
      (
        logged_in verify_email_request_route cookie,
        (auto_revoke_others user.id (some request.new_token.id) "recovery_code_used" w').1,
      )
  after_consume now user ls request false w =
      wrong_code now user ls "recovery_invalid" "invalid_recovery_code" w

  recovered : Time → User → LoginSession → ChallengeRequest → List ℕ → World → Response × World
  unfolding after_consume
  recovered now user ls request typed w =
      let (accepted, w') = consume bcrypt now user.id typed w in
      after_consume now user ls request accepted w'

  throttled : User → ChallengeRequest → String → String → World → Response × World
  throttled user request scope key w = (
    plain (form_error "invalid_recovery_code" none),
    rate_limit_line user scope (hash_key key) "/mfa/recover" request.info.ip_raw w,
  )

  -- the call behind a gate, if the gate's verdict lets it through
  behind :
      User
      → ChallengeRequest
      → String
      → String
      → Verdict
      → Store
      → World
      → (Store → World → Response × Store × World)
      → Response × Store × World
  behind user request scope key (allowed n) s w next = next s w
  behind user request scope key (exceeded n) s w next =
      let (response, w') = throttled user request scope key w in (response, s, w')
  behind user request scope key redis_error s w next = (plain server_error, s, w)

  consume_now :
      Time
      → User
      → LoginSession
      → ChallengeRequest
      → List ℕ
      → Store
      → World
      → Response × Store × World
  unfolding recovered
  consume_now now user ls request typed s w =
      let (response, w') = recovered now user ls request typed w in (response, s, w')

  email_gate :
      Time
      → User
      → LoginSession
      → ChallengeRequest
      → List ℕ
      → Store
      → World
      → Response × Store × World
  unfolding consume_now behind throttled
  email_gate now user ls request typed s w =
      let email = email_normalized user.email in
      if str_eq email ""
      then consume_now now user ls request typed s w
      else (let (verdict, s') =
            limiter "mfa_recover_email" email (record { max_count = 3; per_seconds = 3600 }) now
              s in
          behind user request "mfa_recover_email" email verdict s' w
            (consume_now now user ls request typed))

  recover_submitted :
      Time
      → User
      → LoginSession
      → ChallengeRequest
      → List ℕ
      → Store
      → World
      → Response × Store × World
  unfolding email_gate
  recover_submitted now user ls request typed s w =
      let key = request.info.ip_rate_limit_key in
      if settings.rate_limit_enabled
      then (let (verdict, s') =
            limiter "mfa_recover_ip" key (record { max_count = 5; per_seconds = 600 }) now s in
          behind user request "mfa_recover_ip" key verdict s' w
            (email_gate now user ls request typed))
      else consume_now now user ls request typed s w

  recover_form :
      Time
      → User
      → LoginSession
      → ChallengeRequest
      → Option String
      → Store
      → World
      → Response × Store × World
  unfolding recover_submitted
  recover_form now user ls request none s w = (plain page, s, w)
  recover_form now user ls request (some typed) s w =
      recover_submitted now user ls request (codes typed) s w

  recover_gated : Time → ChallengeRequest → Gated → Store → World → Response × Store × World
  unfolding recover_form
  recover_gated now request bounced s w = (plain (redirect login_route), s, w)
  recover_gated now request (open_for user ls) s w =
      let (healed, w') =
        if request.is_get then maybe_self_heal_orphan_mfa user ls w else (false, w) in
      if healed
      then (plain (redirect login_route), s, w')
      else recover_form now user ls request request.form_code s w'

  -- the route /mfa/recover
  unfoldable pub mfa_recover : Time → ChallengeRequest → Store → World → Response × Store × World
  unfolding recover_gated
  mfa_recover now request s w =
      let (gated, w') = gate_mfa_challenge now request.login_session w in
      recover_gated now request gated s w'
