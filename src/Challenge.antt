-- ===== src/Challenge.antt =====
-- The second step of a login: /mfa/totp and /mfa/recover of fief/apps/auth/routers/auth.py. A request
-- runs at one instant `now`. `otp`, `bcrypt` and the limiter are those of the services; `hash_key` is
-- the truncated SHA-256 of an audit line, and `email_normalized` the stripped lower-case email.
pub mod Gate
pub mod Attempts
pub mod Handlers
pub mod Recover
mod Tests
use fief.Totp.{get_confirmed, disable}
use fief.Flow.Response.{Route, Response, redirect, plain, login_route, form_error}
use fief.Prelude.{
  ℕ, Bool, Option, none, String, false, ◌+◌, some, if◌then◌else◌, ltb, ◌&&◌, leb, get, true, not,
  is_some, ◌∷◌, [],
}
use fief.Flow.{clear_mfa_state, RequestInfo, update_login_session, NewToken}
use fief.Models.{
  LoginSession, User, Time, World, minutes, audit_logger, SessionToken, user_rate_limit_exceeded,
  user_mfa_verify_failed, text, user_mfa_state_inconsistent,
}

abbrev pub mfa_max_attempts : ℕ
mfa_max_attempts = 5

abbrev pub mfa_lockout_duration : Time
mfa_lockout_duration = minutes 10

-- `_gate_mfa_challenge`: the user, or the redirect to /login
pub data Gated : Type 0 where
  open_for : User → LoginSession → Gated
  bounced : Gated

-- login_session.mfa_locked_until is not None and login_session.mfa_locked_until > now
abbrev pub is_locked : Time → LoginSession → Bool
is_locked now ls = elim ls.mfa_locked_until [ none ↦ false | some until ↦ ltb now until ]

gate_user : LoginSession → Option User → World → Gated × World
gate_user ls none w = (bounced, clear_mfa_state ls w)
gate_user ls (some user) w = (open_for user ls, w)

gate_pending : Time → LoginSession → Option ℕ → World → Gated × World
gate_pending now ls none w = (bounced, w)
gate_pending now ls (some pending) w =
    if is_locked now ls
    then (bounced, update_login_session (record ls { mfa_pending_user_id = none }) w)
    else gate_user ls (get w.users pending) w

unfoldable pub gate_mfa_challenge : Time → Option LoginSession → World → Gated × World
unfolding gate_user gate_pending clear_mfa_state
gate_mfa_challenge now none w = (bounced, w)
gate_mfa_challenge now (some ls) w = gate_pending now ls ls.mfa_pending_user_id w

-- `_maybe_self_heal_orphan_mfa`: whether the request is sent back to /login
unfoldable pub maybe_self_heal_orphan_mfa : User → LoginSession → World → Bool × World
unfolding clear_mfa_state
maybe_self_heal_orphan_mfa user ls w =
    if user.mfa_enabled && not (is_some (get_confirmed user.id w))
    then (
      true,
      clear_mfa_state ls (
          audit_logger user_mfa_state_inconsistent (some user.id)
            (("reason", text "missing_confirmed_secret_at_challenge") ∷ [])
            (disable user none true w)),
    )
    else (false, w)

-- `_record_failed_mfa_attempt`: whether the session is locked now
unfoldable pub record_failed_mfa_attempt : Time → LoginSession → World → Bool × World
record_failed_mfa_attempt now ls w =
    let n = ls.mfa_attempts_count + 1 in
    if leb mfa_max_attempts n
    then (
      true,
      update_login_session
          (record ls {
            mfa_attempts_count = n;
            mfa_locked_until = some (now + mfa_lockout_duration);
          })
          w,
    )
    else (false, update_login_session (record ls { mfa_attempts_count = n }) w)

-- A request of a challenge route: its method, the code if the form was submitted and is valid, the
-- login session of its cookie, the presented session, and what a new session would be.
pub record ChallengeRequest : Type 0 where
  pub is_get : Bool
  pub form_code : Option String
  pub login_session : Option LoginSession
  pub session_token : Option SessionToken
  pub info : RequestInfo
  pub new_token : NewToken

abbrev pub rate_limit_line : User → String → String → String → String → World → World
rate_limit_line user scope key_hash endpoint client_ip w =
    audit_logger user_rate_limit_exceeded (some user.id)
      (("scope", text scope)
        ∷ ("key_hash", text key_hash)
        ∷ ("endpoint", text endpoint)
        ∷ ("client_ip", text client_ip)
        ∷ [])
      w

abbrev pub failed_line : User → String → World → World
failed_line user reason w =
    audit_logger user_mfa_verify_failed (some user.id) (("reason", text reason) ∷ []) w

-- a wrong code: count it, audit it, and bounce the session when it is locked
unfoldable pub wrong_code : Time → User → LoginSession → String → String → World → Response × World
unfolding record_failed_mfa_attempt
wrong_code now user ls reason error w =
    let (locked_out, w') = record_failed_mfa_attempt now ls w in
    (
      plain (if locked_out then redirect login_route else form_error error none),
      failed_line user reason w',
    )

-- the session cookie after a passed challenge, and the way to the email check
abbrev pub logged_in : Route → String → Response
logged_in route cookie = record {
  answer = redirect route;
  session_cookie = some cookie;
  login_hint = none;
}
