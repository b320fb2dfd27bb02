-- ===== src/Login.antt =====
-- The first step of a login: /login of fief/apps/auth/routers/auth.py, with `authenticate` of
-- fief/services/user_manager.py and the lookup of fief/repositories/user.py. A request runs at one
-- instant `now`. `lower` and `strip` are the Unicode-aware methods of Python's strings,
-- `verify_and_update` is the one of the password helper, a library; the wait for the least latency of
-- a failure changes no state and is left out.
pub mod Safety
pub mod Fresh
pub mod Logout
mod Tests
use fief.RateLimit.{Verdict, allowed, exceeded, redis_error}
use fief.Flow.{
  rotate_session_token, clear_mfa_state, RequestInfo, NewToken, update_login_session,
  without_mfa_state,
}
use fief.Lockout.{record_failed, reset, LockCheck, check_locked, locked, unlocked}
use fief.Prelude.{
  Bool, Option, String, ℕ, List, none, if◌then◌else◌, some, [], ◌∷◌, false, ◌&&◌, put, str_eq, not,
  true, ◌==◌, select,
}
use fief.Models.{
  Time, User, Tenant, LoginSession, SessionToken, World, text, user_login_failed, audit_logger,
  user_rate_limit_exceeded,
}
use fief.Flow.Response.{
  Route, Limiter, Settings, Response, redirect, verify_email_request_route, plain, server_error,
  mfa_index_route, form_error, page, mfa_totp_route,
}

-- the form's fields, if it was submitted and is valid, and what the dependencies give
pub record LoginRequest : Type 0 where
  pub form : Option (String × String)
  pub tenant : Tenant
  pub login_session : Option LoginSession
  pub session_token : Option SessionToken
  pub info : RequestInfo
  pub new_token : NewToken

-- UserRepository.get_by_email_and_tenant: `scalar_one_or_none` raises on two users
pub data Lookup : Type 0 where
  found : Option User → Lookup
  multiple_results_found : Lookup

abbrev generic_login_error_response : Option ℕ → Response
generic_login_error_response retry_after = plain (form_error "bad_credentials" retry_after)

abbrev cleared : Option LoginSession → World → World
cleared none w = w
cleared (some ls) w = clear_mfa_state ls w

abbrev pub reset_enabled : Bool → ℕ → World → World
reset_enabled on user_id w = if on then reset user_id w else w

abbrev with_session : Route → Time → LoginRequest → User → World → Response × World
with_session route now request user w =
    let (cookie, w') =
      rotate_session_token now user.id request.info request.new_token request.session_token w in
    (
      record {
        answer = redirect route;
        session_cookie = some cookie;
        login_hint = some user.email;
      },
      w',
    )

-- the redirect to the challenge, when the user has a second factor and there is a login session
unfoldable pub challenge_or_session :
    Time → LoginRequest → User → Option LoginSession → World → Response × World
unfolding rotate_session_token
challenge_or_session now request user none w =
    with_session verify_email_request_route now request user w
challenge_or_session now request user (some ls) w =
    if user.mfa_enabled
    then (
      record {
        answer = redirect mfa_totp_route;
        session_cookie = none;
        login_hint = some user.email;
      },
      update_login_session (record (without_mfa_state ls) { mfa_pending_user_id = some user.id }) w,
    )
    else with_session verify_email_request_route now request user w

-- the path after the right password of an active user
unfoldable pub authenticated : Bool → Time → LoginRequest → User → World → Response × World
unfolding challenge_or_session rotate_session_token clear_mfa_state reset
authenticated rate_limit_enabled now request user w =
    let w' = cleared request.login_session (reset_enabled rate_limit_enabled user.id w) in
    if request.tenant.mfa_required && not user.mfa_enabled
    then with_session mfa_index_route now request user w'
    else challenge_or_session now request user request.login_session w'

abbrev failed_existing : Time → Option User → World → World
failed_existing now none w = w
failed_existing now (some user) w = record_failed now user.id w

abbrev subject_of : Option User → Option ℕ
subject_of existing = elim existing [ none ↦ none | some user ↦ some user.id ]

-- `record_failed` for the user that the rate-limited lookup found, and the audit line
unfoldable pub login_failed : Time → Option User → String → String → World → Response × World
unfolding record_failed
login_failed now existing email client_ip w = (
  generic_login_error_response none,
  audit_logger user_login_failed (subject_of existing)
      (("email", text email) ∷ ("client_ip", text client_ip) ∷ []) (failed_existing now existing w),
)

module _ (lower strip : String → String)
    (verify_and_update : String → String → Bool × Option String) where
  abbrev has_address : String → ℕ → (ℕ × User) → Bool
  has_address email tenant (_, u) = str_eq (lower u.email) (lower email) && (u.tenant_id == tenant)

  unfoldable pub one_or_none : List (ℕ × User) → Lookup
  one_or_none [] = found none
  one_or_none ((_, u) ∷ []) = found (some u)
  one_or_none (e ∷ f ∷ l) = multiple_results_found

  unfoldable pub get_by_email_and_tenant : String → ℕ → World → Lookup
  unfolding one_or_none select
  get_by_email_and_tenant email tenant w =
      one_or_none (select (has_address email tenant) w.users.entries)

  unfoldable rehashed : User → Option String → World → User × World
  rehashed user none w = (user, w)
  rehashed user (some h) w =
      let user' = record user { hashed_password = h } in
      (user', record w { users = put w.users user.id user' })

  unfoldable verified : User → Bool × Option String → World → Lookup × World
  unfolding rehashed
  verified user (false, _) w = (found none, w)
  verified user (true, h) w = let (user', w') = rehashed user h w in (found (some user'), w')

  unfoldable verified_by : String → Lookup → World → Lookup × World
  unfolding verified
  verified_by password multiple_results_found w = (multiple_results_found, w)
  verified_by password (found none) w = (found none, w)
  verified_by password (found (some user)) w =
      verified user (verify_and_update password user.hashed_password) w

  -- `UserManager.authenticate`
  unfoldable pub authenticate : String → String → ℕ → World → Lookup × World
  unfolding verified_by
  authenticate email password tenant w =
      verified_by password (get_by_email_and_tenant email tenant w) w

  module _ {Store : Type 0} (limiter : Limiter Store) (settings : Settings)
      (hash_key : String → String) where
    -- the answer to what `authenticate` returned
    unfoldable pub after_authenticate :
        Time → LoginRequest → String → Option User → Lookup → World → Response × World
    unfolding authenticated login_failed
    after_authenticate now request email existing multiple_results_found w = (plain server_error, w)
    after_authenticate now request email existing (found none) w =
        login_failed now existing (lower (strip email)) request.info.ip_raw w
    after_authenticate now request email existing (found (some user)) w =
        if user.is_active
        then authenticated settings.rate_limit_enabled now request user w
        else login_failed now existing (lower (strip email)) request.info.ip_raw w

    unfoldable pub password_step :
        Time → LoginRequest → String → String → Option User → World → Response × World
    unfolding after_authenticate
    password_step now request email password existing w =
        let (user, w') = authenticate email password request.tenant.id w in
        after_authenticate now request email existing user w'

    unfoldable after_lock_check :
        Time → LoginRequest → String → String → User → LockCheck → World → Response × World
    unfolding password_step
    after_lock_check now request email password user unlocked w =
        password_step now request email password (some user) w
    after_lock_check now request email password user (locked n) w = (
      generic_login_error_response (some n),
      audit_logger user_rate_limit_exceeded (some user.id)
          (("scope", text "account_lockout")
            ∷ ("endpoint", text "/login")
            ∷ ("client_ip", text request.info.ip_raw)
            ∷ [])
          w,
    )

    unfoldable lock_checked :
        Time → LoginRequest → String → String → Lookup → World → Response × World
    unfolding after_lock_check
    lock_checked now request email password multiple_results_found w = (plain server_error, w)
    lock_checked now request email password (found none) w =
        password_step now request email password none w
    lock_checked now request email password (found (some user)) w =
        let (c, w') = check_locked now user.id w in
        after_lock_check now request email password user c w'

    -- the lockout check of the user that the address names
    unfoldable pub lockout_step : Time → LoginRequest → String → String → World → Response × World
    unfolding lock_checked
    lockout_step now request email password w =
        lock_checked now request email password
          (get_by_email_and_tenant (lower (strip email)) request.tenant.id w) w

    abbrev limited : String → String → ℕ → LoginRequest → World → Response × World
    limited scope key n request w = (
      generic_login_error_response (some n),
      audit_logger user_rate_limit_exceeded none
          (("scope", text scope)
            ∷ ("key_hash", text (hash_key key))
            ∷ ("endpoint", text "/login")
            ∷ ("client_ip", text request.info.ip_raw)
            ∷ [])
          w,
    )

    unfoldable email_limited :
        Time → LoginRequest → String → String → Verdict → World → Response × World
    unfolding lockout_step
    email_limited now request email password (allowed _) w =
        lockout_step now request email password w
    email_limited now request email password (exceeded n) w =
        limited "login_email" (lower (strip email)) n request w
    email_limited now request email password redis_error w = (plain server_error, w)

    unfoldable email_step :
        Time → LoginRequest → String → String → Store → World → Response × Store × World
    unfolding email_limited
    email_step now request email password s w =
        let (verdict, s') =
          limiter "login_email" (lower (strip email))
            (record { max_count = settings.rate_limit_login_per_email_per_min; per_seconds = 60 })
            now s in
        let (response, w') = email_limited now request email password verdict w in
        (response, s', w')

    unfoldable ip_limited :
        Time → LoginRequest → String → String → Verdict → Store → World → Response × Store × World
    unfolding email_step
    ip_limited now request email password (allowed _) s w =
        email_step now request email password s w
    ip_limited now request email password (exceeded n) s w =
        let (response, w') = limited "login_ip" request.info.ip_rate_limit_key n request w in
        (response, s, w')
    ip_limited now request email password redis_error s w = (plain server_error, s, w)

    -- the submitted form, with whether rate limits are on
    unfoldable submitted :
        Bool → Time → LoginRequest → String → String → Store → World → Response × Store × World
    unfolding ip_limited
    submitted true now request email password s w =
        let (verdict, s') =
          limiter "login_ip" request.info.ip_rate_limit_key
            (record { max_count = settings.rate_limit_login_per_ip_per_min; per_seconds = 60 }) now
            s in
        ip_limited now request email password verdict s' w
    submitted false now request email password s w =
        let (response, w') = password_step now request email password none w in (response, s, w')

    unfoldable login_form :
        Time → LoginRequest → Option (String × String) → Store → World → Response × Store × World
    unfolding submitted
    login_form now request none s w = (plain page, s, w)
    login_form now request (some (email, password)) s w =
        submitted settings.rate_limit_enabled now request email password s w

    -- the route /login
    unfoldable pub login : Time → LoginRequest → Store → World → Response × Store × World
    unfolding login_form
    login now request s w = login_form now request request.form s w
