-- ===== src/Login/Safety.antt =====
-- When /login of fief/apps/auth/routers/auth.py sets a session cookie.
use fief.RateLimit.{Verdict, allowed, exceeded, redis_error}
use fief.Login.{
  LoginRequest, authenticated, get_by_email_and_tenant, challenge_or_session, after_authenticate,
  login_failed, password_step, authenticate, login, ip_limited, verified_by, verified, lock_checked,
  email_limited, after_lock_check, submitted, email_step, rehashed, lockout_step, login_form, found,
  Lookup, multiple_results_found,
}
use fief.Models.{Time, World, User, audit_logger}
use fief.Prelude.{
  String, Bool, ℕ, is_some, Option, ◌≡◌, some, true, false, ◌⊎◌, none, arith, refl, sym, ◌&&◌,
}
use fief.Flow.Response.{Response, Limiter, Settings}
use fief.Lockout.{check_locked, check_row, upsert, unlocked, LockCheck, locked}

abbrev pub has_cookie : Response → Bool
has_cookie r = is_some r.session_cookie

-- the lockout check of the user found would refuse
unfoldable pub locked_out : Time → Lookup → World → Bool
unfolding check_locked
locked_out now multiple_results_found w = false
locked_out now (found none) w = false
locked_out now (found (some user)) w = elim (check_locked now user.id w).0 [
  | unlocked ↦ false
  | locked _ ↦ true
]

users-check_locked : (now : Time) (id : ℕ) (w : World) → (check_locked now id w).1.users ≡ w.users
unfolding check_locked check_row audit_logger upsert
users-check_locked now id w = ground arith

module _ (lower strip : String → String)
    (verify_and_update : String → String → Bool × Option String) where
  -- the user of the address has this password and is active; if it has a second factor, the request
  -- has no login session
  abbrev pub LogsIn : LoginRequest → String → String → World → Type 0
  LogsIn request email password w =
      (user : User) × (get_by_email_and_tenant lower strip verify_and_update email request.tenant.id
          w
        ≡ found (some user))
      × ((verify_and_update password user.hashed_password).0 ≡ true)
      × (user.is_active ≡ true)
      × ((user.mfa_enabled ≡ false) ⊎ (request.login_session ≡ none))

  verified_lem :
      (user user' : User) (v : Bool × Option String) (w : World)
      → (verified lower strip verify_and_update user v w).0 ≡ found (some user')
      → (v.0 ≡ true) × (user.is_active ≡ user'.is_active) × (user.mfa_enabled ≡ user'.mfa_enabled)
  unfolding verified rehashed
  verified_lem user user' (false, h) w e = ground arith
  verified_lem user user' (true, none) w e = ground arith
  verified_lem user user' (true, some h) w e = ground arith

  verified_by_lem :
      (password : String) (looked : Lookup) (w : World) (user' : User)
      → (verified_by lower strip verify_and_update password looked w).0 ≡ found (some user')
      → (user : User) × (looked ≡ found (some user))
        × ((verify_and_update password user.hashed_password).0 ≡ true)
        × (user.is_active ≡ user'.is_active)
        × (user.mfa_enabled ≡ user'.mfa_enabled)
  unfolding verified_by
  verified_by_lem password multiple_results_found w user' e = ground arith
  verified_by_lem password (found none) w user' e = ground arith
  verified_by_lem password (found (some user)) w user' e =
      let kept = verified_lem user user' (verify_and_update password user.hashed_password) w e in
      (user, refl, kept.0, kept.1, kept.2)

  authenticate_cases :
      (email password : String) (tenant : ℕ) (w : World) (user' : User)
      → (authenticate lower strip verify_and_update email password tenant w).0 ≡ found (some user')
      → (user : User) × (get_by_email_and_tenant lower strip verify_and_update email tenant w
          ≡ found (some user))
        × ((verify_and_update password user.hashed_password).0 ≡ true)
        × (user.is_active ≡ user'.is_active)
        × (user.mfa_enabled ≡ user'.mfa_enabled)
  unfolding authenticate
  authenticate_cases email password tenant w user' h =
      verified_by_lem password
        (get_by_email_and_tenant lower strip verify_and_update email tenant w) w user' h

  module _ {Store : Type 0} (limiter : Limiter Store) (settings : Settings)
      (hash_key : String → String) where
    authenticated-LogsIn :
        (now : Time) (request : LoginRequest) (user : User) (w : World)
        → has_cookie (authenticated settings.rate_limit_enabled now request user w).0 ≡ true
        → (user.mfa_enabled ≡ false) ⊎ (request.login_session ≡ none)
    unfolding authenticated challenge_or_session
    authenticated-LogsIn now request user w h = ground arith

    after_authenticate-LogsIn :
        (now : Time) (request : LoginRequest) (email : String) (existing : Option User)
        (looked : Lookup) (w : World)
        → has_cookie
            (after_authenticate lower strip verify_and_update limiter settings hash_key now request
              email existing looked w).0
          ≡ true
        → (user' : User) × (looked ≡ found (some user'))
          × (user'.is_active ≡ true)
          × ((user'.mfa_enabled ≡ false) ⊎ (request.login_session ≡ none))
    unfolding after_authenticate login_failed
    after_authenticate-LogsIn now request email existing multiple_results_found w h = ground arith
    after_authenticate-LogsIn now request email existing (found none) w h = ground arith
    after_authenticate-LogsIn now request email existing (found (some user)) w h =
        let both = authenticated-LogsIn now request user w in
        (user, refl, ground arith, ground (arith, both))

    password_step-LogsIn :
        (now : Time) (request : LoginRequest) (email password : String) (existing : Option User)
        (w : World)
        → has_cookie
            (password_step lower strip verify_and_update limiter settings hash_key now request email
              password existing w).0
          ≡ true
        → LogsIn request email password w
    unfolding password_step
    password_step-LogsIn now request email password existing w h =
        let w' =
          (authenticate lower strip verify_and_update email password request.tenant.id w).1 in
        let (user', e, active, second) =
          after_authenticate-LogsIn now request email existing
            (authenticate lower strip verify_and_update email password request.tenant.id w).0 w'
            h in
        let (user, known, right, a, m) =
          authenticate_cases email password request.tenant.id w user' e in
        (user, known, right, ground arith, ground arith)

    -- the user that the stripped lower-case address names is locked out
    abbrev pub refused : Time → LoginRequest → String → World → Bool
    refused now request email w =
        locked_out now
          (get_by_email_and_tenant lower strip verify_and_update (lower (strip email))
            request.tenant.id w)
          w

    abbrev Allowed : Time → LoginRequest → String → String → World → Type 0
    Allowed now request email password w =
        LogsIn request email password w × (refused now request email w ≡ false)

    same_users :
        (request : LoginRequest) (email password : String) (w w' : World)
        → w'.users ≡ w.users
        → LogsIn request email password w'
        → LogsIn request email password w
    unfolding get_by_email_and_tenant
    same_users request email password w w' e logs =
        let (user, known, right, active, second) = logs in
        (user, rw (sym e) known, right, active, second)

    after_lock_check-LogsIn :
        (now : Time) (request : LoginRequest) (email password : String) (user : User)
        (c : LockCheck) (w : World)
        → has_cookie
            (after_lock_check lower strip verify_and_update limiter settings hash_key now request
              email password user c w).0
          ≡ true
        → (c ≡ unlocked) × LogsIn request email password w
    unfolding after_lock_check
    after_lock_check-LogsIn now request email password user unlocked w h =
        (refl, password_step-LogsIn now request email password (some user) w h)
    after_lock_check-LogsIn now request email password user (locked n) w h = ground arith

    lock_checked-Allowed :
        (now : Time) (request : LoginRequest) (email password : String) (looked : Lookup)
        (w : World)
        → has_cookie
            (lock_checked lower strip verify_and_update limiter settings hash_key now request email
              password looked w).0
          ≡ true
        → LogsIn request email password w × (locked_out now looked w ≡ false)
    unfolding lock_checked locked_out
    lock_checked-Allowed now request email password multiple_results_found w h = ground arith
    lock_checked-Allowed now request email password (found none) w h =
        (password_step-LogsIn now request email password none w h, refl)
    lock_checked-Allowed now request email password (found (some user)) w h =
        let (c, w') = check_locked now user.id w in
        let (free, logs) = after_lock_check-LogsIn now request email password user c w' h in
        (
          same_users request email password w w' (users-check_locked now user.id w) logs,
          rw (locked_out, free) refl,
        )

    email_limited-Allowed :
        (now : Time) (request : LoginRequest) (email password : String) (v : Verdict) (w : World)
        → has_cookie
            (email_limited lower strip verify_and_update limiter settings hash_key now request email
              password v w).0
          ≡ true
        → Allowed now request email password w
    unfolding email_limited lockout_step
    email_limited-Allowed now request email password (allowed n) w h =
        lock_checked-Allowed now request email password
          (get_by_email_and_tenant lower strip verify_and_update (lower (strip email))
            request.tenant.id w)
          w h
    email_limited-Allowed now request email password (exceeded n) w h = ground arith
    email_limited-Allowed now request email password redis_error w h = ground arith

    ip_limited-Allowed :
        (now : Time) (request : LoginRequest) (email password : String) (v : Verdict) (s : Store)
        (w : World)
        → has_cookie
            (ip_limited lower strip verify_and_update limiter settings hash_key now request email
              password v s w).0
          ≡ true
        → Allowed now request email password w
    unfolding ip_limited email_step
    ip_limited-Allowed now request email password (allowed n) s w h =
        email_limited-Allowed now request email password _ w h
    ip_limited-Allowed now request email password (exceeded n) s w h = ground arith
    ip_limited-Allowed now request email password redis_error s w h = ground arith

    submitted-Allowed :
        (limits : Bool) (now : Time) (request : LoginRequest) (email password : String) (s : Store)
        (w : World)
        → has_cookie
            (submitted lower strip verify_and_update limiter settings hash_key limits now request
              email password s w).0
          ≡ true
        → LogsIn request email password w × ((limits && refused now request email w) ≡ false)
    unfolding submitted
    submitted-Allowed true now request email password s w h =
        ip_limited-Allowed now request email password _ _ w h
    submitted-Allowed false now request email password s w h =
        (password_step-LogsIn now request email password none w h, refl)

    login_form-Allowed :
        (now : Time) (request : LoginRequest) (form : Option (String × String)) (s : Store)
        (w : World)
        → has_cookie
            (login_form lower strip verify_and_update limiter settings hash_key now request form s
              w).0
          ≡ true
        → (email : String) × (password : String) × (form ≡ some (email, password))
          × LogsIn request email password w
          × ((settings.rate_limit_enabled && refused now request email w) ≡ false)
    unfolding login_form
    login_form-Allowed now request none s w h = ground arith
    login_form-Allowed now request (some (email, password)) s w h =
        let kept = submitted-Allowed settings.rate_limit_enabled now request email password s w h in
        (email, password, refl, kept.0, kept.1)

    -- An answer of /login sets a session cookie only if the form gives the password of an active user of
    -- the tenant and, when that user has a second factor, the request comes without a login session; and,
    -- when rate limiting is on, only if the user that the stripped lower-case address names is not locked.
    pub login_cookie_lem :
        (now : Time) (request : LoginRequest) (s : Store) (w : World)
        → has_cookie
            (login lower strip verify_and_update limiter settings hash_key now request s w).0
          ≡ true
        → (email : String) × (password : String) × (request.form ≡ some (email, password))
          × LogsIn request email password w
          × ((settings.rate_limit_enabled && refused now request email w) ≡ false)
    unfolding login
    login_cookie_lem now request s w h = login_form-Allowed now request request.form s w h
