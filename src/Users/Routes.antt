-- ===== src/Users/Routes.antt =====
-- The routes /forgot of fief/apps/auth/routers/reset.py and /verify-link of
-- fief/apps/auth/routers/auth.py. The pages are told apart by what they show.
use fief.Users.{
  AccountLibrary, UserError, verify_email_by_code, get_by_email, user_does_not_exist,
  forgot_password, invalid_email_verification_code, user_inactive,
}
use fief.Prelude.{
  ℕ, String, Option, Bool, none, some, if◌then◌else◌, Result, ok, err, ◌∷◌, [], ◌>>=◌, false, true,
}
use fief.RateLimit.{Verdict, allowed, exceeded, redis_error}
use fief.Flow.Response.{Limiter}
use fief.Flow.{RequestInfo}
use fief.Models.{World, Tenant, Time, audit_logger, user_rate_limit_exceeded, User, text}

pub data AccountAnswer : Type 0 where
  form_page success_page confirm_page : AccountAnswer
  login_redirect verify_error_redirect verified_redirect : AccountAnswer
  account_server_error : AccountAnswer

pub record RouteSettings : Type 0 where
  pub rate_limit_enabled : Bool
  pub rate_limit_forgot_per_ip_per_min : ℕ
  pub rate_limit_forgot_per_email_per_hour : ℕ
  pub rate_limit_verify_per_ip_per_min : ℕ

-- a request to either route: the method, the code of the query, and the field of a valid form
pub record AccountRequest : Type 0 where
  pub is_post : Bool
  pub query_code : Option String
  pub form : Option String
  pub tenant : Tenant
  pub info : RequestInfo
  pub brand : Option String

module _ (lib : AccountLibrary) (strip hash_key : String → String) {Store : Type 0}
    (limiter : Limiter Store) (settings : RouteSettings) where
  abbrev breach_line : String → String → String → AccountRequest → World → World
  breach_line scope key endpoint request w =
      audit_logger user_rate_limit_exceeded none
        (("scope", text scope)
          ∷ ("key_hash", text (hash_key key))
          ∷ ("endpoint", text endpoint)
          ∷ ("client_ip", text request.info.ip_raw)
          ∷ [])
        w

  -- the answer to what forgot_password raised
  unfoldable pub forgot_answer : World → Result UserError World → AccountAnswer × World
  forgot_answer w (ok w') = (success_page, w')
  forgot_answer w (err user_does_not_exist) = (success_page, w)
  forgot_answer w (err user_inactive) = (success_page, w)
  forgot_answer w (err e) = (account_server_error, w)

  -- the body of the route behind the rate limits
  unfoldable pub forgot_user : String → String → AccountRequest → World → AccountAnswer × World
  unfolding get_by_email forgot_password forgot_answer
  forgot_user email salt request w = forgot_answer w (
      get_by_email lib email request.tenant.id w >>= λ user.
      forgot_password lib user salt request.brand w)

  unfoldable pub email_checked :
      String → String → AccountRequest → Verdict → Store → World → AccountAnswer × Store × World
  unfolding forgot_user audit_logger
  email_checked email salt request (allowed _) s w =
      let (answer, w') = forgot_user email salt request w in (answer, s, w')
  email_checked email salt request (exceeded n) s w =
      (success_page, s, breach_line "forgot" (lib.lower (strip email)) "/forgot-password" request w)
  email_checked email salt request redis_error s w = (account_server_error, s, w)

  unfoldable pub ip_checked :
      Time
      → String
      → String
      → AccountRequest
      → Verdict
      → Store
      → World
      → AccountAnswer × Store × World
  unfolding email_checked audit_logger
  ip_checked now email salt request (allowed _) s w =
      let (verdict, s') =
        limiter "forgot_email" (lib.lower (strip email))
          (record { max_count = settings.rate_limit_forgot_per_email_per_hour; per_seconds = 3600 })
          now s in
      email_checked email salt request verdict s' w
  ip_checked now email salt request (exceeded n) s w = (
    success_page,
    s,
    breach_line "forgot" request.info.ip_rate_limit_key "/forgot-password" request w,
  )
  ip_checked now email salt request redis_error s w = (account_server_error, s, w)

  unfoldable pub forgot_submitted :
      Bool → Time → String → String → AccountRequest → Store → World → AccountAnswer × Store × World
  unfolding ip_checked forgot_user
  forgot_submitted false now email salt request s w =
      let (answer, w') = forgot_user email salt request w in (answer, s, w')
  forgot_submitted true now email salt request s w =
      let (verdict, s') =
        limiter "forgot_ip" request.info.ip_rate_limit_key
          (record { max_count = settings.rate_limit_forgot_per_ip_per_min; per_seconds = 60 }) now
          s in
      ip_checked now email salt request verdict s' w

  unfoldable pub forgot_form :
      Time → String → AccountRequest → Option String → Store → World → AccountAnswer × Store × World
  unfolding forgot_submitted
  forgot_form now salt request none s w = (form_page, s, w)
  forgot_form now salt request (some email) s w =
      forgot_submitted settings.rate_limit_enabled now email salt request s w

  -- the route /forgot
  unfoldable pub forgot :
      Time → String → AccountRequest → Store → World → AccountAnswer × Store × World
  unfolding forgot_form
  forgot now salt request s w = forgot_form now salt request request.form s w

  unfoldable pub link_answer : World → Result UserError (User × World) → AccountAnswer × World
  link_answer w (ok (user, w')) = (verified_redirect, w')
  link_answer w (err invalid_email_verification_code) = (verify_error_redirect, w)
  link_answer w (err e) = (account_server_error, w)

  unfoldable pub link_verdict :
      Time → String → AccountRequest → Verdict → Store → World → AccountAnswer × Store × World
  unfolding link_answer verify_email_by_code audit_logger
  link_verdict now code request (allowed _) s w =
      let (answer, w') =
        link_answer w (verify_email_by_code lib now code (some request.tenant.id) w) in
      (answer, s, w')
  link_verdict now code request (exceeded n) s w = (
    login_redirect,
    s,
    breach_line "verify_ip" request.info.ip_rate_limit_key "/verify-link" request w,
  )
  link_verdict now code request redis_error s w = (account_server_error, s, w)

  unfoldable pub link_posted :
      Time → AccountRequest → Option String → Store → World → AccountAnswer × Store × World
  unfolding link_verdict link_answer verify_email_by_code
  link_posted now request none s w = (confirm_page, s, w)
  link_posted now request (some code) s w =
      if settings.rate_limit_enabled
      then (let (verdict, s') =
            limiter "verify_ip" request.info.ip_rate_limit_key
              (record { max_count = settings.rate_limit_verify_per_ip_per_min; per_seconds = 60 })
              now s in
          link_verdict now code request verdict s' w)
      else (let (answer, w') =
            link_answer w (verify_email_by_code lib now code (some request.tenant.id) w) in
          (answer, s, w'))

  -- the route /verify-link: a GET renders the confirmation page, a POST spends the code
  unfoldable pub verify_email_link :
      Time → AccountRequest → Store → World → AccountAnswer × Store × World
  unfolding link_posted
  verify_email_link now request s w =
      if request.is_post
      then link_posted now request request.form s w
      else elim request.query_code [
        | none ↦ (login_redirect, s, w)
        | some code ↦ (confirm_page, s, w)
      ]
