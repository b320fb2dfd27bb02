-- ===== src/Flow/Response.antt =====
-- What a handler answers with: fief/apps/auth/routers/auth.py.
use fief.Models.{Time}
use fief.RateLimit.{RateLimitWindow, Verdict}
use fief.Prelude.{Option, String, none, Bool, ℕ}

-- the named routes that the handlers redirect to
pub data Route : Type 0 where
  login_route register_route consent_route profile_route : Route
  mfa_totp_route mfa_index_route verify_email_request_route : Route

-- A page is rendered, a redirect is sent, or the form is rendered with an error: its code and the
-- `Retry-After` header. A `RedisError` that no handler catches is a server error.
pub data Answer : Type 0 where
  page : Answer
  redirect : Route → Answer
  form_error : String → Option ℕ → Answer
  server_error : Answer

-- the answer with the session cookie that it sets, and the login hint cookie
pub record Response : Type 0 where
  pub answer : Answer
  pub session_cookie : Option String
  pub login_hint : Option String

abbrev pub plain : Answer → Response
plain a = record { answer = a; session_cookie = none; login_hint = none }

-- The rate limiter as a handler sees it: scope, key, policy, time and the state of the store.
abbrev pub Limiter : Type 0 → Type 0
Limiter Store = String → String → RateLimitWindow → Time → Store → Verdict × Store

-- what the handlers read of the settings
pub record Settings : Type 0 where
  pub rate_limit_enabled : Bool
  pub rate_limit_login_per_ip_per_min : ℕ
  pub rate_limit_login_per_email_per_min : ℕ
  pub rate_limit_mfa_per_ip_per_min : ℕ
