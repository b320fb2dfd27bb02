-- ===== src/Flow.antt =====
-- Sessions of the authentication flow: fief/services/authentication_flow.py, and the revocations of
-- fief/services/security/device_sessions.py with the DELETE statements of
-- fief/repositories/session_token.py and fief/repositories/refresh_token.py.
mod Revoke
mod Tests
pub mod Devices
pub mod DeviceList
pub mod DeviceRevoke
pub mod Response
pub mod Current
unfoldable pub use Revoke.*
pub mod Sessions
use fief.Models.{Time, SessionToken, LoginSession, World, User, seconds}
use fief.Prelude.{Option, String, ℕ, none, ◌+◌, put, delete, ◌++◌, some, ◌∷◌, ◌==◌, []}

-- What a request brings: `get_client_ip_info(request)` and its User-Agent header.
pub record RequestInfo : Type 0 where
  pub ip_raw : String
  pub ip_rate_limit_key : String
  pub user_agent : Option String

-- What `generate_token` and the primary key's `uuid4` give for a new session row, and the configured
-- lifetime of sessions in seconds.
pub record NewToken : Type 0 where
  pub id : ℕ
  pub value : String
  pub hash : String
  pub lifetime_seconds : ℕ

abbrev pub session_row : Time → ℕ → RequestInfo → NewToken → SessionToken
session_row now user_id request new = record {
  id = new.id;
  token = new.hash;
  user_id = user_id;
  created_at = now;
  expires_at = now + seconds new.lifetime_seconds;
  created_ip = some request.ip_raw;
  created_user_agent = request.user_agent;
  last_seen_at = some now;
  last_seen_ip = some request.ip_raw;
}

-- The row is created and the session cookie is set to the returned value; the id of the row is
-- `last_minted_session_token_id`.
unfoldable pub create_session_token : Time → ℕ → RequestInfo → NewToken → World → String × World
create_session_token now user_id request new w = (
  new.value,
  record w { session_tokens = w.session_tokens ++ session_row now user_id request new ∷ [] },
)

-- session_token_repository.delete(session_token)
unfoldable pub delete_session_token : SessionToken → World → World
delete_session_token t w = record w { session_tokens = delete (λ s. s.id == t.id) w.session_tokens }

abbrev pub delete_current : Option SessionToken → World → World
delete_current none w = w
delete_current (some t) w = delete_session_token t w

unfoldable pub rotate_session_token :
    Time → ℕ → RequestInfo → NewToken → Option SessionToken → World → String × World
unfolding create_session_token delete_session_token
rotate_session_token now user_id request new session_token w =
    create_session_token now user_id request new (delete_current session_token w)

-- login_session_repository.update(login_session)
abbrev pub update_login_session : LoginSession → World → World
update_login_session ls w = record w { login_sessions = put w.login_sessions ls.id ls }

abbrev pub without_mfa_state : LoginSession → LoginSession
without_mfa_state ls = record ls {
  mfa_pending_user_id = none;
  mfa_attempts_count = 0;
  mfa_locked_until = none;
}

unfoldable pub clear_mfa_state : LoginSession → World → World
clear_mfa_state ls w = update_login_session (without_mfa_state ls) w

unfoldable pub complete_login_after_mfa :
    Time
    → LoginSession
    → User
    → RequestInfo
    → NewToken
    → Option SessionToken
    → World
    → String × World
unfolding clear_mfa_state
complete_login_after_mfa now ls user request new session_token w =
    let (cookie, w') = rotate_session_token now user.id request new session_token w in
    (cookie, clear_mfa_state ls w')
