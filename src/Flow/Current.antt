-- ===== src/Flow/Current.antt =====
-- Who a request is: fief/dependencies/session_token.py, and the login session of its cookie,
-- fief/dependencies/auth.py, with the lookups of fief/repositories/session_token.py and
-- fief/repositories/login_session.py. `get_token_hash` is the HMAC of fief/crypto/token.py. The user
-- of a session and the client of a login session exist: the database deletes the rows with them.
use fief.Flow.{RequestInfo}
use fief.Prelude.{
  ℕ, String, Option, List, none, some, update, Result, select_one, err, ok, str_eq, [], ◌==◌, ◌∷◌,
  ◌&&◌, if◌then◌else◌, not, ◌>>=◌, require, ◌>>◌, get, guard,
}
use fief.Models.{Time, LoginSession, SessionToken, World, Client, User, is_expired}

-- SessionTokenRepository.get_by_token with `fresh`
abbrev pub session_by_token : Time → String → World → Option SessionToken
session_by_token now hash w =
    select_one (λ t. str_eq t.token hash && not (is_expired now t.expires_at)) w.session_tokens

-- SessionTokenRepository.touch_last_seen
abbrev pub touch_session : Time → SessionToken → String → World → World
touch_session now t ip w = record w {
  session_tokens =
      update (λ s. s.id == t.id) (λ s. record s { last_seen_at = some now; last_seen_ip = some ip })
        w.session_tokens;
}

abbrev pub touch_found : Time → Option SessionToken → String → World → World
touch_found now none ip w = w
touch_found now (some t) ip w = touch_session now t ip w

-- what the routes that need a session answer without one
pub data SessionError : Type 0 where
  to_login to_verify_email : SessionError

-- LoginError, and the redirect that starts an expired login session again
pub data LoginSessionError : Type 0 where
  invalid_session missing_session regenerate : LoginSessionError

find_login_session : String → List (ℕ × LoginSession) → Option LoginSession
find_login_session token [] = none
find_login_session token ((_, ls) ∷ l) =
    let rest = find_login_session token l in if str_eq ls.token token then some ls else rest

abbrev pub client_of : LoginSession → World → Option Client
client_of ls w = select_one (λ (c : Client). c.id == ls.client_id) w.clients

module _ (get_token_hash : String → String) where
  unfoldable pub get_session_token :
      Time → RequestInfo → Option String → World → Option SessionToken × World
  get_session_token now info none w = (none, w)
  get_session_token now info (some token) w =
      let found = session_by_token now (get_token_hash token) w in
      (found, touch_found now found info.ip_raw w)

-- get_session_token_or_login, from the session that was found: it and its user
unfoldable pub session_or_login :
    ℕ → Option SessionToken → World → Result SessionError (SessionToken × User)
session_or_login tenant none w = err to_login
session_or_login tenant (some t) w = do
  user ← require (get w.users t.user_id) to_login
  guard (user.tenant_id == tenant) to_login
  ok (t, user)

-- get_verified_email_user_from_session_token_or_verify
unfoldable pub verified_session :
    ℕ → Option SessionToken → World → Result SessionError (SessionToken × User)
unfolding session_or_login
verified_session tenant found w = do
  s ← session_or_login tenant found w
  guard s.1.email_verified to_verify_email
  ok s

-- LoginSessionRepository.get_by_token, expired or not
unfoldable pub login_session_by_token : String → World → Option LoginSession
unfolding find_login_session
login_session_by_token token w = find_login_session token w.login_sessions.entries

-- the client of a login session that is found must be the tenant's, and the session must be alive
unfoldable pub live_login_session :
    Time → ℕ → String → World → Result LoginSessionError (LoginSession × Client)
unfolding login_session_by_token
live_login_session now tenant token w = do
  ls ← require (login_session_by_token token w) invalid_session
  client ← require (client_of ls w) invalid_session
  guard (client.tenant_id == tenant) invalid_session
  guard (not (is_expired now ls.expires_at)) regenerate
  ok (ls, client)

-- get_login_session, which is required
unfoldable pub get_login_session :
    Time → ℕ → Option String → World → Result LoginSessionError (LoginSession × Client)
unfolding live_login_session
get_login_session now tenant none w = err missing_session
get_login_session now tenant (some token) w = live_login_session now tenant token w
