-- ===== src/Authorize.antt =====
-- The authorize endpoint: the parameter checks of fief/dependencies/auth.py, the tables of
-- fief/services/response_type.py and fief/services/acr.py, the route /authorize of
-- fief/apps/auth/routers/auth.py and `create_login_session` of fief/services/authentication_flow.py.
-- The checks run in the order in which the framework resolves the dependencies. `words` is
-- `str.split()`; `verified_origin` gives the origin that the verifier of Branding accepts for a client.
pub mod Redirects
pub mod Samples
pub mod Stored
mod Tests
use fief.Flow.Current.{get_session_token}
use fief.Flow.{RequestInfo}
use fief.Flow.Response.{Route, consent_route, register_route, login_route}
use fief.Models.{
  Acr, Client, Time, SessionToken, World, LoginSession, level_zero, level_one, seconds,
}
use fief.Prelude.{
  List, Option, String, Bool, ℕ, true, false, if◌then◌else◌, ◌∷◌, exists, Result, [], guard, ◌>>=◌,
  ◌>>◌, none, ok, ◌&&◌, some, err, put, str_eq, not, ltb, is_some, require, ◌+◌, select_one, ◌||◌,
  ◌==◌,
}

pub data RedirectError : Type 0 where
  invalid_request request_not_supported invalid_scope : RedirectError
  login_required consent_required : RedirectError

-- An error of the client is shown as a page; any other goes back to the redirect URI, with the
-- response mode and the state.
pub data AuthorizeError : Type 0 where
  invalid_client invalid_redirect_uri : AuthorizeError
  redirected : RedirectError → String → String → Option String → AuthorizeError

pub record AuthorizeRequest : Type 0 where
  pub client_id : Option String
  pub redirect_uri : Option String
  pub response_type : Option String
  pub request : Option String
  pub scope : Option String
  pub prompt : Option String
  pub screen : String
  pub code_challenge : Option String
  pub code_challenge_method : Option String
  pub nonce : Option String
  pub state : Option String
  pub login_hint : Option String
  pub acr_values : Option String
  pub max_age : Option ℕ

-- x in xs
abbrev pub one_of : String → List String → Bool
one_of x xs = exists (str_eq x) xs

abbrev pub hybrid_response_types : List String
hybrid_response_types = "code id_token" ∷ "code token" ∷ "code id_token token" ∷ []

abbrev pub allowed_response_types : List String
allowed_response_types = "code" ∷ hybrid_response_types

-- DEFAULT_RESPONSE_MODE, on the allowed response types
unfoldable pub default_response_mode : String → String
default_response_mode response_type = if str_eq response_type "code" then "query" else "fragment"

unfoldable pub get_authorize_client : ℕ → Option String → World → Result AuthorizeError Client
get_authorize_client tenant client_id w = do
  id ← require client_id invalid_client
  require (select_one (λ c. str_eq c.client_id id && (c.tenant_id == tenant)) w.clients)
      invalid_client

unfoldable pub get_authorize_redirect_uri : Option String → Client → Result AuthorizeError String
get_authorize_redirect_uri redirect_uri client = do
  uri ← require redirect_uri invalid_redirect_uri
  guard (one_of uri client.redirect_uris) invalid_redirect_uri
  ok uri

unfoldable pub get_authorize_response_type :
    AuthorizeRequest → String → Result AuthorizeError String
get_authorize_response_type r uri = do
  response_type ← require r.response_type (redirected invalid_request uri "query" r.state)
  guard (one_of response_type allowed_response_types)
      (redirected invalid_request uri "query" r.state)
  ok response_type

-- the later checks know where an error goes: the redirect URI and the response mode
module _ (r : AuthorizeRequest) (uri mode : String) where
  abbrev back : RedirectError → AuthorizeError
  back e = redirected e uri mode r.state

  unfoldable pub check_unsupported_request_parameter : Result AuthorizeError (Unit {0})
  check_unsupported_request_parameter = guard (not (is_some r.request)) (back request_not_supported)

  unfoldable pub get_authorize_scope : (String → List String) → Result AuthorizeError (List String)
  get_authorize_scope words = do
    scope ← require r.scope (back invalid_request)
    guard (one_of "openid" (words scope)) (back invalid_scope)
    ok (words scope)

  -- prompt is not None and prompt not in [...]; prompt in ["none", "consent"] without a session
  unfoldable pub get_authorize_prompt : Option SessionToken → Result AuthorizeError (Option String)
  get_authorize_prompt session = elim r.prompt [
    | none ↦ ok none
    | some prompt ↦ do
      guard (one_of prompt ("none" ∷ "login" ∷ "consent" ∷ [])) (back invalid_request)
      guard (not (one_of prompt ("none" ∷ "consent" ∷ [])) || is_some session) (back login_required)
      ok (some prompt)
  ]

  unfoldable pub get_authorize_screen : Result AuthorizeError String
  get_authorize_screen = do
    guard (one_of r.screen ("login" ∷ "register" ∷ [])) (back invalid_request)
    ok r.screen

  unfoldable pub get_authorize_code_challenge :
      Option String → Option String → Result AuthorizeError (Option (String × String))
  get_authorize_code_challenge none method = ok none
  get_authorize_code_challenge (some challenge) none = err (back invalid_request)
  get_authorize_code_challenge (some challenge) (some method) = do
    guard (one_of method ("plain" ∷ "S256" ∷ [])) (back invalid_request)
    ok (some (challenge, method))

  unfoldable pub get_nonce : String → Result AuthorizeError (Option String)
  get_nonce response_type = do
    guard (is_some r.nonce || not (one_of response_type hybrid_response_types))
        (back invalid_request)
    ok r.nonce

-- the first value that is a level
unfoldable pub first_acr : List String → Acr
first_acr [] = level_zero
first_acr (v ∷ l) =
    let rest = first_acr l in
    if str_eq v "0" then level_zero else if str_eq v "1" then level_one else rest

unfoldable pub get_authorize_acr : (String → List String) → Option String → Acr
unfolding first_acr
get_authorize_acr words none = level_zero
get_authorize_acr words (some values) = first_acr (words values)

-- ACR.__le__
abbrev pub acr_le : Acr → Acr → Bool
acr_le level_zero b = true
acr_le level_one level_zero = false
acr_le level_one level_one = true

-- the session is younger than `max_age` seconds, where that is given
abbrev pub young : Time → SessionToken → Option ℕ → Bool
young now t none = true
young now t (some age) = ltb now (t.created_at + seconds age)

unfoldable pub has_valid_session_token : Time → Option ℕ → Option SessionToken → Bool
has_valid_session_token now max_age none = false
has_valid_session_token now max_age (some t) = young now t max_age

-- what the checks give the route
pub record Checked : Type 0 where
  pub client : Client
  pub redirect_uri : String
  pub response_type : String
  pub scope : List String
  pub prompt : Option String
  pub screen : String
  pub code_challenge : Option (String × String)
  pub nonce : Option String

-- the id, the token and the lifetime of the row that `create_login_session` inserts
pub record NewLoginSession : Type 0 where
  pub id : ℕ
  pub token : String
  pub lifetime_seconds : ℕ

-- the redirect, the cookie of the login session, and the login hint that is set
pub record AuthorizeAnswer : Type 0 where
  pub route : Route
  pub login_session_cookie : String
  pub login_hint : Option String

abbrev pub new_login_session :
    Time → NewLoginSession → Checked → Option String → Acr → Option String → LoginSession
new_login_session now new c state acr origin = record {
  id = new.id;
  token = new.token;
  response_type = c.response_type;
  response_mode = default_response_mode c.response_type;
  redirect_uri = c.redirect_uri;
  scope = c.scope;
  prompt = none;
  state = state;
  nonce = c.nonce;
  acr = acr;
  code_challenge = elim c.code_challenge [ none ↦ none | some (challenge, _) ↦ some challenge ];
  code_challenge_method = elim c.code_challenge [ none ↦ none | some (_, method) ↦ some method ];
  client_id = c.client.id;
  branding_origin = origin;
  expires_at = now + seconds new.lifetime_seconds;
  mfa_pending_user_id = none;
  mfa_attempts_count = 0;
  mfa_locked_until = none;
}

-- AuthenticationFlow.create_login_session, which takes no prompt
unfoldable pub create_login_session :
    Time → NewLoginSession → Checked → Option String → Acr → Option String → World → String × World
create_login_session now new c state acr origin w = (
  new.token,
  record w {
    login_sessions = put w.login_sessions new.id (new_login_session now new c state acr origin);
  },
)

-- prompt == "login"
abbrev pub is_login : Option String → Bool
is_login none = false
is_login (some prompt) = str_eq prompt "login"

-- the page, and the level that the login session will attest
unfoldable pub destination : Bool → Option String → Acr → String → Route × Acr
destination valid prompt requested screen =
    if valid && not (is_login prompt) && acr_le requested level_zero
    then (consent_route, level_zero)
    else if str_eq screen "register"
    then (register_route, level_one)
    else (login_route, level_one)

-- what the checks before the session is read give
pub record Early : Type 0 where
  pub client : Client
  pub redirect_uri : String
  pub response_type : String
  pub scope : List String

module _ (words : String → List String) where
  unfoldable pub check_early : ℕ → AuthorizeRequest → World → Result AuthorizeError Early
  unfolding get_authorize_client get_authorize_redirect_uri get_authorize_response_type
  check_early tenant r w = do
    client ← get_authorize_client tenant r.client_id w
    uri ← get_authorize_redirect_uri r.redirect_uri client
    response_type ← get_authorize_response_type r uri
    check_unsupported_request_parameter r uri (default_response_mode response_type)
    scope ← get_authorize_scope r uri (default_response_mode response_type) words
    ok (record {
      client = client;
      redirect_uri = uri;
      response_type = response_type;
      scope = scope;
    })

  unfoldable pub check_late :
      AuthorizeRequest → Option SessionToken → Early → Result AuthorizeError Checked
  check_late r session e = do
    let mode = default_response_mode e.response_type
    prompt ← get_authorize_prompt r e.redirect_uri mode session
    screen ← get_authorize_screen r e.redirect_uri mode
    challenge ←
        get_authorize_code_challenge r e.redirect_uri mode r.code_challenge r.code_challenge_method
    nonce ← get_nonce r e.redirect_uri mode e.response_type
    ok (record {
      client = e.client;
      redirect_uri = e.redirect_uri;
      response_type = e.response_type;
      scope = e.scope;
      prompt = prompt;
      screen = screen;
      code_challenge = challenge;
      nonce = nonce;
    })

  -- the route, from the parameters that passed
  unfoldable pub authorized :
      Time
      → AuthorizeRequest
      → NewLoginSession
      → Option String
      → Option SessionToken
      → Checked
      → World
      → AuthorizeAnswer × World
  unfolding create_login_session destination has_valid_session_token get_authorize_acr
  authorized now r new origin session c w =
      let valid = has_valid_session_token now r.max_age session in
      let (route, acr) =
        destination valid c.prompt (get_authorize_acr words r.acr_values) c.screen in
      let (cookie, w') = create_login_session now new c r.state acr origin w in
      (record { route = route; login_session_cookie = cookie; login_hint = r.login_hint }, w')

  module _ (get_token_hash : String → String) (verified_origin : Client → Option String) where
    unfoldable pub answered :
        Time
        → AuthorizeRequest
        → NewLoginSession
        → Option SessionToken
        → Result AuthorizeError Checked
        → World
        → Result AuthorizeError AuthorizeAnswer × World
    unfolding authorized
    answered now r new session (err e) w = (err e, w)
    answered now r new session (ok c) w =
        let (a, w') = authorized now r new (verified_origin c.client) session c w in (ok a, w')

    unfoldable pub with_session :
        Time
        → AuthorizeRequest
        → NewLoginSession
        → RequestInfo
        → Option String
        → Result AuthorizeError Early
        → World
        → Result AuthorizeError AuthorizeAnswer × World
    unfolding answered
    with_session now r new info cookie (err e) w = (err e, w)
    with_session now r new info cookie (ok early) w =
        let (session, w') = get_session_token get_token_hash now info cookie w in
        answered now r new session (check_late r session early) w'

    -- GET /authorize
    unfoldable pub authorize :
        Time
        → ℕ
        → AuthorizeRequest
        → NewLoginSession
        → RequestInfo
        → Option String
        → World
        → Result AuthorizeError AuthorizeAnswer × World
    unfolding with_session
    authorize now tenant r new info cookie w =
        with_session now r new info cookie (check_early tenant r w) w
