-- ===== src/Authorize/Samples.antt =====
-- A concrete request at the authorize endpoint.
use fief.Flow.Response.{login_route}
use fief.Models.{Client}
use fief.Prelude.{String, List, Option, some, ◌∷◌, none, []}
use fief.Authorize.{NewLoginSession, AuthorizeRequest, AuthorizeAnswer}

abbrev pub one_word : String → List String
one_word s = s ∷ []

abbrev pub no_origin : Client → Option String
no_origin client = none

abbrev pub authorize_request : AuthorizeRequest
authorize_request = record {
  client_id = some "shop";
  redirect_uri = some "uri";
  response_type = some "code";
  request = none;
  scope = some "openid";
  prompt = some "login";
  screen = "login";
  code_challenge = some "verifier";
  code_challenge_method = some "plain";
  nonce = none;
  state = some "state";
  login_hint = none;
  acr_values = none;
  max_age = none;
}

abbrev pub new_login : NewLoginSession
new_login = record { id = 10; token = "flow"; lifetime_seconds = 600 }

-- the page for this request
abbrev pub login_page : AuthorizeAnswer
login_page = record { route = login_route; login_session_cookie = "flow"; login_hint = none }
