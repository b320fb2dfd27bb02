-- ===== src/Consent.antt =====
-- Consent and the authorization code: the route /consent of fief/apps/auth/routers/auth.py,
-- `get_needs_consent` and `get_consent_prompt` of fief/dependencies/auth.py, and the grants, codes and
-- login sessions of fief/services/authentication_flow.py, with fief/repositories/grant.py. What the
-- tokens of a hybrid response hold is left out: `CodeRedirect` says which of them are there.
pub mod Issue
pub mod Exchange
pub mod Prompt
pub mod Level
mod Tests
use fief.Token.{is_subset}
use fief.Flow.{RequestInfo}
use fief.Authorize.{one_of}
use fief.Models.{
  SessionToken, LoginSession, Time, Grant, World, Client, AuthorizationCode, User, seconds,
}
use fief.Flow.Current.{
  SessionError, LoginSessionError, get_session_token, verified_session, get_login_session,
}
use fief.Prelude.{
  ℕ, List, String, Option, Result, remove, err, ◌∷◌, Bool, ◌++◌, if◌then◌else◌, none, select_one,
  [], ◌==◌, ok, not, false, ◌&&◌, some, str_eq, update, ◌+◌,
}

-- GrantRepository.get_by_user_and_client
abbrev pub is_grant_of : ℕ → ℕ → Grant → Bool
is_grant_of user client g = (g.user_id == user) && (g.client_id == client)

abbrev pub grant_of : ℕ → ℕ → World → Option Grant
grant_of user client w = select_one (is_grant_of user client) w.grants

unfoldable pub create_or_update_grant : ℕ → ℕ → List String → World → World
create_or_update_grant user client scope w = elim (grant_of user client w) [
  | none ↦ record w {
    grants = w.grants ++ record { user_id = user; client_id = client; scope = scope } ∷ [];
  }
  | some _ ↦ record w {
    grants = update (is_grant_of user client) (λ g. record g { scope = scope }) w.grants;
  }
]

-- a grant that covers the scope is there
abbrev pub covered : List String → Option Grant → Bool
covered scope none = false
covered scope (some g) = is_subset scope g.scope

-- with a session, which the route requires
unfoldable pub get_needs_consent : SessionToken → LoginSession → Client → World → Bool
get_needs_consent session ls client w =
    not client.first_party && not (covered ls.scope (grant_of session.user_id client.id w))

abbrev pub is_prompt : String → Option String → Bool
is_prompt p none = false
is_prompt p (some q) = str_eq q p

-- AuthenticationFlow.delete_login_session
unfoldable pub delete_login_session : LoginSession → World → World
delete_login_session ls w = record w { login_sessions = remove w.login_sessions ls.id }

-- what `generate_token` gives for a code, with the hash of the code that an ID token shows
pub record NewCode : Type 0 where
  pub value : String
  pub hash : String
  pub c_hash : String

pub record CodeRedirect : Type 0 where
  pub redirect_uri : String
  pub response_mode : String
  pub code : String
  pub state : Option String
  pub access_token : Bool
  pub id_token : Bool

abbrev pub code_row : Time → NewCode → SessionToken → LoginSession → Client → AuthorizationCode
code_row now new session ls client = record {
  code = new.hash;
  c_hash = new.c_hash;
  redirect_uri = ls.redirect_uri;
  scope = ls.scope;
  authenticated_at = session.created_at;
  nonce = ls.nonce;
  acr = ls.acr;
  code_challenge = ls.code_challenge;
  code_challenge_method = elim ls.code_challenge [
    | none ↦ none
    | some _ ↦ ls.code_challenge_method
  ];
  user_id = session.user_id;
  client_id = client.id;
  expires_at = now + seconds client.authorization_code_lifetime_seconds;
}

abbrev pub code_redirect_of : NewCode → LoginSession → CodeRedirect
code_redirect_of new ls = record {
  redirect_uri = ls.redirect_uri;
  response_mode = ls.response_mode;
  code = new.value;
  state = ls.state;
  access_token = one_of ls.response_type ("code token" ∷ "code id_token token" ∷ []);
  id_token = one_of ls.response_type ("code id_token" ∷ "code id_token token" ∷ []);
}

unfoldable pub get_authorization_code_success_redirect :
    Time → NewCode → SessionToken → LoginSession → Client → World → CodeRedirect × World
get_authorization_code_success_redirect now new session ls client w = (
  code_redirect_of new ls,
  record w {
    authorization_codes = w.authorization_codes ++ code_row now new session ls client ∷ [];
  },
)

-- The route answers with an error of the session or of the login session, with an error or a code at
-- the redirect URI, or with the form. A form without "allow" and "deny" leaves the response unbound.
pub data ConsentAnswer : Type 0 where
  session_error : SessionError → ConsentAnswer
  login_session_error : LoginSessionError → ConsentAnswer
  consent_needed : String → String → Option String → ConsentAnswer
  code_redirect : CodeRedirect → ConsentAnswer
  access_denied : String → String → Option String → ConsentAnswer
  consent_page : ConsentAnswer
  unbound_response : ConsentAnswer

-- the button of the submitted form
pub data ConsentForm : Type 0 where
  not_submitted allow deny neither : ConsentForm

unfoldable pub give_code :
    Time → NewCode → SessionToken → LoginSession → Client → World → ConsentAnswer × World
unfolding get_authorization_code_success_redirect delete_login_session
give_code now new session ls client w =
    let (redirect, w') = get_authorization_code_success_redirect now new session ls client w in
    (code_redirect redirect, delete_login_session ls w')

unfoldable pub consent_form :
    Time
    → NewCode
    → SessionToken
    → LoginSession
    → Client
    → ConsentForm
    → World
    → ConsentAnswer × World
unfolding give_code delete_login_session
consent_form now new session ls client not_submitted w = (consent_page, w)
consent_form now new session ls client allow w =
    give_code now new session ls client
      (create_or_update_grant session.user_id client.id ls.scope w)
consent_form now new session ls client deny w =
    (access_denied ls.redirect_uri ls.response_mode ls.state, delete_login_session ls w)
consent_form now new session ls client neither w = (unbound_response, w)

-- get_consent_prompt, and the body of the route, from whether consent is needed
unfoldable pub consent_decided :
    Bool
    → Time
    → NewCode
    → SessionToken
    → LoginSession
    → Client
    → ConsentForm
    → World
    → ConsentAnswer × World
unfolding consent_form
consent_decided needs_consent now new session ls client form w =
    if needs_consent && is_prompt "none" ls.prompt
    then (consent_needed ls.redirect_uri ls.response_mode ls.state, delete_login_session ls w)
    else if not needs_consent && not (is_prompt "consent" ls.prompt)
    then give_code now new session ls client w
    else consent_form now new session ls client form w

unfoldable pub consent_body :
    Time
    → NewCode
    → SessionToken
    → LoginSession
    → Client
    → ConsentForm
    → World
    → ConsentAnswer × World
unfolding consent_decided
consent_body now new session ls client form w =
    consent_decided (get_needs_consent session ls client w) now new session ls client form w

-- what a request brings
pub record ConsentRequest : Type 0 where
  pub tenant : ℕ
  pub session_cookie : Option String
  pub login_session_cookie : Option String
  pub form : ConsentForm
  pub info : RequestInfo
  pub new_code : NewCode

unfoldable pub consent_in :
    Time
    → ConsentRequest
    → SessionToken
    → Result LoginSessionError (LoginSession × Client)
    → World
    → ConsentAnswer × World
unfolding consent_body
consent_in now r session (err e) w = (login_session_error e, w)
consent_in now r session (ok (ls, client)) w =
    consent_body now r.new_code session ls client r.form w

unfoldable pub consent_as :
    Time
    → ConsentRequest
    → Result SessionError (SessionToken × User)
    → World
    → ConsentAnswer × World
unfolding consent_in
consent_as now r (err e) w = (session_error e, w)
consent_as now r (ok (session, user)) w =
    consent_in now r session (get_login_session now r.tenant r.login_session_cookie w) w

module _ (get_token_hash : String → String) where
  -- the route /consent
  unfoldable pub consent : Time → ConsentRequest → World → ConsentAnswer × World
  unfolding consent_as
  consent now r w =
      let (found, w') = get_session_token get_token_hash now r.info r.session_cookie w in
      consent_as now r (verified_session r.tenant found w') w'
