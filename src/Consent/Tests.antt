-- ===== src/Consent/Tests.antt =====
-- Consent and codes for a concrete session.
use fief.Consent.Level.{login_not_enforced}
use fief.Flow.Response.{consent_route}
use fief.Consent.Exchange.{tokens_of, exchange-issued}
use fief.Consent.Prompt.{prompt_forgotten}
use fief.Authorize.Samples.{new_login, one_word, no_origin, authorize_request, login_page}
use fief.Consent.Issue.{Consented, Issued, consent-Issued}
use fief.Flow.Current.{get_session_token, verified_session, get_login_session, live_login_session}
use fief.Samples.{browser_session, shop, alice_session, request_info, world, new_token, same, alice}
use fief.Prelude.{
  some, ◌∷◌, none, [], get, remove, exists, select_one, refl, put, ◌≡◌, if◌then◌else◌, ◌≢◌, ◌++◌,
  arith,
}
use fief.Token.{TokenRequest, authenticate_client, token, pkce, issued, token_error, invalid_grant}
use fief.Authorize.{
  Checked, authorize, with_session, check_early, check_late, answered, authorized, destination,
  create_login_session, get_authorize_client, get_authorize_redirect_uri,
  get_authorize_response_type, check_unsupported_request_parameter, get_authorize_scope,
  get_authorize_prompt, get_authorize_screen, get_authorize_code_challenge, get_nonce,
  get_authorize_acr, first_acr, has_valid_session_token, default_response_mode, new_login_session,
}
use fief.Models.{World, SessionToken, LoginSession, Client, level_one}
use fief.Consent.{
  give_code, ConsentRequest, NewCode, consent, get_authorization_code_success_redirect, consent_as,
  not_submitted, consent_in, delete_login_session, consent_body, consent_decided, get_needs_consent,
  code_redirect_of, deny, consent_form, code_row, code_redirect,
}

abbrev new_code : NewCode
new_code = record { value = "fresh"; hash = "fresh"; c_hash = "half" }

abbrev consent_request : ConsentRequest
consent_request = record {
  tenant = 1;
  session_cookie = some "old";
  login_session_cookie = some "login";
  form = not_submitted;
  info = request_info;
  new_code = new_code;
}

abbrev flow_request : ConsentRequest
flow_request = record consent_request { login_session_cookie = some "flow" }

-- the parameters of the authorize request
abbrev checked : Checked
checked = record {
  client = shop;
  redirect_uri = "uri";
  response_type = "code";
  scope = "openid" ∷ [];
  prompt = some "login";
  screen = "login";
  code_challenge = some ("verifier", "plain");
  nonce = none;
}

abbrev exchange : TokenRequest
exchange = record {
  grant_type = some "authorization_code";
  basic = some ("shop", "secret");
  client_id = none;
  client_secret = none;
  code = some "fresh";
  code_verifier = some "verifier";
  redirect_uri = some "uri";
  refresh_token = none;
  scope = none;
  info = request_info;
  new_token = new_token;
}

abbrev given : World
given = (give_code 7 new_code browser_session alice_session shop world).1

consent-Issued_example :
    (let (found, w1) =
        get_session_token same 7 consent_request.info consent_request.session_cookie world in
      (session : SessionToken) × (ls : LoginSession) × (client : Client) × Consented 7
        consent_request found w1 session ls client
      × Issued 7 consent_request.new_code session ls client world
          (consent same 7 consent_request world).1
          (code_redirect_of new_code alice_session))
unfolding consent consent_as consent_in consent_body consent_decided give_code
    get_authorization_code_success_redirect get_needs_consent get_session_token verified_session
    get_login_session live_login_session select_one exists get
consent-Issued_example =
    consent-Issued same 7 consent_request world (code_redirect_of new_code alice_session) refl

exchange-issued_example : (token same same one_word 8 exchange given).0 ≡ (
    if pkce same same one_word alice_session.code_challenge
      (code_row 7 new_code browser_session alice_session shop).code_challenge_method
      exchange.code_verifier
    then issued
        (tokens_of same same one_word exchange new_code browser_session alice_session shop alice)
    else token_error invalid_grant)
unfolding give_code get_authorization_code_success_redirect delete_login_session get remove exists
    authenticate_client select_one
exchange-issued_example =
    exchange-issued same same one_word 7 8 new_code browser_session alice_session shop world given
      (code_redirect_of new_code alice_session) exchange alice (refl, refl, refl) refl refl
      (omega arith) refl refl refl refl refl

prompt_forgotten_example :
    consent_body 8 new_code browser_session
      (new_login_session 7 new_login checked (some "state") level_one none)
      shop
      deny
      world
    ≡ (if get_needs_consent browser_session
          (new_login_session 7 new_login checked (some "state") level_one none)
          shop
          world
        then consent_form 8 new_code browser_session
            (new_login_session 7 new_login checked (some "state") level_one none)
            shop
            deny
            world
        else give_code 8 new_code browser_session
            (new_login_session 7 new_login checked (some "state") level_one none)
            shop
            world)
unfolding authorize with_session check_early check_late answered authorized destination
    create_login_session get_authorize_client get_authorize_redirect_uri get_authorize_response_type
    check_unsupported_request_parameter get_authorize_scope get_authorize_prompt
    get_authorize_screen get_authorize_code_challenge get_nonce get_authorize_acr first_acr
    has_valid_session_token get_session_token exists select_one default_response_mode get put
prompt_forgotten_example =
    prompt_forgotten one_word same no_origin 7 8 1 authorize_request new_login request_info none
      world world login_page (new_login_session 7 new_login checked (some "state") level_one none)
      new_code browser_session shop deny refl refl

login_not_enforced_example :
    (let (_, w1) =
        authorize one_word same no_origin 7 flow_request.tenant authorize_request new_login
          request_info none world in
      let (answer, w') = consent same 8 flow_request w1 in
      let row =
        code_row 8 flow_request.new_code browser_session
          (new_login_session 7 new_login checked (some "state") level_one none)
          shop in
      (login_page.route ≢ consent_route)
      × (answer
          ≡ code_redirect (
              code_redirect_of flow_request.new_code
                (new_login_session 7 new_login checked (some "state") level_one none)))
      × (w'.authorization_codes ≡ w1.authorization_codes ++ row ∷ [])
      × (row.acr ≡ level_one)
      × (row.authenticated_at ≡ browser_session.created_at))
unfolding authorize with_session check_early check_late answered authorized destination
    create_login_session get_authorize_client get_authorize_redirect_uri get_authorize_response_type
    check_unsupported_request_parameter get_authorize_scope get_authorize_prompt
    get_authorize_screen get_authorize_code_challenge get_nonce get_authorize_acr first_acr
    has_valid_session_token get_session_token exists select_one default_response_mode get put
    verified_session get_login_session live_login_session
login_not_enforced_example =
    login_not_enforced one_word same no_origin 7 8 authorize_request new_login request_info none
      world login_page flow_request browser_session alice
      (new_login_session 7 new_login checked (some "state") level_one none) shop refl refl
      (refl, refl, refl) refl
