-- ===== src/Authorize/Tests.antt =====
-- Requests at the authorize endpoint.
use fief.Authorize.Stored.{IsSound, Challenges, authorize-IsSound}
use fief.Flow.Current.{get_session_token}
use fief.Samples.{world, same, request_info}
use fief.Models.{LoginSession}
use fief.Authorize.Redirects.{IsLocal, authorize-IsLocal}
use fief.Prelude.{some, exists, select_one, none, refl, get, ◌≡◌}
use fief.Authorize.Samples.{authorize_request, one_word, no_origin, new_login, login_page}
use fief.Authorize.{
  AuthorizeRequest, authorize, with_session, check_early, answered, check_late,
  get_authorize_client, authorized, destination, get_authorize_redirect_uri,
  get_authorize_response_type, create_login_session, check_unsupported_request_parameter,
  get_authorize_scope, get_authorize_prompt, get_authorize_screen, get_authorize_code_challenge,
  default_response_mode, get_nonce, get_authorize_acr, redirected, first_acr, invalid_scope,
  has_valid_session_token,
}

-- a request without "openid"
abbrev profile_request : AuthorizeRequest
profile_request = record authorize_request { scope = some "profile" }

authorize-IsLocal_example :
    IsLocal 1 profile_request world (redirected invalid_scope "uri" "query" (some "state"))
unfolding authorize with_session check_early answered get_authorize_client
    get_authorize_redirect_uri get_authorize_response_type check_unsupported_request_parameter
    get_authorize_scope exists select_one default_response_mode
authorize-IsLocal_example =
    authorize-IsLocal one_word same no_origin 7 1 profile_request new_login request_info none world
      (redirected invalid_scope "uri" "query" (some "state")) refl

authorize-IsSound_example :
    (let (_, w') =
        authorize one_word same no_origin 7 1 authorize_request new_login request_info none world in
      (ls : LoginSession) × (get w'.login_sessions new_login.id ≡ some ls)
      × (ls.token ≡ login_page.login_session_cookie)
      × IsSound 1 authorize_request world ls
      × Challenges authorize_request ls)
unfolding authorize with_session check_early check_late answered authorized destination
    create_login_session get_authorize_client get_authorize_redirect_uri get_authorize_response_type
    check_unsupported_request_parameter get_authorize_scope get_authorize_prompt
    get_authorize_screen get_authorize_code_challenge get_nonce get_authorize_acr first_acr
    has_valid_session_token get_session_token exists select_one default_response_mode
authorize-IsSound_example =
    authorize-IsSound one_word same no_origin 7 1 authorize_request new_login request_info none
      world login_page refl
