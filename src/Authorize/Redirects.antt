-- ===== src/Authorize/Redirects.antt =====
-- Where /authorize of fief/apps/auth/routers/auth.py sends an error.
use fief.Flow.Current.{get_session_token}
use fief.Flow.{RequestInfo}
use fief.Models.{World, Client, SessionToken, Time}
use fief.Authorize.{
  AuthorizeRequest, check_late, AuthorizeError, redirected, get_authorize_prompt,
  get_authorize_screen, invalid_client, get_authorize_code_challenge, get_authorize_client,
  invalid_redirect_uri, get_nonce, one_of, Early, check_early, get_authorize_redirect_uri,
  get_authorize_response_type, check_unsupported_request_parameter, get_authorize_scope,
  allowed_response_types, authorize, NewLoginSession, answered, with_session, Checked,
}
use fief.Prelude.{
  String, ℕ, List, ◌≡◌, ok, Option, some, true, err, arith, Result-cases, inl, inr, Result, ◌∙◌,
  refl, ap,
}

-- An error is shown as a page, or goes to a redirect URI of the client.
abbrev pub IsLocal : ℕ → AuthorizeRequest → World → AuthorizeError → Type 0
IsLocal tenant r w invalid_client = Unit {0}
IsLocal tenant r w invalid_redirect_uri = Unit {0}
IsLocal tenant r w (redirected e uri mode state) =
    (client : Client) × (get_authorize_client tenant r.client_id w ≡ ok client)
    × (r.redirect_uri ≡ some uri)
    × (one_of uri client.redirect_uris ≡ true)
    × (state ≡ r.state)

module _ (words : String → List String) where
  abbrev GoesTo : AuthorizeRequest → String → AuthorizeError → Type 0
  GoesTo r uri invalid_client = Unit {0}
  GoesTo r uri invalid_redirect_uri = Unit {0}
  GoesTo r uri (redirected e u mode state) = (u ≡ uri) × (state ≡ r.state)

  late-GoesTo :
      (r : AuthorizeRequest) (session : Option SessionToken) (early : Early) (e : AuthorizeError)
      → check_late words r session early ≡ err e
      → GoesTo r early.redirect_uri e
  unfolding check_late get_authorize_prompt get_authorize_screen get_authorize_code_challenge
      get_nonce
  late-GoesTo r session early e h = ground arith

  -- an error goes to the redirect URI of the request, which is one of the client's
  abbrev LocalTo : AuthorizeRequest → Client → AuthorizeError → Type 0
  LocalTo r client invalid_client = Unit {0}
  LocalTo r client invalid_redirect_uri = Unit {0}
  LocalTo r client (redirected e uri mode state) =
      (r.redirect_uri ≡ some uri) × (one_of uri client.redirect_uris ≡ true) × (state ≡ r.state)

  early-LocalTo :
      (tenant : ℕ) (r : AuthorizeRequest) (w : World) (e : AuthorizeError) (client : Client)
      → get_authorize_client tenant r.client_id w ≡ ok client
      → check_early words tenant r w ≡ err e
      → LocalTo r client e
  unfolding check_early get_authorize_redirect_uri get_authorize_response_type
      check_unsupported_request_parameter get_authorize_scope
  early-LocalTo tenant r w e client found h = ground arith

  no_client :
      (tenant : ℕ) (r : AuthorizeRequest) (w : World) (e e' : AuthorizeError)
      → get_authorize_client tenant r.client_id w ≡ err e'
      → check_early words tenant r w ≡ err e
      → e ≡ invalid_client
  unfolding check_early get_authorize_client
  no_client tenant r w e e' lost h = ground arith

  locally :
      (tenant : ℕ) (r : AuthorizeRequest) (w : World) (e : AuthorizeError) (client : Client)
      → get_authorize_client tenant r.client_id w ≡ ok client
      → LocalTo r client e
      → IsLocal tenant r w e
  locally tenant r w invalid_client client found h = tt
  locally tenant r w invalid_redirect_uri client found h = tt
  locally tenant r w (redirected e uri mode state) client found h = (client, found, h.0, h.1, h.2)

  early-IsLocal :
      (tenant : ℕ) (r : AuthorizeRequest) (w : World) (e : AuthorizeError)
      → check_early words tenant r w ≡ err e
      → IsLocal tenant r w e
  early-IsLocal tenant r w e h = elim (Result-cases (get_authorize_client tenant r.client_id w)) [
    | inl (client, found) ↦
        locally tenant r w e client found (early-LocalTo tenant r w e client found h)
    | inr (e', lost) ↦ rw (no_client tenant r w e e' lost h) tt
  ]

  pub early_client :
      (tenant : ℕ) (r : AuthorizeRequest) (w : World) (early : Early)
      → check_early words tenant r w ≡ ok early
      → (get_authorize_client tenant r.client_id w ≡ ok early.client)
        × (r.redirect_uri ≡ some early.redirect_uri)
        × (one_of early.redirect_uri early.client.redirect_uris ≡ true)
        × (one_of early.response_type allowed_response_types ≡ true)
        × (one_of "openid" early.scope ≡ true)
  unfolding check_early get_authorize_redirect_uri get_authorize_response_type
      check_unsupported_request_parameter get_authorize_scope
  early_client tenant r w early h = ground arith

  sent_back :
      (r : AuthorizeRequest) (client : Client) (uri : String) (e : AuthorizeError)
      → GoesTo r uri e
      → r.redirect_uri ≡ some uri
      → one_of uri client.redirect_uris ≡ true
      → LocalTo r client e
  sent_back r client uri invalid_client g shown known = tt
  sent_back r client uri invalid_redirect_uri g shown known = tt
  sent_back r client uri (redirected e u mode state) g shown known =
      (rw g.0 shown, rw g.0 known, g.1)

  late-IsLocal :
      (tenant : ℕ) (r : AuthorizeRequest) (w : World) (session : Option SessionToken)
      (early : Early) (e : AuthorizeError)
      → check_early words tenant r w ≡ ok early
      → check_late words r session early ≡ err e
      → IsLocal tenant r w e
  late-IsLocal tenant r w session early e passed h =
      let (found, uri, known, allowed, openid) = early_client tenant r w early passed in
      locally tenant r w e early.client found
        (sent_back r early.client early.redirect_uri e (late-GoesTo r session early e h) uri known)

module _ (words : String → List String) (get_token_hash : String → String)
    (verified_origin : Client → Option String) where
  answered_err :
      (now : Time) (r : AuthorizeRequest) (new : NewLoginSession) (session : Option SessionToken)
      (c : Result AuthorizeError Checked) (w : World) (e : AuthorizeError)
      → (answered words get_token_hash verified_origin now r new session c w).0 ≡ err e
      → c ≡ err e
  unfolding answered
  answered_err now r new session (ok c) w e h = ground arith
  answered_err now r new session (err e') w e h = ground arith

  with_session-IsLocal :
      (now : Time) (tenant : ℕ) (r : AuthorizeRequest) (new : NewLoginSession) (info : RequestInfo)
      (cookie : Option String) (early : Result AuthorizeError Early) (w : World)
      (e : AuthorizeError)
      → check_early words tenant r w ≡ early
      → (with_session words get_token_hash verified_origin now r new info cookie early w).0 ≡ err e
      → IsLocal tenant r w e
  unfolding with_session
  with_session-IsLocal now tenant r new info cookie (err e') w e passed h =
      let same : e' ≡ e = ground arith in early-IsLocal words tenant r w e (passed ∙ ap err same)
  with_session-IsLocal now tenant r new info cookie (ok early) w e passed h =
      let (session, w') = get_session_token get_token_hash now info cookie w in
      late-IsLocal words tenant r w session early e passed
        (answered_err now r new session (check_late words r session early) w' e h)

  -- An error of /authorize never leaves for a foreign site: it is shown as a page, or it is sent, with
  -- the request's state, to the redirect URI of the request, which then is registered for the client of
  -- the tenant that the request names.
  pub authorize-IsLocal :
      (now : Time) (tenant : ℕ) (r : AuthorizeRequest) (new : NewLoginSession) (info : RequestInfo)
      (cookie : Option String) (w : World) (e : AuthorizeError)
      → (authorize words get_token_hash verified_origin now tenant r new info cookie w).0 ≡ err e
      → IsLocal tenant r w e
  unfolding authorize
  authorize-IsLocal now tenant r new info cookie w e h =
      with_session-IsLocal now tenant r new info cookie (check_early words tenant r w) w e refl h
