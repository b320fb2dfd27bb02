-- ===== src/Consent/Level.antt =====
-- The authentication level of a code, from /authorize to /consent of fief/apps/auth/routers/auth.py.
use fief.Consent.Issue.{codes-get_session_token}
use fief.Authorize.Stored.{authorize_row}
use fief.Flow.Current.{get_session_token, verified_session, get_login_session, SessionError}
use fief.Flow.{RequestInfo}
use fief.Consent.Prompt.{prompt_of}
use fief.Flow.Response.{consent_route}
use fief.Models.{LoginSession, Time, Acr, Client, level_zero, SessionToken, level_one, World, User}
use fief.Prelude.{
  String, Option, Bool, List, some, ◌≢◌, ◌≡◌, none, arith, true, refl, ok, get, ◌++◌, ◌∷◌, [], ap,
  sym, ◌∙◌, Result,
}
use fief.Authorize.{
  destination, authorize, AuthorizeRequest, NewLoginSession, AuthorizeAnswer, check_early,
  get_authorize_acr,
}
use fief.Consent.{
  consent_body, get_needs_consent, NewCode, consent, ConsentForm, consent_as, give_code,
  ConsentRequest, code_row, code_redirect, code_redirect_of, ConsentAnswer,
}

acr_of : Option LoginSession → Acr
acr_of none = level_zero
acr_of (some ls) = ls.acr

-- a first-party client needs no consent
first_party_code :
    (now : Time) (code : NewCode) (session : SessionToken) (ls : LoginSession) (client : Client)
    (form : ConsentForm) (w : World)
    → ls.prompt ≡ none
    → client.first_party ≡ true
    → consent_body now code session ls client form w ≡ give_code now code session ls client w
unfolding consent_body get_needs_consent
first_party_code now code session ls client form w e f = rw (e, f) refl

login_level :
    (valid : Bool) (prompt : Option String) (acr : Acr) (screen : String)
    → prompt ≡ some "login"
    → ((destination valid prompt acr screen).0 ≢ consent_route)
      × ((destination valid prompt acr screen).1 ≡ level_one)
unfolding destination
login_level valid prompt acr screen e = rw e (ground arith, ground arith)

-- the route, for a session and a login session that pass
consent_run :
    (now : Time) (q : ConsentRequest) (session : SessionToken) (user : User) (ls : LoginSession)
    (client : Client) (known : Result SessionError (SessionToken × User)) (w : World)
    → known ≡ ok (session, user)
    → get_login_session now q.tenant q.login_session_cookie w ≡ ok (ls, client)
    → consent_as now q known w ≡ consent_body now q.new_code session ls client q.form w
unfolding consent_as
consent_run now q session user ls client known w e live = rw (e, consent_as, live) refl

module _ (words : String → List String) (get_token_hash : String → String)
    (verified_origin : Client → Option String) where
  -- Asking for a new login proves none: where /authorize with `prompt=login` sends the browser to the
  -- login or the registration page, a browser that opens /consent instead, with the session that it
  -- had already, gets a code for a first-party client. That code attests level one, "password
  -- authentication was performed", while its authentication time is still the start of the old session.
  pub login_not_enforced :
      (now later : Time) (r : AuthorizeRequest) (new : NewLoginSession) (info : RequestInfo)
      (cookie : Option String) (w : World) (a : AuthorizeAnswer) (q : ConsentRequest)
      (session : SessionToken) (user : User) (ls : LoginSession) (client : Client)
      → (authorize words get_token_hash verified_origin now q.tenant r new info cookie w).0 ≡ ok a
      → r.prompt ≡ some "login"
      → (let (_, w1) =
            authorize words get_token_hash verified_origin now q.tenant r new info cookie w in
          let (found, w2) = get_session_token get_token_hash later q.info q.session_cookie w1 in
          (get w1.login_sessions new.id ≡ some ls)
          × (verified_session q.tenant found w2 ≡ ok (session, user))
          × (get_login_session later q.tenant q.login_session_cookie w2 ≡ ok (ls, client)))
      → client.first_party ≡ true
      → (let (_, w1) =
            authorize words get_token_hash verified_origin now q.tenant r new info cookie w in
          let (answer, w') = consent get_token_hash later q w1 in
          let row = code_row later q.new_code session ls client in
          (a.route ≢ consent_route)
          × (answer ≡ code_redirect (code_redirect_of q.new_code ls))
          × (w'.authorization_codes ≡ w1.authorization_codes ++ row ∷ [])
          × (row.acr ≡ level_one)
          × (row.authenticated_at ≡ session.created_at))
  unfolding authorize consent give_code prompt_of acr_of
  login_not_enforced now later r new info cookie w a q session user ls client h login
        (row, known, live) first =
      let (c, valid, (stored, route)) =
        authorize_row words get_token_hash verified_origin now q.tenant r new info cookie
          (check_early words q.tenant r w) w a h in
      let w1 =
        (authorize words get_token_hash verified_origin now q.tenant r new info cookie w).1 in
      let (found, w2) = get_session_token get_token_hash later q.info q.session_cookie w1 in
      let no_prompt : ls.prompt ≡ none = ap prompt_of (sym row ∙ stored) in
      let coded = first_party_code later q.new_code session ls client q.form w2 no_prompt first in
      let (elsewhere, one) =
        login_level valid r.prompt (get_authorize_acr words r.acr_values) c.screen login in
      let run =
        consent_run later q session user ls client (verified_session q.tenant found w2) w2 known
          live
        ∙ coded in
      let codes = codes-get_session_token get_token_hash later q.info q.session_cookie w1 in
      (
        λ e. elsewhere (sym route ∙ e),
        ap (λ p. p.0) run,
        ap (λ (p : ConsentAnswer × World). p.1.authorization_codes) run
            ∙ ap (λ l. l ++ code_row later q.new_code session ls client ∷ []) codes,
        ap acr_of (sym row ∙ stored) ∙ one,
        refl,
      )
