-- ===== src/Authorize/Stored.antt =====
-- The login session that /authorize of fief/apps/auth/routers/auth.py stores.
use fief.Authorize.Redirects.{early_client}
use fief.Flow.Current.{get_session_token}
use fief.Flow.{RequestInfo}
use fief.Models.{LoginSession, World, Client, SessionToken, Time, Acr}
use fief.Prelude.{
  String, ℕ, List, ◌≡◌, none, ◌⊎◌, ok, some, true, ◌∷◌, Option, [], is_some, ◌||◌, not, arith,
  Option-cases, inl, inr, Result, refl, err, get, get-put_self, ap, Bool,
}
use fief.Authorize.{
  AuthorizeRequest, check_late, get_authorize_client, get_authorize_prompt, get_authorize_screen,
  one_of, get_authorize_code_challenge, get_nonce, allowed_response_types, default_response_mode,
  Early, Checked, hybrid_response_types, with_session, NewLoginSession, answered, new_login_session,
  AuthorizeError, AuthorizeAnswer, check_early, authorized, authorize, create_login_session,
  destination, has_valid_session_token, get_authorize_acr,
}

-- What a stored login session satisfies.
abbrev pub IsSound : ℕ → AuthorizeRequest → World → LoginSession → Type 0
IsSound tenant r w ls =
    (client : Client) × (get_authorize_client tenant r.client_id w ≡ ok client)
    × (ls.client_id ≡ client.id)
    × (one_of ls.redirect_uri client.redirect_uris ≡ true)
    × (one_of ls.response_type allowed_response_types ≡ true)
    × (ls.response_mode ≡ default_response_mode ls.response_type)
    × (one_of "openid" ls.scope ≡ true)
    × ((is_some ls.nonce || not (one_of ls.response_type hybrid_response_types)) ≡ true)
    × (ls.mfa_pending_user_id ≡ none)

-- the challenge of the request, with a method that the token endpoint knows
abbrev pub Challenges : AuthorizeRequest → LoginSession → Type 0
Challenges r ls =
    (ls.code_challenge ≡ r.code_challenge)
    × ((ls.code_challenge ≡ none)
        ⊎ ((method : String) × (ls.code_challenge_method ≡ some method)
            × (one_of method ("plain" ∷ "S256" ∷ []) ≡ true)))

module _ (words : String → List String) where
  late_lem :
      (r : AuthorizeRequest) (session : Option SessionToken) (early : Early) (c : Checked)
      → check_late words r session early ≡ ok c
      → (c.client ≡ early.client)
        × (c.redirect_uri ≡ early.redirect_uri)
        × (c.response_type ≡ early.response_type)
        × (c.scope ≡ early.scope)
        × (c.prompt ≡ r.prompt)
        × ((is_some c.nonce || not (one_of early.response_type hybrid_response_types)) ≡ true)
  unfolding check_late get_authorize_prompt get_authorize_screen get_authorize_code_challenge
      get_nonce
  late_lem r session early c h = ground arith

  late-challenge :
      (r : AuthorizeRequest) (session : Option SessionToken) (early : Early) (c : Checked)
      → check_late words r session early ≡ ok c
      → ((r.code_challenge ≡ none) × (c.code_challenge ≡ none))
        ⊎ ((challenge : String) × (method : String) × (r.code_challenge ≡ some challenge)
            × (c.code_challenge ≡ some (challenge, method))
            × (one_of method ("plain" ∷ "S256" ∷ []) ≡ true))
  unfolding check_late get_authorize_prompt get_authorize_screen get_authorize_code_challenge
      get_nonce
  late-challenge r session early c h = elim (Option-cases r.code_challenge) [
    | inl e ↦ inl (e, ground arith)
    | inr (challenge, e) ↦ elim (Option-cases r.code_challenge_method) [
      | inl m ↦ absurd (ground arith)
      | inr (method, m) ↦ inr (challenge, method, e, ground arith, ground arith)
    ]
  ]

  -- the row from checked parameters
  row-Challenges :
      (now : Time) (r : AuthorizeRequest) (new : NewLoginSession) (session : Option SessionToken)
      (early : Early) (c : Checked) (acr : Acr) (origin : Option String)
      → check_late words r session early ≡ ok c
      → Challenges r (new_login_session now new c r.state acr origin)
  row-Challenges now r new session early c acr origin h =
      elim (late-challenge r session early c h) [
        | inl (asked, kept) ↦ (rw (asked, kept) refl, inl (rw kept refl))
        | inr (challenge, method, asked, kept, known) ↦
            (rw (asked, kept) refl, inr (method, rw kept refl, known))
      ]

module _ (words : String → List String) (get_token_hash : String → String)
    (verified_origin : Client → Option String) where
  -- what an answer comes from
  answered_ok :
      (now : Time) (r : AuthorizeRequest) (new : NewLoginSession) (session : Option SessionToken)
      (checked : Result AuthorizeError Checked) (w : World) (a : AuthorizeAnswer)
      → (answered words get_token_hash verified_origin now r new session checked w).0 ≡ ok a
      → (c : Checked) × (checked ≡ ok c)
        × ((answered words get_token_hash verified_origin now r new session checked w).1
            ≡ (authorized words now r new (verified_origin c.client) session c w).1)
        × (a ≡ (authorized words now r new (verified_origin c.client) session c w).0)
  unfolding answered
  answered_ok now r new session (err e) w a h = ground arith
  answered_ok now r new session (ok c) w a h = (c, refl, refl, ground arith)

  -- the row, the page, and the level
  pub authorize_row :
      (now : Time) (tenant : ℕ) (r : AuthorizeRequest) (new : NewLoginSession) (info : RequestInfo)
      (cookie : Option String) (early : Result AuthorizeError Early) (w : World)
      (a : AuthorizeAnswer)
      → (with_session words get_token_hash verified_origin now r new info cookie early w).0 ≡ ok a
      → (let (_, w') =
            with_session words get_token_hash verified_origin now r new info cookie early w in
          (c : Checked) × (valid : Bool) × (let (route, acr) =
              destination valid r.prompt (get_authorize_acr words r.acr_values) c.screen in
            (get w'.login_sessions new.id
              ≡ some (new_login_session now new c r.state acr (verified_origin c.client)))
            × (a.route ≡ route)))
  unfolding with_session authorized create_login_session
  authorize_row now tenant r new info cookie (err e) w a h = ground arith
  authorize_row now tenant r new info cookie (ok early) w a h =
      let (session, w') = get_session_token get_token_hash now info cookie w in
      let (c, late, left, same) =
        answered_ok now r new session (check_late words r session early) w' a h in
      let (client, uri, response_type, scope, prompt, nonce) =
        late_lem words r session early c late in
      let valid = has_valid_session_token now r.max_age session in
      let (route, acr) =
        destination valid c.prompt (get_authorize_acr words r.acr_values) c.screen in
      let ls = new_login_session now new c r.state acr (verified_origin c.client) in
      let row : get
            (with_session words get_token_hash verified_origin now r new info cookie (ok early)
              w).1.login_sessions
            new.id
          ≡ some ls =
        rw left (get-put_self w'.login_sessions new.id ls) in
      (c, valid, (rw prompt at row, rw (same, prompt) refl))

  stored :
      (now : Time) (tenant : ℕ) (r : AuthorizeRequest) (new : NewLoginSession) (info : RequestInfo)
      (cookie : Option String) (early : Result AuthorizeError Early) (w : World)
      (a : AuthorizeAnswer)
      → check_early words tenant r w ≡ early
      → (with_session words get_token_hash verified_origin now r new info cookie early w).0 ≡ ok a
      → (let (_, w') =
            with_session words get_token_hash verified_origin now r new info cookie early w in
          (ls : LoginSession) × (get w'.login_sessions new.id ≡ some ls)
          × (ls.token ≡ a.login_session_cookie)
          × IsSound tenant r w ls
          × Challenges r ls)
  unfolding with_session authorized create_login_session
  stored now tenant r new info cookie (err e) w a passed h = ground arith
  stored now tenant r new info cookie (ok early) w a passed h =
      let (session, w') = get_session_token get_token_hash now info cookie w in
      let (c, late, left, same) =
        answered_ok now r new session (check_late words r session early) w' a h in
      let (client, uri, response_type, scope, prompt, nonce) =
        late_lem words r session early c late in
      let (found, shown, known, allowed, openid) = early_client words tenant r w early passed in
      let (route, acr) =
        destination (has_valid_session_token now r.max_age session) c.prompt
          (get_authorize_acr words r.acr_values) c.screen in
      let ls = new_login_session now new c r.state acr (verified_origin c.client) in
      (
        ls,
        rw left (get-put_self w'.login_sessions new.id ls),
        rw same refl,
        (
          early.client,
          found,
          ap (λ (x : Client). x.id) client,
          rw uri known,
          rw response_type allowed,
          refl,
          rw scope openid,
          rw response_type nonce,
          refl,
        ),
        row-Challenges words now r new session early c acr (verified_origin c.client) late,
      )

  -- The login session of the cookie that is set is stored under its new id, and it is sound: its client is
  -- the one that the request names in the tenant, its redirect URI is registered for that client, its
  -- response type is known, the scope has "openid", a hybrid response type has a nonce, it waits for
  -- nobody, and it keeps the code challenge of the request, with a method that the token endpoint knows.
  pub authorize-IsSound :
      (now : Time) (tenant : ℕ) (r : AuthorizeRequest) (new : NewLoginSession) (info : RequestInfo)
      (cookie : Option String) (w : World) (a : AuthorizeAnswer)
      → (authorize words get_token_hash verified_origin now tenant r new info cookie w).0 ≡ ok a
      → (let (_, w') =
            authorize words get_token_hash verified_origin now tenant r new info cookie w in
          (ls : LoginSession) × (get w'.login_sessions new.id ≡ some ls)
          × (ls.token ≡ a.login_session_cookie)
          × IsSound tenant r w ls
          × Challenges r ls)
  unfolding authorize
  authorize-IsSound now tenant r new info cookie w a h =
      stored now tenant r new info cookie (check_early words tenant r w) w a refl h
