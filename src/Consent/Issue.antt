-- ===== src/Consent/Issue.antt =====
-- When /consent of fief/apps/auth/routers/auth.py issues an authorization code.
use fief.Flow.{RequestInfo}
use fief.Flow.Current.{
  client_of, get_login_session, verified_session, get_session_token, live_login_session,
  SessionError, LoginSessionError,
}
use fief.Prelude.{
  ℕ, List, String, ◌≡◌, arith, get-remove_self, ◌++◌, ◌∙◌, false, ◌∷◌, ◌⊎◌, [], get, none, refl,
  Bool, Bool-cases, inl, inr, true, Option, some, select_one-satisfies, ok, ◌==◌, Result, err,
}
use fief.Models.{Time, SessionToken, LoginSession, World, Client, User, is_expired}
use fief.Consent.{
  consent_body, create_or_update_grant, consent_form, give_code, NewCode, ConsentForm, CodeRedirect,
  code_redirect_of, code_redirect, get_needs_consent, allow, code_row, not_submitted, deny, neither,
  consent_decided, is_prompt, ConsentRequest, consent, consent_in, consent_as,
}

-- the code of this login session was issued to the session, and the login session is gone
abbrev pub Issued :
    Time → NewCode → SessionToken → LoginSession → Client → World → World → CodeRedirect → Type 0
Issued now new session ls client w w' cr =
    (cr ≡ code_redirect_of new ls)
    × (w'.authorization_codes ≡ w.authorization_codes ++ code_row now new session ls client ∷ [])
    × (get w'.login_sessions ls.id ≡ none)

give_code_lem :
    (now : Time) (new : NewCode) (session : SessionToken) (ls : LoginSession) (client : Client)
    (w : World) (cr : CodeRedirect)
    → (give_code now new session ls client w).0 ≡ code_redirect cr
    → Issued now new session ls client w (give_code now new session ls client w).1 cr
unfolding give_code
give_code_lem now new session ls client w cr h =
    (ground arith, refl, get-remove_self w.login_sessions ls.id)

granted-same :
    (user client : ℕ) (scope : List String) (w : World)
    → (create_or_update_grant user client scope w).authorization_codes ≡ w.authorization_codes
unfolding create_or_update_grant
granted-same user client scope w = ground arith

consent_form_lem :
    (now : Time) (new : NewCode) (session : SessionToken) (ls : LoginSession) (client : Client)
    (form : ConsentForm) (w : World) (cr : CodeRedirect)
    → (consent_form now new session ls client form w).0 ≡ code_redirect cr
    → (form ≡ allow)
      × Issued now new session ls client w (consent_form now new session ls client form w).1 cr
unfolding consent_form
consent_form_lem now new session ls client not_submitted w cr h = ground arith
consent_form_lem now new session ls client allow w cr h =
    let w1 = create_or_update_grant session.user_id client.id ls.scope w in
    let (same, codes, gone) = give_code_lem now new session ls client w1 cr h in
    (refl, (same, codes ∙ rw (granted-same session.user_id client.id ls.scope w) refl, gone))
consent_form_lem now new session ls client deny w cr h = ground arith
consent_form_lem now new session ls client neither w cr h = ground arith

consent_decided_lem :
    (needs : Bool) (now : Time) (new : NewCode) (session : SessionToken) (ls : LoginSession)
    (client : Client) (form : ConsentForm) (w : World) (cr : CodeRedirect)
    → (consent_decided needs now new session ls client form w).0 ≡ code_redirect cr
    → ((needs ≡ false) ⊎ (form ≡ allow))
      × Issued now new session ls client w
          (consent_decided needs now new session ls client form w).1
          cr
unfolding consent_decided
consent_decided_lem true now new session ls client form w cr h =
    elim (Bool-cases (is_prompt "none" ls.prompt)) [
      | inl e ↦ ground arith
      | inr e ↦
          let (allowed, issued) =
            consent_form_lem now new session ls client form w cr (rw e at h) in
          rw e (inr allowed, issued)
    ]
consent_decided_lem false now new session ls client form w cr h =
    elim (Bool-cases (is_prompt "consent" ls.prompt)) [
      | inl e ↦
          let (allowed, issued) =
            consent_form_lem now new session ls client form w cr (rw e at h) in
          rw e (inl refl, issued)
      | inr e ↦ rw e (inl refl, give_code_lem now new session ls client w cr (rw e at h))
    ]

-- who the code is for: a session whose user is of the tenant and has a verified address, and a live login
-- session of a client of the tenant, with consent
abbrev pub Consented :
    Time
    → ConsentRequest
    → Option SessionToken
    → World
    → SessionToken
    → LoginSession
    → Client
    → Type 0
Consented now r found w session ls client =
    (user : User) × (found ≡ some session)
    × (get w.users session.user_id ≡ some user)
    × (user.tenant_id ≡ r.tenant)
    × (user.email_verified ≡ true)
    × (get_login_session now r.tenant r.login_session_cookie w ≡ ok (ls, client))
    × (client.tenant_id ≡ r.tenant)
    × (ls.client_id ≡ client.id)
    × (is_expired now ls.expires_at ≡ false)
    × ((get_needs_consent session ls client w ≡ false) ⊎ (r.form ≡ allow))

verified_session_lem :
    (tenant : ℕ) (found : Option SessionToken) (w : World) (session : SessionToken) (user : User)
    → verified_session tenant found w ≡ ok (session, user)
    → (found ≡ some session)
      × (get w.users session.user_id ≡ some user)
      × (user.tenant_id ≡ tenant)
      × (user.email_verified ≡ true)
unfolding verified_session
verified_session_lem tenant none w session user h = ground arith
verified_session_lem tenant (some t) w session user h = ground arith

client_of_lem :
    (ls : LoginSession) (w : World) (client : Client)
    → client_of ls w ≡ some client
    → ls.client_id ≡ client.id
client_of_lem ls w client h =
    let found = select_one-satisfies (λ (c : Client). c.id == ls.client_id) w.clients client h in
    ground arith

get_login_session_lem :
    (now : Time) (tenant : ℕ) (cookie : Option String) (w : World) (ls : LoginSession)
    (client : Client)
    → get_login_session now tenant cookie w ≡ ok (ls, client)
    → (client.tenant_id ≡ tenant)
      × (ls.client_id ≡ client.id)
      × (is_expired now ls.expires_at ≡ false)
unfolding get_login_session live_login_session
get_login_session_lem now tenant none w ls client h = ground arith
get_login_session_lem now tenant (some token) w ls client h =
    let known = client_of_lem ls w client in (ground arith, ground (arith, known), ground arith)

consent_in_lem :
    (now : Time) (r : ConsentRequest) (session : SessionToken)
    (login : Result LoginSessionError (LoginSession × Client)) (w : World) (cr : CodeRedirect)
    → (consent_in now r session login w).0 ≡ code_redirect cr
    → (ls : LoginSession) × (client : Client) × (login ≡ ok (ls, client))
      × ((get_needs_consent session ls client w ≡ false) ⊎ (r.form ≡ allow))
      × Issued now r.new_code session ls client w (consent_in now r session login w).1 cr
unfolding consent_in consent_body
consent_in_lem now r session (err e) w cr h = ground arith
consent_in_lem now r session (ok (ls, client)) w cr h =
    let (agreed, issued) =
      consent_decided_lem (get_needs_consent session ls client w) now r.new_code session ls client
        r.form w cr h in
    (ls, client, refl, agreed, issued)

consent_as_lem :
    (now : Time) (r : ConsentRequest) (found : Option SessionToken)
    (known : Result SessionError (SessionToken × User)) (w : World) (cr : CodeRedirect)
    → verified_session r.tenant found w ≡ known
    → (consent_as now r known w).0 ≡ code_redirect cr
    → (session : SessionToken) × (ls : LoginSession) × (client : Client) × Consented now r found w
        session ls client
      × Issued now r.new_code session ls client w (consent_as now r known w).1 cr
unfolding consent_as
consent_as_lem now r found (err e) w cr same h = ground arith
consent_as_lem now r found (ok (session, user)) w cr same h =
    let login = get_login_session now r.tenant r.login_session_cookie w in
    let (ls, client, live, agreed, issued) = consent_in_lem now r session login w cr h in
    let (shown, row, tenant, address) = verified_session_lem r.tenant found w session user same in
    let (own, client_id, alive) =
      get_login_session_lem now r.tenant r.login_session_cookie w ls client live in
    (
      session,
      ls,
      client,
      (user, shown, row, tenant, address, live, own, client_id, alive, agreed),
      issued,
    )

module _ (get_token_hash : String → String) where
  pub codes-get_session_token :
      (now : Time) (info : RequestInfo) (cookie : Option String) (w : World)
      → (get_session_token get_token_hash now info cookie w).1.authorization_codes
        ≡ w.authorization_codes
  unfolding get_session_token
  codes-get_session_token now info none w = refl
  codes-get_session_token now info (some token) w = ground arith

  -- /consent issues a code only to a session whose user is of the tenant and has a verified address, for a
  -- live login session of a client of the tenant, and only if the client is first party, a grant covers the
  -- scope, or the user pressed "allow". Exactly one code is added, with that session's user and that login
  -- session's redirect URI, scope, nonce and challenge; and the login session is gone, so that it gives no
  -- second code.
  pub consent-Issued :
      (now : Time) (r : ConsentRequest) (w : World) (cr : CodeRedirect)
      → (consent get_token_hash now r w).0 ≡ code_redirect cr
      → (let (found, w1) = get_session_token get_token_hash now r.info r.session_cookie w in
          (session : SessionToken) × (ls : LoginSession) × (client : Client) × Consented now r found
            w1 session ls client
          × Issued now r.new_code session ls client w (consent get_token_hash now r w).1 cr)
  unfolding consent
  consent-Issued now r w cr h =
      let (found, w1) = get_session_token get_token_hash now r.info r.session_cookie w in
      let (session, ls, client, agreed, (same, codes, gone)) =
        consent_as_lem now r found (verified_session r.tenant found w1) w1 cr refl h in
      (
        session,
        ls,
        client,
        agreed,
        (same, codes ∙ rw (codes-get_session_token now r.info r.session_cookie w) refl, gone),
      )
