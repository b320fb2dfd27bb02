-- ===== src/Token/Codes.antt =====
-- Authorization codes at the token endpoint: fief/dependencies/token.py.
use fief.Token.{
  code_grant, TokenRequest, GrantRequest, Presented, granted, by_code, get_valid_by_code, pkce,
  validate_code, validate_client, answer, token, issue_to, validate_grant_request, issue, Tokens,
  Validated, issued, refused, consumed, get_user, by_refresh_token, authenticate_client,
}
use fief.Models.{Time, Client, World, AuthorizationCode, audit_logger, User}
use fief.Prelude.{
  String, List, Option, ◌≡◌, some, true, arith, none, eq_iff, refl, ◌<◌, delete, str_eq, sym, ap,
  select_one-satisfies, ◌&&◌, ◌∙◌, ltb,
}

module _ (get_token_hash verifier_hash : String → String) (words : String → List String) where
  -- the code that the request presents is in the table, valid now, issued to the client with this
  -- redirect URI and for this verifier
  abbrev pub Redeems : Time → TokenRequest → World → GrantRequest → AuthorizationCode → Type 0
  Redeems now r w g a =
      (code : String) × (r.code ≡ some code)
      × (get_valid_by_code get_token_hash verifier_hash words now (get_token_hash code) w ≡ some a)
      × (a.client_id ≡ g.client.id)
      × (r.redirect_uri ≡ some a.redirect_uri)
      × (pkce get_token_hash verifier_hash words a.code_challenge a.code_challenge_method
            r.code_verifier
          ≡ true)
      × (g.user_id ≡ a.user_id)
      × (g.scope ≡ a.scope)

  code_grant-Redeems :
      (client : Client) (uri : String) (verifier : Option String) (gt : String)
      (found : Option AuthorizationCode) (g : GrantRequest) (p : Presented)
      → code_grant get_token_hash verifier_hash words client uri verifier gt found ≡ granted g p
      → (a : AuthorizationCode) × (found ≡ some a)
        × (p ≡ by_code a)
        × (a.client_id ≡ g.client.id)
        × (a.redirect_uri ≡ uri)
        × (pkce get_token_hash verifier_hash words a.code_challenge a.code_challenge_method verifier
            ≡ true)
        × (g.user_id ≡ a.user_id)
        × (g.scope ≡ a.scope)
  unfolding code_grant
  code_grant-Redeems client uri verifier gt none g p e = ground arith
  code_grant-Redeems client uri verifier gt (some a) g p e = (
    a,
    refl,
    ground arith,
    ground arith,
    ground (arith, eq_iff a.redirect_uri uri),
    ground arith,
    ground arith,
    ground arith,
  )

  validate_code-Redeems :
      (now : Time) (client : Client) (code uri : Option String) (r : TokenRequest) (w : World)
      (g : GrantRequest) (p : Presented)
      → r.code ≡ code
      → r.redirect_uri ≡ uri
      → validate_code get_token_hash verifier_hash words now client code uri r w ≡ granted g p
      → (a : AuthorizationCode) × (p ≡ by_code a) × Redeems now r w g a
  unfolding validate_code
  validate_code-Redeems now client none uri r w g p ec eu e = ground arith
  validate_code-Redeems now client (some code) none r w g p ec eu e = ground arith
  validate_code-Redeems now client (some code) (some uri) r w g p ec eu e =
      let (a, found, row, own, same, verifier, user, scope) =
        code_grant-Redeems client uri r.code_verifier "authorization_code"
          (get_valid_by_code get_token_hash verifier_hash words now (get_token_hash code) w) g p
          e in
      (a, row, (code, ec, found, own, rw same eu, verifier, user, scope))

  validate_client-Redeems :
      (now : Time) (r : TokenRequest) (client : Option Client) (w : World) (g : GrantRequest)
      (p : Presented)
      → validate_client get_token_hash verifier_hash words now "authorization_code" r client w
        ≡ granted g p
      → (a : AuthorizationCode) × (p ≡ by_code a) × Redeems now r w g a
  unfolding validate_client
  validate_client-Redeems now r none w g p e = ground arith
  validate_client-Redeems now r (some client) w g p e =
      validate_code-Redeems now client r.code r.redirect_uri r w g p refl refl e

  issue_to_lem :
      (now : Time) (r : TokenRequest) (g : GrantRequest) (p : Presented) (user : Option User)
      (w : World) (t : Tokens)
      → (issue_to get_token_hash verifier_hash words now r g p user w).0 ≡ issued t
      → (t.grant ≡ g)
        × ((issue_to get_token_hash verifier_hash words now r g p user w).1.authorization_codes
            ≡ (consumed get_token_hash verifier_hash words p w).authorization_codes)
  unfolding issue_to issue audit_logger
  issue_to_lem now r g p none w t h = ground arith
  issue_to_lem now r g (by_code a) (some user) w t h = (ground arith, ground arith)
  issue_to_lem now r g (by_refresh_token s) (some user) w t h = (ground arith, ground arith)

  -- An issued answer comes from a granted request, whose row is deleted.
  issued-granted :
      (now : Time) (r : TokenRequest) (v : Validated) (w : World) (t : Tokens)
      → (answer get_token_hash verifier_hash words now r v w).0 ≡ issued t
      → (p : Presented) × (v ≡ granted t.grant p)
        × ((answer get_token_hash verifier_hash words now r v w).1.authorization_codes
            ≡ (consumed get_token_hash verifier_hash words p w).authorization_codes)
  unfolding answer
  issued-granted now r (refused e) w t h = ground arith
  issued-granted now r (granted g p) w t h =
      let (same, left) =
        issue_to_lem now r g p
          (get_user get_token_hash verifier_hash words g.user_id g.client.tenant_id w) w t h in
      (p, rw same refl, left)

  pub same_code : (x y z : String) → str_eq x z ≡ true → str_eq y z ≡ true → str_eq x y ≡ true
  same_code x y z p q = ground (arith, eq_iff x z, eq_iff y z, eq_iff x y)

  pub redeemed :
      (now : Time) (r : TokenRequest) (w : World) (t : Tokens)
      → r.grant_type ≡ some "authorization_code"
      → (token get_token_hash verifier_hash words now r w).0 ≡ issued t
      → (a : AuthorizationCode) × Redeems now r w t.grant a
        × ((token get_token_hash verifier_hash words now r w).1.authorization_codes
            ≡ delete (λ b. str_eq b.code a.code) w.authorization_codes)
  unfolding token validate_grant_request
  redeemed now r w t gt h =
      let (p, v, left) =
        issued-granted now r
          (validate_grant_request get_token_hash verifier_hash words now r r.grant_type w) w t h in
      let v' : validate_client get_token_hash verifier_hash words now "authorization_code" r
            (authenticate_client "authorization_code" r w) w
          ≡ granted t.grant p =
        sym (ap (λ o. validate_grant_request get_token_hash verifier_hash words now r o w) gt)
        ∙ v in
      let (a, row, redeems) =
        validate_client-Redeems now r (authenticate_client "authorization_code" r w) w t.grant p
          v' in
      (
        a,
        redeems,
        left ∙ ap (λ q. (consumed get_token_hash verifier_hash words q w).authorization_codes) row,
      )

  -- Tokens issued for an authorization code are issued for a row of that code that is not expired, to the
  -- client and with the redirect URI that the code was issued for, after its PKCE check, and they carry
  -- that row's user and scope.
  pub token-Redeems :
      (now : Time) (r : TokenRequest) (w : World) (t : Tokens)
      → r.grant_type ≡ some "authorization_code"
      → (token get_token_hash verifier_hash words now r w).0 ≡ issued t
      → (a : AuthorizationCode) × Redeems now r w t.grant a × (now < a.expires_at)
  token-Redeems now r w t gt h =
      let (a, redeems, left) = redeemed now r w t gt h in
      let valid =
        select_one-satisfies (λ b. str_eq b.code (get_token_hash redeems.0) && ltb now b.expires_at)
          w.authorization_codes a redeems.2 in
      (a, redeems, ground arith)
