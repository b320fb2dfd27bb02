-- ===== src/Token/Rotation.antt =====
-- Refresh tokens at the token endpoint: fief/dependencies/token.py and
-- fief/apps/auth/routers/token.py.
use fief.Models.{Client, Time, World, RefreshToken, audit_logger, User}
use fief.Token.{
  is_subset, refresh_grant, validate_refresh_token, validate_client, TokenRequest, GrantRequest,
  Presented, granted, get_by_token, by_refresh_token, answer, issue_to, token, issue,
  validate_grant_request, by_code, Validated, Tokens, issued, refused, authenticate_client,
  get_user,
}
use fief.Prelude.{
  String, List, exists, ◌≡◌, true, Option, arith, some, none, refl, Bool, false, ◌==◌,
  exists-delete_self, sym, ap, ◌∙◌,
}

module _ (get_token_hash verifier_hash : String → String) (words : String → List String) where
  refresh_grant_lem :
      (client : Client) (scope : Option String) (found : Option RefreshToken) (g : GrantRequest)
      (p : Presented)
      → refresh_grant get_token_hash verifier_hash words client scope found ≡ granted g p
      → (t : RefreshToken) × (found ≡ some t)
        × (p ≡ by_refresh_token t)
        × (g.client ≡ client)
        × (t.client_id ≡ client.id)
        × (g.user_id ≡ t.user_id)
        × (is_subset g.scope t.scope ≡ true)
  unfolding refresh_grant
  refresh_grant_lem client scope none g p e = ground arith
  refresh_grant_lem client scope (some t) g p e =
      (t, refl, ground arith, ground arith, ground arith, ground arith, ground arith)

  validate_refresh_token_lem :
      (now : Time) (client : Client) (token scope : Option String) (w : World) (g : GrantRequest)
      (p : Presented)
      → validate_refresh_token get_token_hash verifier_hash words now client token scope w
        ≡ granted g p
      → (presented : String) × (token ≡ some presented)
        × (t : RefreshToken) × (p ≡ by_refresh_token t)
        × (get_by_token get_token_hash verifier_hash words now (get_token_hash presented) w
            ≡ some t)
        × (t.client_id ≡ g.client.id)
        × (g.user_id ≡ t.user_id)
        × (is_subset g.scope t.scope ≡ true)
  unfolding validate_refresh_token
  validate_refresh_token_lem now client none scope w g p e = ground arith
  validate_refresh_token_lem now client (some presented) scope w g p e =
      let (t, found, row, same, own, user, narrower) =
        refresh_grant_lem client scope
          (get_by_token get_token_hash verifier_hash words now (get_token_hash presented) w) g p
          e in
      (presented, refl, t, row, found, ground arith, user, narrower)

  validate_client_lem :
      (now : Time) (r : TokenRequest) (client : Option Client) (w : World) (g : GrantRequest)
      (p : Presented)
      → validate_client get_token_hash verifier_hash words now "refresh_token" r client w
        ≡ granted g p
      → (presented : String) × (r.refresh_token ≡ some presented)
        × (t : RefreshToken) × (p ≡ by_refresh_token t)
        × (get_by_token get_token_hash verifier_hash words now (get_token_hash presented) w
            ≡ some t)
        × (t.client_id ≡ g.client.id)
        × (g.user_id ≡ t.user_id)
        × (is_subset g.scope t.scope ≡ true)
  unfolding validate_client
  validate_client_lem now r none w g p e = ground arith
  validate_client_lem now r (some client) w g p e =
      validate_refresh_token_lem now client r.refresh_token r.scope w g p e

  -- the presented refresh token is still there
  unfoldable kept : Presented → World → Bool
  kept (by_code a) w = false
  kept (by_refresh_token s) w = exists (λ x. x.id == s.id) w.refresh_tokens

  issue_to_lem :
      (now : Time) (r : TokenRequest) (g : GrantRequest) (p : Presented) (user : Option User)
      (w : World) (t : Tokens)
      → (issue_to get_token_hash verifier_hash words now r g p user w).0 ≡ issued t
      → (t.grant ≡ g)
        × (kept p (issue_to get_token_hash verifier_hash words now r g p user w).1 ≡ false)
  unfolding issue_to issue audit_logger kept
  issue_to_lem now r g p none w t h = ground arith
  issue_to_lem now r g (by_code a) (some user) w t h = (ground arith, refl)
  issue_to_lem now r g (by_refresh_token s) (some user) w t h =
      (ground arith, exists-delete_self (λ x. x.id == s.id) _)

  answer_lem :
      (now : Time) (r : TokenRequest) (v : Validated) (w : World) (t : Tokens)
      → (answer get_token_hash verifier_hash words now r v w).0 ≡ issued t
      → (p : Presented) × (v ≡ granted t.grant p)
        × (kept p (answer get_token_hash verifier_hash words now r v w).1 ≡ false)
  unfolding answer
  answer_lem now r (refused e) w t h = ground arith
  answer_lem now r (granted g p) w t h =
      let (same, gone) =
        issue_to_lem now r g p
          (get_user get_token_hash verifier_hash words g.user_id g.client.tenant_id w) w t h in
      (p, rw same refl, gone)

  -- Tokens issued for a refresh token are issued for a row of its hash that is not expired, to the client
  -- that it was issued to, for its user, and with no scope that it does not have; and that row is gone
  -- afterwards.
  pub token_rotates :
      (now : Time) (r : TokenRequest) (w : World) (t : Tokens)
      → r.grant_type ≡ some "refresh_token"
      → (token get_token_hash verifier_hash words now r w).0 ≡ issued t
      → (presented : String) × (r.refresh_token ≡ some presented)
        × (s : RefreshToken) × (get_by_token get_token_hash verifier_hash words now
              (get_token_hash presented)
              w
            ≡ some s)
        × (s.client_id ≡ t.grant.client.id)
        × (t.grant.user_id ≡ s.user_id)
        × (is_subset t.grant.scope s.scope ≡ true)
        × (let (_, w') = token get_token_hash verifier_hash words now r w in
            exists (λ x. x.id == s.id) w'.refresh_tokens ≡ false)
  unfolding token validate_grant_request kept
  token_rotates now r w t gt h =
      let (p, v, gone) =
        answer_lem now r
          (validate_grant_request get_token_hash verifier_hash words now r r.grant_type w) w t h in
      let v' : validate_client get_token_hash verifier_hash words now "refresh_token" r
            (authenticate_client "refresh_token" r w) w
          ≡ granted t.grant p =
        sym (ap (λ o. validate_grant_request get_token_hash verifier_hash words now r o w) gt)
        ∙ v in
      let (presented, shown, s, row, found, own, user, narrower) =
        validate_client_lem now r (authenticate_client "refresh_token" r w) w t.grant p v' in
      (
        presented,
        shown,
        s,
        found,
        own,
        user,
        narrower,
        sym (ap (λ q. kept q (token get_token_hash verifier_hash words now r w).1) row) ∙ gone,
      )
