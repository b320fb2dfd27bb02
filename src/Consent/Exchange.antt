-- ===== src/Consent/Exchange.antt =====
-- From /consent to /token: fief/apps/auth/routers/auth.py and fief/apps/auth/routers/token.py.
use fief.Consent.Issue.{Issued}
use fief.Consent.{NewCode, code_row, CodeRedirect}
use fief.Token.{
  validate_grant_request, TokenRequest, validate_client, validate_code, Tokens, GrantRequest,
  offers_refresh, authenticate_client, code_grant, pkce, token, answer, granted, by_code, issue_to,
  issue, refused, invalid_grant, issued, get_user, token_error,
}
use fief.Models.{Time, SessionToken, LoginSession, Client, User, AuthorizationCode, World, seconds}
use fief.Prelude.{
  String, List, exists, ◌≡◌, str_eq, ◌++◌, false, some, if◌then◌else◌, ◌∷◌, ◌<◌, [], ◌+◌, none,
  select_one, ◌&&◌, ltb, refl, select_one-append_new, exists-narrower, arith, eq_iff, ◌∙◌, Bool, ap,
  true,
}

module _ (get_token_hash verifier_hash : String → String) (words : String → List String) where
  -- the tokens that the code stands for
  abbrev pub tokens_of :
      TokenRequest → NewCode → SessionToken → LoginSession → Client → User → Tokens
  tokens_of t new session ls client user =
      let g : GrantRequest = record {
        user_id = session.user_id;
        scope = ls.scope;
        authenticated_at = session.created_at;
        acr = ls.acr;
        nonce = ls.nonce;
        c_hash = some new.c_hash;
        client = client;
        grant_type = "authorization_code";
      } in
      record {
        grant = g;
        user = user;
        refresh_token =
            if offers_refresh get_token_hash verifier_hash words g
            then some t.new_token.value
            else none;
      }

  found_again :
      (now later : Time) (new : NewCode) (session : SessionToken) (ls : LoginSession)
      (client : Client) (xs : List AuthorizationCode)
      → exists (λ a. str_eq a.code new.hash) xs ≡ false
      → later < now + seconds client.authorization_code_lifetime_seconds
      → select_one
          (λ a. str_eq a.code new.hash && ltb later a.expires_at)
          (xs ++ code_row now new session ls client ∷ [])
        ≡ some (code_row now new session ls client)
  found_again now later new session ls client xs fresh alive =
      select_one-append_new (λ a. str_eq a.code new.hash && ltb later a.expires_at) xs
        (code_row now new session ls client)
        (exists-narrower (λ a. str_eq a.code new.hash)
          (λ a. str_eq a.code new.hash && ltb later a.expires_at) xs (λ x e. ground arith) fresh)
        (ground (arith, eq_iff new.hash new.hash))

  validated :
      (now later : Time) (new : NewCode) (session : SessionToken) (ls : LoginSession)
      (client : Client) (t : TokenRequest) (w' : World) (xs : List AuthorizationCode)
      → w'.authorization_codes ≡ xs ++ code_row now new session ls client ∷ []
      → exists (λ a. str_eq a.code new.hash) xs ≡ false
      → later < now + seconds client.authorization_code_lifetime_seconds
      → get_token_hash new.value ≡ new.hash
      → t.grant_type ≡ some "authorization_code"
      → t.code ≡ some new.value
      → t.redirect_uri ≡ some ls.redirect_uri
      → authenticate_client "authorization_code" t w' ≡ some client
      → validate_grant_request get_token_hash verifier_hash words later t t.grant_type w'
        ≡ code_grant get_token_hash verifier_hash words client ls.redirect_uri t.code_verifier
            "authorization_code"
            (some (code_row now new session ls client))
  unfolding validate_grant_request validate_client validate_code
  validated now later new session ls client t w' xs added fresh alive hash gt code uri own =
      rw
        (
          gt,
          own,
          code,
          uri,
          hash,
          added,
          found_again now later new session ls client xs fresh alive,
        )
        refl

  code_grant_row :
      (now : Time) (new : NewCode) (session : SessionToken) (ls : LoginSession) (client : Client)
      (t : TokenRequest) (user : User)
      → code_grant get_token_hash verifier_hash words client ls.redirect_uri t.code_verifier
          "authorization_code"
          (some (code_row now new session ls client))
        ≡ (if pkce get_token_hash verifier_hash words ls.code_challenge
              (code_row now new session ls client).code_challenge_method
              t.code_verifier
            then granted
                (tokens_of t new session ls client user).grant
                (by_code (code_row now new session ls client))
            else refused invalid_grant)
  unfolding code_grant
  code_grant_row now new session ls client t user =
      ground (arith, eq_iff ls.redirect_uri ls.redirect_uri)

  answer_lem :
      (later : Time) (t : TokenRequest) (new : NewCode) (session : SessionToken) (ls : LoginSession)
      (client : Client) (user : User) (w : World) (passes : Bool) (row : AuthorizationCode)
      → get_user get_token_hash verifier_hash words session.user_id client.tenant_id w ≡ some user
      → (answer get_token_hash verifier_hash words later t
          (if passes
            then granted (tokens_of t new session ls client user).grant (by_code row)
            else refused invalid_grant)
          w).0
        ≡ (if passes
            then issued (tokens_of t new session ls client user)
            else token_error invalid_grant)
  unfolding answer issue_to issue
  answer_lem later t new session ls client user w true row known = rw known refl
  answer_lem later t new session ls client user w false row known = refl

  -- A code that /consent issued is worth tokens exactly for the holder of the verifier: once /consent has
  -- issued a code whose hash is new, a token request before the code expires, with this code and redirect URI
  -- and as its client, gets tokens for the session's user, with the login session's scope, nonce and level,
  -- if the PKCE check of the stored challenge passes, and "invalid_grant" if not.
  pub exchange-issued :
      (now later : Time) (new : NewCode) (session : SessionToken) (ls : LoginSession)
      (client : Client) (w w' : World) (cr : CodeRedirect) (t : TokenRequest) (user : User)
      → Issued now new session ls client w w' cr
      → exists (λ a. str_eq a.code new.hash) w.authorization_codes ≡ false
      → get_token_hash cr.code ≡ new.hash
      → later < now + seconds client.authorization_code_lifetime_seconds
      → t.grant_type ≡ some "authorization_code"
      → t.code ≡ some cr.code
      → t.redirect_uri ≡ some cr.redirect_uri
      → authenticate_client "authorization_code" t w' ≡ some client
      → get_user get_token_hash verifier_hash words session.user_id client.tenant_id w' ≡ some user
      → (token get_token_hash verifier_hash words later t w').0 ≡ (
          if pkce get_token_hash verifier_hash words ls.code_challenge
            (code_row now new session ls client).code_challenge_method
            t.code_verifier
          then issued (tokens_of t new session ls client user)
          else token_error invalid_grant)
  unfolding token
  exchange-issued now later new session ls client w w' cr t user (same, added, gone) fresh hash
        alive gt code uri own known =
      let v =
        validated now later new session ls client t w' w.authorization_codes added fresh alive
          (rw same at hash) gt (rw same at code) (rw same at uri) own
        ∙ code_grant_row now new session ls client t user in
      ap (λ x. (answer get_token_hash verifier_hash words later t x w').0) v
      ∙ answer_lem later t new session ls client user w' _ (code_row now new session ls client)
          known
