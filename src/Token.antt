-- ===== src/Token.antt =====
-- The token endpoint: fief/dependencies/token.py, fief/apps/auth/routers/token.py and
-- `verify_code_verifier` of fief/crypto/code_challenge.py, with the lookups of the repositories of
-- clients, authorization codes and refresh tokens. `get_token_hash` is the HMAC of
-- fief/crypto/token.py, `verifier_hash` the URL-safe SHA-256 of a verifier, `words` is `str.split()`.
-- An authorization code is named by its unique column `code`. The signing of the tokens and the
-- permissions in them are left out: `Tokens` holds what is signed.
pub mod Codes
pub mod SingleUse
pub mod Rotation
mod Tests
use fief.Flow.{RequestInfo, NewToken}
use fief.Prelude.{
  ℕ, String, Option, List, Bool, if◌then◌else◌, some, not, select_one, update, ◌+◌, get, ◌==◌,
  delete, true, exists, ◌++◌, none, str_eq, ◌∷◌, ◌&&◌, false, ◌||◌, [], ltb, is_some,
}
use fief.Models.{
  Client, AuthorizationCode, User, World, Time, RefreshToken, public, Acr, seconds, level_zero,
  is_expired, confidential, audit_logger, user_token_generated, text, number, texts,
}

pub data TokenError : Type 0 where
  invalid_request invalid_client invalid_grant invalid_scope : TokenError
  unsupported_grant_type : TokenError

-- the fields of the form, the credentials of the Authorization header, what the request brings and
-- what `generate_token` would give for a new refresh token
pub record TokenRequest : Type 0 where
  pub grant_type : Option String
  pub basic : Option (String × String)
  pub client_id : Option String
  pub client_secret : Option String
  pub code : Option String
  pub code_verifier : Option String
  pub redirect_uri : Option String
  pub refresh_token : Option String
  pub scope : Option String
  pub info : RequestInfo
  pub new_token : NewToken

pub record GrantRequest : Type 0 where
  pub user_id : ℕ
  pub scope : List String
  pub authenticated_at : Time
  pub acr : Acr
  pub nonce : Option String
  pub c_hash : Option String
  pub client : Client
  pub grant_type : String

-- the row that the dependency deletes after the response is made
pub data Presented : Type 0 where
  by_code : AuthorizationCode → Presented
  by_refresh_token : RefreshToken → Presented

pub data Validated : Type 0 where
  granted : GrantRequest → Presented → Validated
  refused : TokenError → Validated

pub record Tokens : Type 0 where
  pub grant : GrantRequest
  pub user : User
  pub refresh_token : Option String

pub data TokenAnswer : Type 0 where
  issued : Tokens → TokenAnswer
  token_error : TokenError → TokenAnswer

abbrev pub by_client_id_and_secret : String → String → World → Option Client
by_client_id_and_secret client_id secret w =
    select_one (λ c. str_eq c.client_id client_id && str_eq c.client_secret secret) w.clients

abbrev authenticate_client_secret : Option String → Option String → World → Option Client
authenticate_client_secret none secret w = none
authenticate_client_secret (some client_id) none w = none
authenticate_client_secret (some client_id) (some secret) w =
    by_client_id_and_secret client_id secret w

abbrev authenticate_client_secret_basic : Option (String × String) → World → Option Client
authenticate_client_secret_basic none w = none
authenticate_client_secret_basic (some (client_id, secret)) w =
    by_client_id_and_secret client_id secret w

abbrev pub is_public : Client → Bool
is_public c = elim c.client_type [ public ↦ true | confidential ↦ false ]

-- the client without a secret: public, and with a verifier for the code grant
abbrev pub public_client : String → Option String → Client → Option Client
public_client grant_type verifier client =
    if not (is_public client) || (str_eq grant_type "authorization_code" && not (is_some verifier))
    then none
    else some client

abbrev authenticate_none : String → Option String → Option String → World → Option Client
authenticate_none grant_type none verifier w = none
authenticate_none grant_type (some client_id) verifier w =
    elim (select_one (λ (c : Client). str_eq c.client_id client_id) w.clients) [
      | none ↦ none
      | some client ↦ public_client grant_type verifier client
    ]

abbrev first : Option Client → Option Client → Option Client
first none c = c
first (some c) _ = some c

unfoldable pub authenticate_client : String → TokenRequest → World → Option Client
authenticate_client grant_type r w = first (authenticate_client_secret_basic r.basic w) (
    first (authenticate_client_secret r.client_id r.client_secret w)
      (authenticate_none grant_type r.client_id r.code_verifier w))

-- set(xs).issubset(set(ys))
unfoldable pub is_subset : List String → List String → Bool
is_subset [] ys = true
is_subset (x ∷ xs) ys = exists (str_eq x) ys && is_subset xs ys

module _ (get_token_hash verifier_hash : String → String) (words : String → List String) where
  unfoldable pub verify_code_verifier : String → String → String → Bool
  verify_code_verifier verifier challenge method =
      if str_eq method "plain"
      then str_eq verifier challenge
      else if str_eq method "S256"
      then str_eq (verifier_hash verifier) challenge
      else false

  -- the check of the verifier against the challenge and the method that the code was issued with
  unfoldable pub pkce : Option String → Option String → Option String → Bool
  unfolding verify_code_verifier
  pkce none method none = true
  pkce none method (some verifier) = false
  pkce (some challenge) method none = false
  pkce (some challenge) none (some verifier) = false
  pkce (some challenge) (some method) (some verifier) =
      verify_code_verifier verifier challenge method

  -- the row of a code that is not expired
  abbrev pub get_valid_by_code : Time → String → World → Option AuthorizationCode
  get_valid_by_code now code w =
      select_one (λ a. str_eq a.code code && ltb now a.expires_at) w.authorization_codes

  unfoldable pub code_grant :
      Client → String → Option String → String → Option AuthorizationCode → Validated
  unfolding pkce
  code_grant client redirect_uri verifier grant_type none = refused invalid_grant
  code_grant client redirect_uri verifier grant_type (some a) =
      if (a.client_id == client.id)
        && str_eq a.redirect_uri redirect_uri
        && pkce a.code_challenge a.code_challenge_method verifier
      then granted
          (record {
            user_id = a.user_id;
            scope = a.scope;
            authenticated_at = a.authenticated_at;
            acr = a.acr;
            nonce = a.nonce;
            c_hash = some a.c_hash;
            client = client;
            grant_type = grant_type;
          })
          (by_code a)
      else refused invalid_grant

  unfoldable pub validate_code :
      Time → Client → Option String → Option String → TokenRequest → World → Validated
  unfolding code_grant
  validate_code now client none redirect_uri r w = refused invalid_request
  validate_code now client (some code) none r w = refused invalid_request
  validate_code now client (some code) (some redirect_uri) r w =
      code_grant client redirect_uri r.code_verifier "authorization_code"
        (get_valid_by_code now (get_token_hash code) w)

  -- RefreshTokenRepository.get_by_token with `fresh`
  abbrev pub get_by_token : Time → String → World → Option RefreshToken
  get_by_token now token w =
      select_one (λ t. str_eq t.token token && not (is_expired now t.expires_at)) w.refresh_tokens

  abbrev pub new_scope : Option String → RefreshToken → List String
  new_scope none t = t.scope
  new_scope (some scope) t = words scope

  unfoldable pub refresh_grant : Client → Option String → Option RefreshToken → Validated
  unfolding is_subset
  refresh_grant client scope none = refused invalid_grant
  refresh_grant client scope (some t) =
      if not (t.client_id == client.id)
      then refused invalid_grant
      else if not (is_subset (new_scope scope t) t.scope)
      then refused invalid_scope
      else granted
          (record {
            user_id = t.user_id;
            scope = new_scope scope t;
            authenticated_at = t.authenticated_at;
            acr = level_zero;
            nonce = none;
            c_hash = none;
            client = client;
            grant_type = "refresh_token";
          })
          (by_refresh_token t)

  unfoldable pub validate_refresh_token :
      Time → Client → Option String → Option String → World → Validated
  unfolding refresh_grant
  validate_refresh_token now client none scope w = refused invalid_request
  validate_refresh_token now client (some token) scope w =
      refresh_grant client scope (get_by_token now (get_token_hash token) w)

  unfoldable pub validate_client : Time → String → TokenRequest → Option Client → World → Validated
  unfolding validate_code validate_refresh_token
  validate_client now grant_type r none w = refused invalid_client
  validate_client now grant_type r (some client) w =
      if str_eq grant_type "authorization_code"
      then validate_code now client r.code r.redirect_uri r w
      else if str_eq grant_type "refresh_token"
      then validate_refresh_token now client r.refresh_token r.scope w
      else refused unsupported_grant_type

  unfoldable pub validate_grant_request : Time → TokenRequest → Option String → World → Validated
  unfolding authenticate_client validate_client
  validate_grant_request now r none w = refused invalid_request
  validate_grant_request now r (some grant_type) w =
      validate_client now grant_type r (authenticate_client grant_type r w) w

  -- UserManager.get
  abbrev pub get_user : ℕ → ℕ → World → Option User
  get_user id tenant w = elim (get w.users id) [
    | none ↦ none
    | some user ↦ if user.tenant_id == tenant then some user else none
  ]

  -- touch_last_seen of the presented row, which the endpoint reads again
  abbrev pub touch_presented : Time → TokenRequest → Presented → World → World
  touch_presented now r (by_code a) w = w
  touch_presented now r (by_refresh_token t) w = record w {
    refresh_tokens =
        update (λ s. s.id == t.id)
          (λ s. record s { last_seen_at = some now; last_seen_ip = some r.info.ip_raw })
          w.refresh_tokens;
  }

  abbrev pub new_refresh_token : Time → TokenRequest → GrantRequest → User → RefreshToken
  new_refresh_token now r g user = record {
    id = r.new_token.id;
    token = r.new_token.hash;
    scope = g.scope;
    authenticated_at = g.authenticated_at;
    user_id = user.id;
    client_id = g.client.id;
    created_at = now;
    expires_at = now + seconds g.client.refresh_token_lifetime_seconds;
    created_ip = some r.info.ip_raw;
    created_user_agent = r.info.user_agent;
    last_seen_at = some now;
    last_seen_ip = some r.info.ip_raw;
  }

  abbrev pub offers_refresh : GrantRequest → Bool
  offers_refresh g = exists (str_eq "offline_access") g.scope

  unfoldable pub issue :
      Time → TokenRequest → GrantRequest → Presented → User → World → Tokens × World
  issue now r g presented user w =
      let w' = touch_presented now r presented w in
      let w'' =
        if offers_refresh g
        then record w' { refresh_tokens = w'.refresh_tokens ++ new_refresh_token now r g user ∷ [] }
        else w' in
      (
        record {
          grant = g;
          user = user;
          refresh_token = if offers_refresh g then some r.new_token.value else none;
        },
        audit_logger user_token_generated (some user.id)
            (("grant_type", text g.grant_type)
              ∷ ("authenticated_at", number g.authenticated_at)
              ∷ ("scope", texts g.scope)
              ∷ [])
            w'',
      )

  -- what the dependency does after the response: the presented row is deleted
  abbrev pub consumed : Presented → World → World
  consumed (by_code a) w = record w {
    authorization_codes = delete (λ b. str_eq b.code a.code) w.authorization_codes;
  }
  consumed (by_refresh_token t) w = record w {
    refresh_tokens = delete (λ s. s.id == t.id) w.refresh_tokens;
  }

  unfoldable pub issue_to :
      Time → TokenRequest → GrantRequest → Presented → Option User → World → TokenAnswer × World
  unfolding issue
  issue_to now r g presented none w = (token_error invalid_grant, w)
  issue_to now r g presented (some user) w =
      let (tokens, w') = issue now r g presented user w in (issued tokens, consumed presented w')

  unfoldable pub answer : Time → TokenRequest → Validated → World → TokenAnswer × World
  unfolding issue_to
  answer now r (refused e) w = (token_error e, w)
  answer now r (granted g presented) w =
      issue_to now r g presented (get_user g.user_id g.client.tenant_id w) w

  -- POST /token
  unfoldable pub token : Time → TokenRequest → World → TokenAnswer × World
  unfolding validate_grant_request answer
  token now r w = answer now r (validate_grant_request now r r.grant_type w) w
