-- ===== src/Token/Tests.antt =====
-- Token requests of a concrete client.
use fief.Token.Rotation.{token_rotates}
use fief.Token.Codes.{Redeems, token-Redeems}
use fief.Token.SingleUse.{Event, requested, code_issued, happen, token_single_use}
use fief.Models.{level_zero, AuthorizationCode, RefreshToken}
use fief.Samples.{alice_code, request_info, new_token, shop, alice, same, world}
use fief.Prelude.{
  String, some, ◌∷◌, List, [], none, get, select_one, exists, ◌≡◌, ◌≢◌, ◌<◌, true, ◌==◌, refl,
  false,
}
use fief.Token.{
  TokenRequest, Tokens, token, validate_grant_request, validate_client, authenticate_client,
  validate_code, code_grant, pkce, verify_code_verifier, validate_refresh_token, refresh_grant,
  is_subset, answer, issue_to, issue, get_by_token, issued,
}

abbrev one_word : String → List String
one_word s = s ∷ []

abbrev exchange : TokenRequest
exchange = record {
  grant_type = some "authorization_code";
  basic = some ("shop", "secret");
  client_id = none;
  client_secret = none;
  code = some "code";
  code_verifier = some "verifier";
  redirect_uri = some "uri";
  refresh_token = none;
  scope = none;
  info = request_info;
  new_token = new_token;
}

abbrev refresh : TokenRequest
refresh = record exchange {
  grant_type = some "refresh_token";
  code = none;
  refresh_token = some "refresh";
}

abbrev code_tokens : Tokens
code_tokens = record {
  grant = record {
    user_id = 1;
    scope = "openid" ∷ [];
    authenticated_at = 3;
    acr = level_zero;
    nonce = none;
    c_hash = some "c";
    client = shop;
    grant_type = "authorization_code";
  };
  user = alice;
  refresh_token = none;
}

abbrev refreshed_tokens : Tokens
refreshed_tokens = record {
  grant = record {
    user_id = 1;
    scope = "openid" ∷ "offline_access" ∷ [];
    authenticated_at = 3;
    acr = level_zero;
    nonce = none;
    c_hash = none;
    client = shop;
    grant_type = "refresh_token";
  };
  user = alice;
  refresh_token = some "new";
}

token-Redeems_example :
    (a : AuthorizationCode) × Redeems same same one_word 7 exchange world code_tokens.grant a
    × (7 < a.expires_at)
unfolding token validate_grant_request validate_client authenticate_client validate_code code_grant
    pkce verify_code_verifier validate_refresh_token refresh_grant is_subset answer issue_to issue
    get select_one exists
token-Redeems_example = token-Redeems same same one_word 7 exchange world code_tokens refl refl

-- a second request and a new code, between the exchange and the attempt to repeat it
abbrev meanwhile : List Event
meanwhile = requested 8 exchange ∷ code_issued (record alice_code { code = "other" }) ∷ []

token_single_use_example :
    (token same same one_word 9 exchange
      (happen same same one_word meanwhile (token same same one_word 7 exchange world).1)).0
    ≢ issued code_tokens
unfolding token validate_grant_request validate_client authenticate_client validate_code code_grant
    pkce verify_code_verifier validate_refresh_token refresh_grant is_subset answer issue_to issue
    get select_one exists happen
token_single_use_example =
    token_single_use same same one_word 7 9 exchange exchange "code" meanwhile world code_tokens
      code_tokens refl refl refl refl (tt, (refl, tt)) refl

token_rotates_example :
    (presented : String) × (refresh.refresh_token ≡ some presented)
    × (s : RefreshToken) × (get_by_token same same one_word 7 (same presented) world ≡ some s)
    × (s.client_id ≡ refreshed_tokens.grant.client.id)
    × (refreshed_tokens.grant.user_id ≡ s.user_id)
    × (is_subset refreshed_tokens.grant.scope s.scope ≡ true)
    × (let (_, w') = token same same one_word 7 refresh world in
        exists (λ x. x.id == s.id) w'.refresh_tokens ≡ false)
unfolding token validate_grant_request validate_client authenticate_client validate_code code_grant
    pkce verify_code_verifier validate_refresh_token refresh_grant is_subset answer issue_to issue
    get select_one exists
token_rotates_example = token_rotates same same one_word 7 refresh world refreshed_tokens refl refl
