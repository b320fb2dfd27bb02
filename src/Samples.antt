-- ===== src/Samples.antt =====
-- Concrete data for the tests: a small deployment, and operations that stand for the libraries.
use fief.RateLimit.{allowed}
use fief.Totp.{Otp, current_step}
use fief.Flow.Response.{Limiter, Settings}
use fief.Flow.{RequestInfo, NewToken}
use fief.Prelude.{
  ℕ, List, String, [], some, none, true, ◌∷◌, suc, false, ◌+◌, str_eq, zero, leb, ◌≡◌, arith, ◌&&◌,
  refl,
}
use fief.Recovery.{Hasher}
use fief.Models.{
  RefreshToken, UserTotpSecret, LoginSession, UserMfaRecoveryCode, Client, SessionToken, User,
  UserWebAuthnCredential, World, AuthorizationCode, confidential, level_zero,
}

abbrev pub alice : User
alice = record {
  id = 1;
  tenant_id = 1;
  email = "alice";
  email_verified = true;
  hashed_password = "pw";
  is_active = true;
  mfa_enabled = true;
}

abbrev pub bob : User
bob = record {
  id = 2;
  tenant_id = 1;
  email = "bob";
  email_verified = true;
  hashed_password = "pw";
  is_active = true;
  mfa_enabled = false;
}

abbrev pub alice_secret : UserTotpSecret
alice_secret = record { secret_encrypted = "s"; confirmed_at = some 1; last_used_step = none }

abbrev pub alice_session : LoginSession
alice_session = record {
  id = 9;
  token = "login";
  response_type = "code";
  redirect_uri = "uri";
  response_mode = "query";
  scope = "openid" ∷ [];
  prompt = none;
  state = none;
  nonce = none;
  acr = level_zero;
  code_challenge = some "verifier";
  code_challenge_method = some "plain";
  client_id = 5;
  branding_origin = none;
  expires_at = 1000000000;
  mfa_pending_user_id = some 1;
  mfa_attempts_count = 0;
  mfa_locked_until = none;
}

abbrev pub browser_session : SessionToken
browser_session = record {
  id = 30;
  token = "old";
  user_id = 1;
  created_at = 0;
  expires_at = 1000000000;
  created_ip = none;
  created_user_agent = none;
  last_seen_at = none;
  last_seen_ip = none;
}

abbrev pub shop : Client
shop = record {
  id = 5;
  tenant_id = 1;
  client_id = "shop";
  client_secret = "secret";
  client_type = confidential;
  first_party = true;
  redirect_uris = "uri" ∷ [];
  branding_signing_key = none;
  authorization_code_lifetime_seconds = 600;
  refresh_token_lifetime_seconds = 60;
}

abbrev pub alice_refresh : RefreshToken
alice_refresh = record {
  id = 40;
  token = "refresh";
  scope = "openid" ∷ "offline_access" ∷ [];
  authenticated_at = 3;
  user_id = 1;
  client_id = 5;
  created_at = 3;
  expires_at = 1000000000;
  created_ip = none;
  created_user_agent = none;
  last_seen_at = none;
  last_seen_ip = none;
}

abbrev pub alice_code : AuthorizationCode
alice_code = record {
  code = "code";
  c_hash = "c";
  redirect_uri = "uri";
  scope = "openid" ∷ [];
  authenticated_at = 3;
  nonce = none;
  acr = level_zero;
  code_challenge = some "verifier";
  code_challenge_method = some "plain";
  user_id = 1;
  client_id = 5;
  expires_at = 1000000000;
}

abbrev pub recovery_row : UserMfaRecoveryCode
recovery_row = record { id = 50; user_id = 1; code_hash = "11111111"; used_at = none }

abbrev pub passkey : UserWebAuthnCredential
passkey = record {
  id = 60;
  user_id = 1;
  credential_id = "key";
  public_key = "public";
  sign_count = 0;
  transports = [];
  aaguid = none;
  backup_eligible = false;
  backup_state = false;
  label = none;
  created_at = 0;
  last_used_at = none;
}

abbrev pub world : World
world = record {
  users = record { entries = (1, alice) ∷ (2, bob) ∷ [] };
  clients = shop ∷ [];
  lockouts = record { entries = (1, record { failed_count = 4; locked_until = none }) ∷ [] };
  totp_secrets = record { entries = (1, alice_secret) ∷ [] };
  recovery_codes = recovery_row ∷ [];
  passkeys = passkey ∷ [];
  login_sessions = record { entries = (9, alice_session) ∷ [] };
  session_tokens = browser_session ∷ [];
  refresh_tokens = alice_refresh ∷ [];
  authorization_codes = alice_code ∷ [];
  grants = [];
  email_verifications = [];
  user_field_values = [];
  audit = [];
  tasks = [];
}

-- the deployment with a lock on the account of `alice`
abbrev pub locked_world : World
locked_world = record world {
  lockouts = record {
    entries = (1, record { failed_count = 5; locked_until = some 60000000 }) ∷ [];
  };
}

-- the deployment in which `alice` has a passkey only
abbrev pub passkey_world : World
passkey_world = record world { totp_secrets = record { entries = [] } }

-- a code for each step, in unary
unfoldable pub unary : ℕ → String
unary zero = ""
unary (suc n) = String.◌∷◌ "1" (unary n)

abbrev pub size : String → ℕ
size String.[] = 0
size (String.◌∷◌ c s) = size s + 1

pub size-unary : (n : ℕ) → size (unary n) ≡ n
unfolding unary
size-unary zero = refl
size-unary (suc n) = omega (arith, size-unary n)

-- The code of a step is its number in unary, valid in the steps next to it as well.
abbrev pub otp : Otp
otp = record {
  encrypt = λ s. s;
  decrypt = λ s. some s;
  verify = λ secret code now.
      leb (size code) (current_step now + 1) && leb (current_step now) (size code + 1);
  provisioning_uri = λ secret email label. secret;
  qr_data_uri = λ uri. uri;
}

abbrev pub spell : List ℕ → String
spell [] = ""
spell (c ∷ s) = String.◌∷◌ "1" (spell s)

-- a hash that keeps the length only
abbrev pub hasher : Hasher
hasher = record { hash = spell; verify = λ s h. some (str_eq (spell s) h) }

abbrev pub request_info : RequestInfo
request_info = record {
  ip_raw = "10.0.0.1";
  ip_rate_limit_key = "10.0.0.1";
  user_agent = some "browser";
}

abbrev pub new_token : NewToken
new_token = record { id = 31; value = "new"; hash = "hash"; lifetime_seconds = 3600 }

-- rate limits off
abbrev pub settings : Settings
settings = record {
  rate_limit_enabled = false;
  rate_limit_login_per_ip_per_min = 10;
  rate_limit_login_per_email_per_min = 5;
  rate_limit_mfa_per_ip_per_min = 10;
}

abbrev pub no_limiter : Limiter ℕ
no_limiter scope key window now s = (allowed 1, s + 1)

abbrev pub same : String → String
same s = s
