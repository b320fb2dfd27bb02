-- ===== src/Challenge/Tests.antt =====
-- The challenge on concrete login sessions.
use fief.Flow.{without_mfa_state}
use fief.Challenge.Gate.{passkey_only_bounced}
use fief.Flow.Response.{plain, redirect, login_route}
use fief.Challenge.Handlers.{mfa_totp}
use fief.Samples.{
  alice_session, request_info, new_token, otp, no_limiter, settings, same, passkey_world, alice,
}
use fief.Challenge.Attempts.{Event, attempt, relogin, elsewhere}
use fief.Login.{LoginRequest}
use fief.Totp.{get_confirmed, count_passkeys}
use fief.Challenge.{ChallengeRequest}
use fief.Prelude.{
  get, true, some, ◌∷◌, none, count, [], ◌≡◌, arith, refl, select, ◌==◌, false, List,
}

abbrev open_page : ChallengeRequest
open_page = record {
  is_get = true;
  form_code = none;
  login_session = some alice_session;
  session_token = none;
  info = request_info;
  new_token = new_token;
}

passkey_only_bounced_example :
    let (response, s', w') = mfa_totp otp no_limiter settings same 7 open_page 0 passkey_world in
    (response ≡ plain (redirect login_route))
    × (get w'.login_sessions alice_session.id ≡ some (without_mfa_state alice_session))
    × (get w'.users alice.id ≡ some alice)
    × (select (λ c. c.user_id == alice.id) w'.recovery_codes ≡ [])
unfolding get get_confirmed count_passkeys count
passkey_only_bounced_example =
    passkey_only_bounced otp no_limiter settings same 7 open_page 0 passkey_world alice_session
      alice refl refl refl refl refl refl refl omega arith

abbrev alice_login : LoginRequest
alice_login = record {
  form = some ("alice", "pw");
  tenant = record {
    id = 1;
    mfa_required = false;
    registration_allowed = true;
    breached_password_threshold = none;
  };
  login_session = some alice_session;
  session_token = none;
  info = request_info;
  new_token = new_token;
}

-- two wrong codes, a right password of `alice`, and a third wrong code
abbrev tries : List Event
tries =
    attempt 8 "invalid_totp" "bad_code"
    ∷ attempt 9 "invalid_totp" "bad_code"
    ∷ relogin true 10 alice_login alice
    ∷ elsewhere (λ w. w)
    ∷ attempt 11 "invalid_totp" "bad_code"
    ∷ []
