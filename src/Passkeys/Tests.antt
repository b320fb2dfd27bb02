-- ===== src/Passkeys/Tests.antt =====
-- Ceremonies with a library that accepts everything.
use fief.Passkeys.Ownership.{foreign_passkey_completes}
use fief.Passkeys.Assertion.{
  Accepted, verify_assertion-challenge_expired, verify_assertion-Accepted,
}
use fief.Flow.Response.{verify_email_request_route}
use fief.Passkeys.Registration.{Registered, finish_registration-Registered, delete_credential_lem}
use fief.Challenge.{gate_mfa_challenge}
use fief.Totp.{has_factor, get_confirmed, count_passkeys}
use fief.Samples.{alice_session, world, request_info, new_token, alice, bob, passkey}
use fief.Models.{World, LoginSession, Time}
use fief.Passkeys.Routes.{PasskeyRequest, mfa_passkey_verify, json_redirect}
use fief.Prelude.{
  get, Option, Bool, none, some, [], select_one, true, String, ◌==◌, if◌then◌else◌, ◌≡◌, ◌+◌, count,
  arith, exists, false, ℕ, ◌&&◌, err, str_eq, refl,
}
use fief.Passkeys.{
  KeyValue, AuthenticatorResponse, Ceremonies, VerifiedRegistration, ChallengeKey, verify_assertion,
  assertion_popped, get_by_credential_id, finish_registration, register_popped, assertion_with,
  reg_key, assertion_found, register_with, auth_key, store_credential, assertion_accepted,
  delete_credential, registered_row, list_by_user_id, challenge_expired, update_after_assertion,
}

abbrev same_key : ChallengeKey → ChallengeKey → Bool
same_key (reg_key m) (reg_key n) = m == n
same_key (auth_key m) (auth_key n) = m == n
same_key (reg_key m) (auth_key n) = false
same_key (auth_key m) (reg_key n) = false

-- a store without expiry
abbrev redis : KeyValue (ChallengeKey → Option String)
redis = record {
  get_key = λ k now s. s k;
  set_key = λ k v lifetime now s j. if same_key j k then some v else s j;
  delete_key = λ k s j. if same_key j k then none else s j;
}

forgets :
    (k : ChallengeKey) (t : Time) (x : ChallengeKey → Option String)
    → redis.get_key k t (redis.delete_key k x) ≡ none
forgets (reg_key n) t x = ground arith
forgets (auth_key n) t x = ground arith

abbrev ceremonies : Ceremonies
ceremonies = record {
  b64url_encode = λ s. s;
  b64url_decode = λ s. some s;
  hex32 = λ s. s;
  verify_registration_response = λ r challenge origin rp_id. some (record {
    credential_id = r.body;
    credential_public_key = "public";
    sign_count = 0;
    aaguid = none;
    multi_device = true;
    credential_backed_up = true;
  });
  verify_authentication_response = λ r challenge origin rp_id public_key n. some (n + 1);
}

abbrev waiting : ChallengeKey → Option String
waiting k = some "challenge"

abbrev reply : AuthenticatorResponse
reply = record { raw_id = some "key"; id = none; transports = []; body = "other" }

-- the key of `alice` is the one that answers for `bob`
abbrev bob_login : LoginSession
bob_login = record alice_session { mfa_pending_user_id = some 2 }

abbrev bob_request : PasskeyRequest
bob_request = record {
  login_session = some bob_login;
  session_token = none;
  info = request_info;
  new_token = new_token;
  rp_id = "fief";
  origin = "https://fief";
  response = reply;
}

abbrev flagged : World
flagged = record world { totp_secrets = record { entries = [] } }

verify_assertion-Accepted_example :
    (let (_, s', w') =
        verify_assertion ceremonies redis 7 alice "fief" "https://fief" 9 reply waiting world in
      (received : ℕ) × Accepted ceremonies redis alice "fief" "https://fief" 9 reply 7 waiting world
        passkey received
      × (s' ≡ redis.delete_key (auth_key 9) waiting)
      × (w'.passkeys ≡ (update_after_assertion passkey.credential_id received 7 world).passkeys))
unfolding verify_assertion assertion_popped assertion_with assertion_found assertion_accepted
    get_by_credential_id select_one
verify_assertion-Accepted_example =
    verify_assertion-Accepted ceremonies redis 7 alice "fief" "https://fief" 9 reply waiting world
      passkey refl

verify_assertion-challenge_expired_example :
    (let (_, s', _) =
        verify_assertion ceremonies redis 7 alice "fief" "https://fief" 9 reply waiting world in
      verify_assertion ceremonies redis 8 bob "fief" "https://fief" 9 reply s' world
      ≡ (err challenge_expired, s', world))
unfolding verify_assertion assertion_popped assertion_with assertion_found assertion_accepted
    get_by_credential_id select_one
verify_assertion-challenge_expired_example =
    verify_assertion-challenge_expired ceremonies redis 7 8 alice bob "fief" "https://fief" "fief"
      "https://fief" 9 reply reply waiting world world forgets (λ e. absurd (ground arith))

foreign_passkey_completes_example :
    (let (answer, _, w') = mfa_passkey_verify ceremonies redis 7 bob_request waiting world in
      (answer ≡ json_redirect verify_email_request_route bob_request.new_token.value)
      × (exists
            (λ t. str_eq t.token bob_request.new_token.hash && (t.user_id == bob.id))
            w'.session_tokens
          ≡ true))
unfolding get get_by_credential_id select_one gate_mfa_challenge
foreign_passkey_completes_example =
    foreign_passkey_completes ceremonies redis 7 bob_request waiting world bob_login bob "challenge"
      "challenge" "key" passkey 1 refl refl refl refl refl refl refl (λ e. absurd (omega arith))

delete_credential_lem_example :
    (let (deleted, w') = delete_credential alice 60 flagged in
      (deleted ≡ exists (λ c. (c.id == 60) && (c.user_id == alice.id)) flagged.passkeys)
      × (exists (λ c. (c.id == 60) && (c.user_id == alice.id)) w'.passkeys ≡ false)
      × (get w'.users alice.id ≡ some (record alice { mfa_enabled = has_factor alice.id w' }))
      × (list_by_user_id 2 w' ≡ list_by_user_id 2 flagged))
unfolding get has_factor get_confirmed count_passkeys count
delete_credential_lem_example =
    delete_credential_lem alice 60 2 flagged refl refl (λ e. absurd (omega arith))

abbrev read : VerifiedRegistration
read = record {
  credential_id = "other";
  credential_public_key = "public";
  sign_count = 0;
  aaguid = none;
  multi_device = true;
  credential_backed_up = true;
}

finish_registration-Registered_example :
    (let (_, s', w') =
        finish_registration ceremonies redis 7 61 alice "fief" "https://fief" reply waiting world in
      Registered ceremonies redis alice
        (registered_row ceremonies redis 7 61 alice reply read)
        world
        w'
      × (s' ≡ redis.delete_key (reg_key alice.id) waiting)
      × (get_by_credential_id
            (registered_row ceremonies redis 7 61 alice reply read).credential_id
            w'
          ≡ some (registered_row ceremonies redis 7 61 alice reply read)))
unfolding get finish_registration register_popped register_with store_credential exists
finish_registration-Registered_example =
    finish_registration-Registered ceremonies redis 7 61 alice "fief" "https://fief" reply waiting
      world (registered_row ceremonies redis 7 61 alice reply read) refl refl
