-- ===== src/Passkeys/Assertion.antt =====
-- What an accepted passkey assertion shows: `verify_assertion` of fief/services/security/webauthn.py.
use fief.Prelude.{
  String, ℕ, Option, ◌≡◌, some, ok, false, arith, ap, none, refl, List, ◌≢◌, Option-cases, err, inl,
  inr, ◌⊎◌, ◌<◌, Bool-cases, ◌==◌,
}
use fief.Models.{User, audit_logger, Time, UserWebAuthnCredential, World}
use fief.Passkeys.{
  Ceremonies, KeyValue, verify_assertion, assertion_accepted, assertion_found,
  AuthenticatorResponse, auth_key, update_after_assertion, is_rollback, decoded, credential_named,
  get_by_credential_id, assertion_popped, ChallengeKey, assertion_with, credential_of,
  challenge_expired,
}

is_rollback_lem :
    (stored received : ℕ)
    → is_rollback stored received ≡ false
    → (received ≡ 0) ⊎ ((stored ≡ 0) ⊎ (stored < received))
is_rollback_lem stored received h = elim (Bool-cases (received == 0)) [
  | inl zero_received ↦ inl (ground arith)
  | inr counted ↦ elim (Bool-cases (stored == 0)) [
    | inl zero_stored ↦ inr (inl (ground arith))
    | inr kept ↦ inr (inr (ground arith))
  ]
]

module _ (ceremonies : Ceremonies) {Store : Type 0} (redis : KeyValue Store) where
  -- the library accepted the response for this row and this challenge, and the count did not regress
  abbrev pub Accepted :
      User
      → String
      → String
      → ℕ
      → AuthenticatorResponse
      → Time
      → Store
      → World
      → UserWebAuthnCredential
      → ℕ
      → Type 0
  Accepted user rp_id origin ls r now s w cred received =
      (b64 : String) × (challenge : String) × (id : String) × (redis.get_key (auth_key ls) now s
        ≡ some b64)
      × (ceremonies.b64url_decode b64 ≡ some challenge)
      × (decoded ceremonies redis (credential_named r) ≡ some id)
      × (get_by_credential_id id w ≡ some cred)
      × (ceremonies.verify_authentication_response r challenge origin rp_id cred.public_key
            cred.sign_count
          ≡ some received)
      × ((received ≡ 0) ⊎ ((cred.sign_count ≡ 0) ⊎ (cred.sign_count < received)))

  assertion_accepted_lem :
      (now : Time) (user : User) (found cred : UserWebAuthnCredential) (read : Option ℕ) (w : World)
      → (assertion_accepted ceremonies redis now user found read w).0 ≡ ok cred
      → (found ≡ cred)
        × (received : ℕ) × (read ≡ some received)
        × (is_rollback found.sign_count received ≡ false)
        × ((assertion_accepted ceremonies redis now user found read w).1.passkeys
            ≡ (update_after_assertion found.credential_id received now w).passkeys)
  unfolding assertion_accepted audit_logger
  assertion_accepted_lem now user found cred none w h = absurd (ground arith)
  assertion_accepted_lem now user found cred (some received) w h =
      (ground arith, received, refl, ground arith, ground arith)

  -- what the library read for this row, and the row that is left
  abbrev Verified :
      User
      → String
      → String
      → AuthenticatorResponse
      → String
      → Time
      → World
      → List UserWebAuthnCredential
      → UserWebAuthnCredential
      → Type 0
  Verified user rp_id origin r challenge now w left c =
      (received : ℕ) × (ceremonies.verify_authentication_response r challenge origin rp_id
          c.public_key c.sign_count
        ≡ some received)
      × (is_rollback c.sign_count received ≡ false)
      × (left ≡ (update_after_assertion c.credential_id received now w).passkeys)

  moved :
      (user : User) (rp_id origin : String) (r : AuthenticatorResponse) (challenge : String)
      (now : Time) (w : World) (left : List UserWebAuthnCredential) (c d : UserWebAuthnCredential)
      → c ≡ d
      → Verified user rp_id origin r challenge now w left c
      → Verified user rp_id origin r challenge now w left d
  moved user rp_id origin r challenge now w left c d same v = rw same at v

  assertion_found_lem :
      (now : Time) (user : User) (rp_id origin : String) (r : AuthenticatorResponse)
      (challenge : String) (found : Option UserWebAuthnCredential) (w : World)
      (cred : UserWebAuthnCredential)
      → (assertion_found ceremonies redis now user rp_id origin r challenge found w).0 ≡ ok cred
      → (found ≡ some cred)
        × Verified user rp_id origin r challenge now w
            (assertion_found ceremonies redis now user rp_id origin r challenge found w).1.passkeys
            cred
  unfolding assertion_found
  assertion_found_lem now user rp_id origin r challenge none w cred h = absurd (ground arith)
  assertion_found_lem now user rp_id origin r challenge (some c) w cred h =
      let read =
        ceremonies.verify_authentication_response r challenge origin rp_id c.public_key
          c.sign_count in
      let (same, received, verified, kept, left) =
        assertion_accepted_lem now user c cred read w h in
      (
        ap some same,
        moved user rp_id origin r challenge now w
            (assertion_accepted ceremonies redis now user c read w).1.passkeys c cred same
            (received, verified, kept, left),
      )

  assertion_with_lem :
      (now : Time) (user : User) (rp_id origin : String) (r : AuthenticatorResponse)
      (challenge : Option String) (w : World) (cred : UserWebAuthnCredential)
      → (assertion_with ceremonies redis now user rp_id origin r challenge w).0 ≡ ok cred
      → (c : String) × (id : String) × (challenge ≡ some c)
        × (decoded ceremonies redis (credential_named r) ≡ some id)
        × (get_by_credential_id id w ≡ some cred)
        × Verified user rp_id origin r c now w
            (assertion_with ceremonies redis now user rp_id origin r challenge w).1.passkeys
            cred
  unfolding assertion_with
  assertion_with_lem now user rp_id origin r none w cred h = absurd (ground arith)
  assertion_with_lem now user rp_id origin r (some c) w cred h =
      let (found, verified) =
        assertion_found_lem now user rp_id origin r c
          (credential_of ceremonies redis (decoded ceremonies redis (credential_named r)) w) w cred
          h in
      elim (Option-cases (decoded ceremonies redis (credential_named r))) [
        | inl e ↦ absurd (ground (arith, rw e at found))
        | inr (id, e) ↦ (c, id, refl, e, rw e at found, verified)
      ]

  assertion_popped_lem :
      (now : Time) (user : User) (rp_id origin : String) (ls : ℕ) (r : AuthenticatorResponse)
      (stored : Option String) (s : Store) (w : World) (cred : UserWebAuthnCredential)
      → (assertion_popped ceremonies redis now user rp_id origin ls r stored s w).0 ≡ ok cred
      → (b64 : String) × (c : String) × (id : String) × (stored ≡ some b64)
        × (ceremonies.b64url_decode b64 ≡ some c)
        × (decoded ceremonies redis (credential_named r) ≡ some id)
        × (get_by_credential_id id w ≡ some cred)
        × Verified user rp_id origin r c now w
            (assertion_popped ceremonies redis now user rp_id origin ls r stored s w).2.passkeys
            cred
        × ((assertion_popped ceremonies redis now user rp_id origin ls r stored s w).1
            ≡ redis.delete_key (auth_key ls) s)
  unfolding assertion_popped
  assertion_popped_lem now user rp_id origin ls r none s w cred h = absurd (ground arith)
  assertion_popped_lem now user rp_id origin ls r (some b64) s w cred h =
      let (c, id, challenge, named, row, verified) =
        assertion_with_lem now user rp_id origin r (ceremonies.b64url_decode b64) w cred h in
      (b64, c, id, refl, challenge, named, row, verified, refl)

  -- A passkey assertion is accepted only for the challenge that is stored for this login session, with
  -- a registered credential whose public key verifies it, and if the new count is above the stored
  -- one or one of them is zero. Then the row keeps the count and the time, and the challenge is gone.
  pub verify_assertion-Accepted :
      (now : Time) (user : User) (rp_id origin : String) (ls : ℕ) (r : AuthenticatorResponse)
      (s : Store) (w : World) (cred : UserWebAuthnCredential)
      → (verify_assertion ceremonies redis now user rp_id origin ls r s w).0 ≡ ok cred
      → (let (_, s', w') = verify_assertion ceremonies redis now user rp_id origin ls r s w in
          (received : ℕ) × Accepted user rp_id origin ls r now s w cred received
          × (s' ≡ redis.delete_key (auth_key ls) s)
          × (w'.passkeys ≡ (update_after_assertion cred.credential_id received now w).passkeys))
  unfolding verify_assertion
  verify_assertion-Accepted now user rp_id origin ls r s w cred h =
      let (b64, c, id, stored, challenge, named, row, (received, verified, kept, left), gone) =
        assertion_popped_lem now user rp_id origin ls r (redis.get_key (auth_key ls) now s) s w cred
          h in
      (
        received,
        (
          b64,
          c,
          id,
          stored,
          challenge,
          named,
          row,
          verified,
          is_rollback_lem cred.sign_count received kept,
        ),
        gone,
        left,
      )

  -- A challenge serves once: after any assertion that found one, whether it was accepted or not, and
  -- however later, a second one on the same login session fails and changes nothing. Redis forgets a
  -- deleted key.
  pub verify_assertion-challenge_expired :
      (now later : Time) (user user' : User) (rp_id origin rp_id' origin' : String) (ls : ℕ)
      (r r' : AuthenticatorResponse) (s : Store) (w w'' : World)
      → ((k : ChallengeKey) (t : Time) (x : Store)
          → redis.get_key k t (redis.delete_key k x) ≡ none)
      → (verify_assertion ceremonies redis now user rp_id origin ls r s w).0 ≢ err challenge_expired
      → (let (_, s', _) = verify_assertion ceremonies redis now user rp_id origin ls r s w in
          verify_assertion ceremonies redis later user' rp_id' origin' ls r' s' w''
          ≡ (err challenge_expired, s', w''))
  unfolding verify_assertion
  verify_assertion-challenge_expired now later user user' rp_id origin rp_id' origin' ls r r' s w
        w'' forgets first =
      elim (Option-cases (redis.get_key (auth_key ls) now s)) [
        | inl e ↦ absurd (first (rw e refl))
        | inr (b64, e) ↦ rw (e, forgets) refl
      ]
