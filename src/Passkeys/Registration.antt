-- ===== src/Passkeys/Registration.antt =====
-- Registering and deleting passkeys, and the flag of the user: fief/services/security/webauthn.py.
use fief.Totp.Flag.{recompute_mfa_enabled_lem}
use fief.Totp.{has_factor, get_confirmed, count_passkeys, recompute_mfa_enabled}
use fief.Models.{User, World, UserWebAuthnCredential, audit_logger, Time}
use fief.Prelude.{
  count, ℕ, List, get, ◌≡◌, ◌==◌, some, true, ltb, ◌≢◌, ◌++◌, exists, ◌∷◌, [], ◌&&◌, arith, false,
  Bool-cases, inl, inr, Option, ap, ok, ◌∙◌, exists-delete_self, none, sym, select, str_eq,
  select-delete_disjoint, refl, select_one-eq-none, String, select_one, suc, select_one-append_none,
  eq_iff,
}
use fief.Passkeys.{
  delete_credential, list_by_user_id, delete_passkey, Ceremonies, KeyValue, store_credential,
  AuthenticatorResponse, VerifiedRegistration, get_by_credential_id, register_popped,
  finish_registration, register_with, registered_row, reg_key,
}

counted :
    (u : ℕ) (l : List UserWebAuthnCredential) (c : UserWebAuthnCredential)
    → (c.user_id == u) ≡ true
    → ltb 0 (count (λ x. x.user_id == u) (l ++ c ∷ [])) ≡ true
unfolding count
counted u [] c h = ground arith
counted u (x ∷ l) c h = ground (arith, counted u l c h)

-- After `delete` of a passkey the stored flag tells whether the user has a factor left, if the user was
-- as the database has it; it reports whether a row of this user was there, and then that row is
-- gone; the passkeys of every other user stay.
pub delete_credential_lem :
    (user : User) (id v : ℕ) (w : World)
    → get w.users user.id ≡ some user
    → user.mfa_enabled ≡ has_factor user.id w
    → user.id ≢ v
    → (let (deleted, w') = delete_credential user id w in
        (deleted ≡ exists (λ c. (c.id == id) && (c.user_id == user.id)) w.passkeys)
        × (exists (λ c. (c.id == id) && (c.user_id == user.id)) w'.passkeys ≡ false)
        × (get w'.users user.id ≡ some (record user { mfa_enabled = has_factor user.id w' }))
        × (list_by_user_id v w' ≡ list_by_user_id v w))
unfolding delete_credential delete_passkey list_by_user_id audit_logger has_factor get_confirmed
    count_passkeys
delete_credential_lem user id v w row flag ne =
    elim (Bool-cases (exists (λ c. (c.id == id) && (c.user_id == user.id)) w.passkeys)) [
      | inl e ↦
          let p = λ (c : UserWebAuthnCredential). (c.id == id) && (c.user_id == user.id) in
          let w1 = delete_passkey id user.id w in
          let (flagged, others, factors, rest) = recompute_mfa_enabled_lem user w1 v row ne in
          let same : (recompute_mfa_enabled user w1).passkeys ≡ w1.passkeys =
            ap (λ (x : World). x.passkeys) rest in
          rw e (
            refl,
            ap (exists p) same ∙ exists-delete_self p w.passkeys,
            flagged ∙ ap (λ b. some (record user { mfa_enabled = b })) (sym factors),
            ap (select (λ c. c.user_id == v)) same
                ∙ select-delete_disjoint p (λ c. c.user_id == v) w.passkeys (λ c h. ground arith),
          )
      | inr e ↦ rw e (refl, e, row ∙ ap (λ b. some (record user { mfa_enabled = b })) flag, refl)
    ]

module _ (ceremonies : Ceremonies) {Store : Type 0} (redis : KeyValue Store) where
  -- the row is new and it is the user's, and the user has a factor now
  abbrev pub Registered : User → UserWebAuthnCredential → World → World → Type 0
  Registered user c w w' =
      (c.user_id ≡ user.id)
      × (get_by_credential_id c.credential_id w ≡ none)
      × (w'.passkeys ≡ w.passkeys ++ c ∷ [])
      × (get w'.users user.id ≡ some (record user { mfa_enabled = true }))

  moved :
      (user : User) (c d : UserWebAuthnCredential) (w w' : World)
      → c ≡ d
      → Registered user c w w'
      → Registered user d w w'
  moved user c d w w' same q = rw same at q

  store_credential_lem :
      (now : Time) (new_id v : ℕ) (user : User) (r : AuthenticatorResponse)
      (read : Option VerifiedRegistration) (w : World) (c : UserWebAuthnCredential)
      → get w.users user.id ≡ some user
      → user.id ≢ v
      → (store_credential ceremonies redis now new_id user r read w).0 ≡ ok c
      → Registered user c w (store_credential ceremonies redis now new_id user r read w).1
  unfolding store_credential audit_logger has_factor count_passkeys get_by_credential_id
  store_credential_lem now new_id v user r none w c row ne h = absurd (ground arith)
  store_credential_lem now new_id v user r (some read) w c row ne h =
      elim (Bool-cases (exists (λ x. str_eq x.credential_id read.credential_id) w.passkeys)) [
        | inl e ↦ absurd (ground (arith, rw e at h))
        | inr e ↦
            let row0 = registered_row ceremonies redis now new_id user r read in
            let w1 : World = record w { passkeys = w.passkeys ++ row0 ∷ [] } in
            let (flagged, others, factors, rest) = recompute_mfa_enabled_lem user w1 v row ne in
            let owned = counted user.id w.passkeys row0 (ground arith) in
            let has : has_factor user.id w1 ≡ true = ground (arith, owned) in
            let same : row0 ≡ c = ground (arith, rw e at h) in
            rw e (
              moved user row0 c w (recompute_mfa_enabled user w1) same (
                refl,
                select_one-eq-none (λ x. str_eq x.credential_id read.credential_id) w.passkeys e,
                ap (λ (x : World). x.passkeys) rest,
                flagged ∙ ap (λ b. some (record user { mfa_enabled = b })) has,
              ))
      ]

  register_with_lem :
      (now : Time) (new_id v : ℕ) (user : User) (rp_id origin : String) (r : AuthenticatorResponse)
      (challenge : Option String) (w : World) (c : UserWebAuthnCredential)
      → get w.users user.id ≡ some user
      → user.id ≢ v
      → (register_with ceremonies redis now new_id user rp_id origin r challenge w).0 ≡ ok c
      → Registered user c w
          (register_with ceremonies redis now new_id user rp_id origin r challenge w).1
  unfolding register_with
  register_with_lem now new_id v user rp_id origin r none w c row ne h = absurd (ground arith)
  register_with_lem now new_id v user rp_id origin r (some challenge) w c row ne h =
      store_credential_lem now new_id v user r
        (ceremonies.verify_registration_response r challenge origin rp_id) w c row ne h

  register_popped_lem :
      (now : Time) (new_id v : ℕ) (user : User) (rp_id origin : String) (r : AuthenticatorResponse)
      (stored : Option String) (s : Store) (w : World) (c : UserWebAuthnCredential)
      → get w.users user.id ≡ some user
      → user.id ≢ v
      → (register_popped ceremonies redis now new_id user rp_id origin r stored s w).0 ≡ ok c
      → (let (_, s', w') =
            register_popped ceremonies redis now new_id user rp_id origin r stored s w in
          Registered user c w w' × (s' ≡ redis.delete_key (reg_key user.id) s))
  unfolding register_popped
  register_popped_lem now new_id v user rp_id origin r none s w c row ne h = absurd (ground arith)
  register_popped_lem now new_id v user rp_id origin r (some b64) s w c row ne h = (
    register_with_lem now new_id v user rp_id origin r (ceremonies.b64url_decode b64) w c row ne h,
    refl,
  )

  -- A registered passkey is a new row of the user, with a credential id that no row had, under which it
  -- is found again; the stored flag of the user is on, and the challenge is gone. The user is as
  -- the database has it.
  pub finish_registration-Registered :
      (now : Time) (new_id : ℕ) (user : User) (rp_id origin : String) (r : AuthenticatorResponse)
      (s : Store) (w : World) (c : UserWebAuthnCredential)
      → get w.users user.id ≡ some user
      → (finish_registration ceremonies redis now new_id user rp_id origin r s w).0 ≡ ok c
      → (let (_, s', w') =
            finish_registration ceremonies redis now new_id user rp_id origin r s w in
          Registered user c w w'
          × (s' ≡ redis.delete_key (reg_key user.id) s)
          × (get_by_credential_id c.credential_id w' ≡ some c))
  unfolding finish_registration get_by_credential_id select_one
  finish_registration-Registered now new_id user rp_id origin r s w c row h =
      let (owned, gone) =
        register_popped_lem now new_id (suc user.id) user rp_id origin r
          (redis.get_key (reg_key user.id) now s) s w c row (λ e. absurd (omega arith)) h in
      let (mine, new, left, on) = owned in
      let p = λ (x : UserWebAuthnCredential). str_eq x.credential_id c.credential_id in
      let found : select_one p (w.passkeys ++ c ∷ []) ≡ some c =
        select_one-append_none p w.passkeys (c ∷ []) new
        ∙ ground (arith, eq_iff c.credential_id c.credential_id) in
      (owned, gone, ap (select_one p) left ∙ found)
