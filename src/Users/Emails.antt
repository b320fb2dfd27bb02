-- ===== src/Users/Emails.antt =====
-- Codes for addresses: request_verify_email, verify_email and verify_email_by_code of
-- fief/services/user_manager.py.
use fief.Users.{
  AccountLibrary, confirm_email, commit_user, verify_email_by_code, delete_by_user, get_by_code,
  is_by_user, is_clash, invalid_email_verification_code, user_does_not_exist, in_tenant,
  verify_email, get_by_code_and_user, get_by_email, AccountSettings, request_verify_email,
  only_user, is_code, multiple_results_found, user_inactive, is_address, may_request, store_code,
  verification_row, UserError,
}
use fief.Models.{User, EmailVerification, Time, World, is_expired, audit_logger, send_task}
use fief.Prelude.{
  ℕ, String, Option, ◌≡◌, some, true, false, ok, err, refl, arith, get, put, delete, select,
  Bool-cases, exists, [], >>=-eq-ok, require, inl, inr, guard, not, select-delete_self,
  select_one-stricter, ◌==◌, ◌&&◌, str_eq, exists-narrower, get-put_self, select_one,
  select_one-append_new, get-put, ◌++◌, ◌∷◌, select-two, eq_iff, ◌∙◌, ap, Result,
}

-- the user and the tables after a verification of `v`
abbrev pub confirmed : User → EmailVerification → User
confirmed user v = record user { email = v.email; email_verified = true }

pub confirm_email_lem :
    (user user' : User) (v : EmailVerification) (w w' : World)
    → confirm_email user v w ≡ ok (user', w')
    → (user' ≡ confirmed user v)
      × (w'.users ≡ put w.users user.id user')
      × (w'.email_verifications ≡ delete (is_by_user user.id) w.email_verifications)
unfolding confirm_email commit_user delete_by_user
confirm_email_lem user user' v w w' h =
    elim (Bool-cases (exists (is_clash (confirmed user v)) w.users.entries)) [
      | inl clash ↦ absurd (ground arith)
      | inr free ↦ (ground arith, ground arith, ground arith)
    ]

module _ (lib : AccountLibrary) where
  -- Where `verify_email_by_code` succeeds, a row with the hash of the code had not expired, its user is
  -- one of the given tenant, this user's row is stored with the row's address, marked as verified, and
  -- no code of the user is left.
  pub verify_email_by_code-ok :
      (now : Time) (code : String) (tenant : ℕ) (w w' : World) (user' : User)
      → verify_email_by_code lib now code (some tenant) w ≡ ok (user', w')
      → (v : EmailVerification) × (user : User) × (get_by_code (lib.get_verify_code_hash code) w
          ≡ some v)
        × (is_expired now v.expires_at ≡ false)
        × (get w.users v.user_id ≡ some user)
        × (user.tenant_id ≡ tenant)
        × (user' ≡ confirmed user v)
        × (w'.users ≡ put w.users user.id user')
        × (select (is_by_user user.id) w'.email_verifications ≡ [])
  unfolding verify_email_by_code
  verify_email_by_code-ok now code tenant w w' user' h =
      let (v, known, rest) =
        >>=-eq-ok
          (require (get_by_code (lib.get_verify_code_hash code) w) invalid_email_verification_code)
          _ (user', w') h in
      let (t, fresh, rest') =
        >>=-eq-ok (guard (not (is_expired now v.expires_at)) invalid_email_verification_code) _
          (user', w') rest in
      let (user, there, rest'') =
        >>=-eq-ok (require (get w.users v.user_id) user_does_not_exist) _ (user', w') rest' in
      let (t', scoped, rest3) =
        >>=-eq-ok (guard (in_tenant (some tenant) user) invalid_email_verification_code) _
          (user', w') rest'' in
      let (changed, stored, left) = confirm_email_lem user user' v w w' rest3 in
      (
        v,
        user,
        ground arith,
        ground arith,
        ground arith,
        ground arith,
        changed,
        stored,
        ground (arith, select-delete_self (is_by_user user.id) w.email_verifications),
      )

  store_code_lem :
      (settings : AccountSettings) (now : Time) (user : User) (email code : String) (id : ℕ)
      (brand : Option String) (allowed : Result UserError (Unit {0})) (w w1 : World)
      → store_code lib settings now user email code id brand allowed w ≡ (ok tt, w1)
      → (let row = verification_row lib settings now user email code id in
          (allowed ≡ ok tt)
          × (row.email ≡ email)
          × (row.user_id ≡ user.id)
          × (row.code ≡ lib.get_verify_code_hash code)
          × (exists (is_code row.code) (delete (is_by_user user.id) w.email_verifications) ≡ false)
          × (w1.users ≡ w.users)
          × (w1.email_verifications
              ≡ delete (is_by_user user.id) w.email_verifications ++ row ∷ []))
  unfolding store_code delete_by_user audit_logger send_task
  store_code_lem settings now user email code id brand (err e) w w1 h = absurd (ground arith)
  store_code_lem settings now user email code id brand (ok tt) w w1 h =
      elim (Bool-cases (
        exists (is_code (lib.get_verify_code_hash code))
          (delete (is_by_user user.id) w.email_verifications))) [
            | inl taken ↦ absurd (ground arith)
            | inr free ↦ (refl, refl, refl, refl, free, ground arith, ground arith)
          ]

  may_request_active :
      (user : User) (email : String) (w : World)
      → may_request lib user email w ≡ ok tt
      → user.is_active ≡ true
  unfolding may_request
  may_request_active user email w h = elim (Bool-cases user.is_active) [
    | inl active ↦ active
    | inr inactive ↦ absurd (ground arith)
  ]

  request_verify_email_lem :
      (settings : AccountSettings) (now : Time) (user : User) (email code : String) (id : ℕ)
      (brand : Option String) (w w1 : World)
      → request_verify_email lib settings now user email code id brand w ≡ (ok tt, w1)
      → (v : EmailVerification) × (user.is_active ≡ true)
        × (v.email ≡ email)
        × (v.user_id ≡ user.id)
        × (v.code ≡ lib.get_verify_code_hash code)
        × (exists
              (is_code (lib.get_verify_code_hash code))
              (delete (is_by_user user.id) w.email_verifications)
            ≡ false)
        × (w1.users ≡ w.users)
        × (w1.email_verifications ≡ delete (is_by_user user.id) w.email_verifications ++ v ∷ [])
  unfolding request_verify_email
  request_verify_email_lem settings now user email code id brand w w1 h =
      let (allowed, email', owner, hashed, fresh, users, rows) =
        store_code_lem settings now user email code id brand (may_request lib user email w) w w1
          h in
      (
        verification_row lib settings now user email code id,
        may_request_active user email w allowed,
        email',
        owner,
        hashed,
        fresh,
        users,
        rows,
      )

  verify_sent :
      (user : User) (email code : String) (v : EmailVerification) (w w1 : World)
      → exists (is_clash (record user { email = email })) w.users.entries ≡ false
      → user.is_active ≡ true
      → v.email ≡ email
      → v.user_id ≡ user.id
      → v.code ≡ lib.get_verify_code_hash code
      → exists
          (is_code (lib.get_verify_code_hash code))
          (delete (is_by_user user.id) w.email_verifications)
        ≡ false
      → w1.users ≡ w.users
      → w1.email_verifications ≡ delete (is_by_user user.id) w.email_verifications ++ v ∷ []
      → (w2 : World) × (verify_email lib user code w1
          ≡ ok (record user { email = email; email_verified = true }, w2))
        × (w2.users ≡ put w.users user.id (record user { email = email; email_verified = true }))
        × (select (is_by_user user.id) w2.email_verifications ≡ [])
  unfolding verify_email confirm_email commit_user delete_by_user get_by_code_and_user
  verify_sent user email code v w w1 free active address owner hashed fresh users rows =
      let code_hash = lib.get_verify_code_hash code in
      let mine = λ (x : EmailVerification).
        is_code (lib.get_verify_code_hash code) x && is_by_user user.id x in
      let kept = delete (is_by_user user.id) w.email_verifications in
      let unseen =
        exists-narrower (is_code (lib.get_verify_code_hash code)) mine kept (λ x e. ground arith)
          fresh in
      let found : select_one mine w1.email_verifications ≡ some v = rw rows (
        select_one-append_new mine kept v unseen
          (rw (hashed, owner) (ground (arith, eq_iff code_hash code_hash)))) in
      let free' : exists (is_clash (confirmed user v)) w1.users.entries ≡ false =
        rw (users, address) free in
      (
        delete_by_user user.id (record w1 { users = put w1.users user.id (confirmed user v) }),
        rw (active, found, free', address) refl,
        rw (users, address) refl,
        select-delete_self (is_by_user user.id) w1.email_verifications,
      )

  -- Where `request_verify_email` succeeds and no other row of the tenant has the address,
  -- `verify_email` with the code that was sent stores the user's row with the address that
  -- was asked for, marked as verified, and leaves no code of the user.
  pub request_verify_email-verify_email :
      (settings : AccountSettings) (now : Time) (user : User) (email code : String) (id : ℕ)
      (brand : Option String) (w w1 : World)
      → exists (is_clash (record user { email = email })) w.users.entries ≡ false
      → request_verify_email lib settings now user email code id brand w ≡ (ok tt, w1)
      → (w2 : World) × (verify_email lib user code w1
          ≡ ok (record user { email = email; email_verified = true }, w2))
        × (w2.users ≡ put w.users user.id (record user { email = email; email_verified = true }))
        × (select (is_by_user user.id) w2.email_verifications ≡ [])
  unfolding verify_email confirm_email commit_user delete_by_user
  request_verify_email-verify_email settings now user email code id brand w w1 free h =
      let (v, active, address, owner, hashed, fresh, users, rows) =
        request_verify_email_lem settings now user email code id brand w w1 h in
      verify_sent user email code v w w1 free active address owner hashed fresh users rows

  -- Where a user has a pending code whose row expired, `verify_email_by_code` rejects the code and
  -- `verify_email` accepts it: with an active user and no other row of the tenant for the address,
  -- the row's address is stored as verified.
  pub verify_email-expired :
      (now : Time) (code : String) (tenant : Option ℕ) (user : User) (v : EmailVerification)
      (w : World)
      → get_by_code (lib.get_verify_code_hash code) w ≡ some v
      → v.user_id ≡ user.id
      → is_expired now v.expires_at ≡ true
      → user.is_active ≡ true
      → exists (is_clash (confirmed user v)) w.users.entries ≡ false
      → (verify_email_by_code lib now code tenant w ≡ err invalid_email_verification_code)
        × (verify_email lib user code w
            ≡ ok (
              confirmed user v,
              delete_by_user user.id (record w { users = put w.users user.id (confirmed user v) }),
            ))
  unfolding verify_email verify_email_by_code confirm_email commit_user get_by_code
      get_by_code_and_user
  verify_email-expired now code tenant user v w known same late active free =
      let found =
        select_one-stricter (is_code (lib.get_verify_code_hash code)) (is_by_user user.id)
          (λ x. is_code (lib.get_verify_code_hash code) x && is_by_user user.id x)
          w.email_verifications v (λ x. refl) known (ground arith) in
      (rw (known, late) refl, rw (active, found, free) refl)

  -- Where another user of the tenant has, up to case, the address of the row of a code, and
  -- `verify_email` accepts the code, looking up this address raises MultipleResultsFound afterwards.
  pub verify_email-ambiguous :
      (code : String) (user other user' : User) (v : EmailVerification) (w w' : World)
      → get_by_code_and_user (lib.get_verify_code_hash code) user.id w ≡ some v
      → get w.users other.id ≡ some other
      → (user.id == other.id) ≡ false
      → other.tenant_id ≡ user.tenant_id
      → str_eq (lib.lower other.email) (lib.lower v.email) ≡ true
      → verify_email lib user code w ≡ ok (user', w')
      → get_by_email lib v.email user.tenant_id w' ≡ err multiple_results_found
  unfolding verify_email get_by_email only_user
  verify_email-ambiguous code user other user' v w w' known there distinct tenant same h =
      let (t, active, rest) = >>=-eq-ok (guard user.is_active user_inactive) _ (user', w') h in
      let (v', found, rest') =
        >>=-eq-ok
          (require (get_by_code_and_user (lib.get_verify_code_hash code) user.id w)
            invalid_email_verification_code)
          _ (user', w') rest in
      let row : v' ≡ v = ground arith in
      let (changed, stored, left) = confirm_email_lem user user' v' w w' rest' in
      let who : user' ≡ confirmed user v = changed ∙ ap (confirmed user) row in
      let mine : get w'.users user.id ≡ some user' =
        rw stored (get-put_self w.users user.id user') in
      let theirs : get w'.users other.id ≡ some other =
        rw (stored, get-put w.users user.id other.id user', distinct) there in
      let (x, y, xs, two) =
        select-two (is_address lib v.email user.tenant_id) user.id other.id user' other w'.users
          mine theirs distinct
          (rw who (ground (arith, eq_iff (lib.lower v.email) (lib.lower v.email))))
          (ground arith) in
      rw two refl
