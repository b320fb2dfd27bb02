-- ===== src/Users/SingleUse.antt =====
-- What an accepted reset_password shows, and what is left of its token:
-- fief/services/user_manager.py.
use fief.Users.Reset.{Names, reset_target-ok, reset_target-changed}
use fief.Users.Passwords.{
  store_user, set_password, only_password, reset_user, reset_password, set_user_attributes,
  log_user, set_attributes, validate_password,
}
use fief.Models.{User, World, Tenant, audit_logger, user_password_reset}
use fief.BreachedPasswords.{Corpus}
use fief.Users.{
  AccountLibrary, AccountSettings, UserError, commit_user, is_clash, reset_target, claims,
  set_email, invalid_reset_password_token,
}
use fief.Prelude.{
  ℕ, String, Option, ◌≡◌, some, false, ok, err, refl, arith, get, none, put, Bool-cases, exists,
  inl, inr, Result, get-put_self,
}

module _ (lib : AccountLibrary) {Store : Type 0} (corpus : Corpus Store)
    (settings : AccountSettings) where
  -- the user with the new hash
  abbrev pub with_password : String → String → User → User
  with_password salt password user = record user { hashed_password = lib.hash salt password }

  abbrev Stored :
      (User → World → World)
      → User
      → Option UserError × Store × World
      → User
      → Store
      → World
      → Type 0
  Stored after user v user' s' w' =
      (v ≡ (none, s', v.2))
      × (w' ≡ after user' (record v.2 { users = put v.2.users user.id user' }))

  stored_lem :
      (after : User → World → World) (salt password new : String) (user user' : User)
      (v : Option UserError × Store × World) (s' : Store) (w' : World)
      → store_user lib corpus settings after (
          set_password lib corpus settings salt password
            (only_password lib corpus settings new)
            user
            v)
        ≡ (ok user', s', w')
      → (user' ≡ with_password salt password user) × Stored after user v user' s' w'
  unfolding store_user set_password commit_user
  stored_lem after salt password new user user' (some e, s, w) s' w' h = absurd (ground arith)
  stored_lem after salt password new user user' (none, s, w) s' w' h =
      elim (Bool-cases (exists (is_clash user) w.users.entries)) [
        | inl clash ↦ absurd (ground arith)
        | inr free ↦ (ground arith, (ground arith, ground arith))
      ]

  -- the accepted token, the valid password and the rows that are stored
  abbrev pub ResetBy :
      String
      → String
      → Tenant
      → String
      → Store
      → World
      → User
      → Store
      → World
      → String
      → String
      → ℕ
      → User
      → Type 0
  ResetBy token password tenant salt s w user' s' w' sub fgpt id user =
      Names lib token tenant.id w user sub fgpt id
      × ((user' ≡ with_password salt password user)
          × Stored (log_user lib corpus settings user_password_reset) user
              (validate_password lib corpus settings password (some user.id) (some tenant) s w)
              user' s' w')

  reset_user_lem :
      (target : Result UserError User) (token password : String) (tenant : Tenant) (salt : String)
      (s s' : Store) (w w' : World) (user' : User)
      → reset_target lib token tenant.id w ≡ target
      → reset_user lib corpus settings target password tenant salt s w ≡ (ok user', s', w')
      → (sub : String) × (fgpt : String) × (id : ℕ) × (user : User) × ResetBy token password tenant
          salt s w user' s' w' sub fgpt id user
  unfolding reset_user set_user_attributes set_email set_attributes
  reset_user_lem (err e) token password tenant salt s s' w w' user' t h = absurd (ground arith)
  reset_user_lem (ok user) token password tenant salt s s' w w' user' t h =
      let (sub, fgpt, id, names) = reset_target-ok lib token tenant.id user w t in
      (
        sub,
        fgpt,
        id,
        user,
        (
          names,
          stored_lem (log_user lib corpus settings user_password_reset) salt password password user
              user'
              (validate_password lib corpus settings password (some user.id) (some tenant) s w) s'
              w' h,
        ),
      )

  -- Where `reset_password` succeeds, the token decodes with the key of the tenant to the id of an
  -- active user of that tenant and to a fingerprint that verifies against the password hash that this
  -- user has, the new password passed `validate_password` for this user and tenant, and the
  -- user's row is stored with nothing changed but the hash, which is the one of the new password.
  pub reset_password-ok :
      (token password : String) (tenant : Tenant) (salt : String) (s s' : Store) (w w' : World)
      (user' : User)
      → reset_password lib corpus settings token password tenant salt s w ≡ (ok user', s', w')
      → (sub : String) × (fgpt : String) × (id : ℕ) × (user : User) × ResetBy token password tenant
          salt s w user' s' w' sub fgpt id user
  unfolding reset_password
  reset_password-ok token password tenant salt s s' w w' user' h =
      reset_user_lem (reset_target lib token tenant.id w) token password tenant salt s s' w w' user'
        refl h

  -- Where the rows of users stand under their ids, a token was used by `reset_password`, and the
  -- fingerprint in the token does not verify against the new hash, `reset_password` rejects the token
  -- the next time, whatever the password, and changes nothing.
  pub reset_password-used :
      (token password again : String) (tenant : Tenant) (salt salt' sub fgpt : String)
      (s s' : Store) (w w' : World) (user' : User)
      → ((k : ℕ) (u : User) → get w.users k ≡ some u → u.id ≡ k)
      → lib.decode tenant.id token ≡ claims (some sub) (some fgpt)
      → (lib.verify_and_update user'.hashed_password fgpt).0 ≡ false
      → reset_password lib corpus settings token password tenant salt s w ≡ (ok user', s', w')
      → reset_password lib corpus settings token again tenant salt' s' w'
        ≡ (err invalid_reset_password_token, s', w')
  unfolding reset_password reset_user audit_logger
  reset_password-used token password again tenant salt salt' sub fgpt s s' w w' user' keyed decoded
        new h =
      let (
        sub',
        fgpt',
        id,
        user,
        ((claimed, parsed, found, same, ok_hash, active), (changed, (valid, stored))),
      ) =
        reset_password-ok token password tenant salt s s' w w' user' h in
      let key = keyed id user found in
      let v = validate_password lib corpus settings password (some user.id) (some tenant) s w in
      let there : get w'.users id ≡ some user' =
        ground (arith, get-put_self v.2.users user.id user') in
      let parsed' : lib.uuid sub ≡ some id = ground arith in
      let tenant_kept : user'.tenant_id ≡ tenant.id = ground arith in
      rw
        (reset_target-changed lib token sub fgpt tenant.id id user' w' decoded parsed' there
          tenant_kept new)
        refl
