-- ===== src/Users/Reset.antt =====
-- The way of a password reset through forgot_password and reset_password of
-- fief/services/user_manager.py.
use fief.Models.{User, World}
use fief.Users.{
  AccountLibrary, get_account, reset_target, read_claims, claims, invalid_reset_password_token,
  Decoded, rejected, failed,
}
use fief.Prelude.{
  ℕ, String, ◌≡◌, some, true, false, ok, err, arith, get, none, Option-cases, inl, inr, >>=-eq-ok,
  require,
}

module _ (lib : AccountLibrary) where
  get_user_lem :
      (id tenant : ℕ) (user : User) (w : World)
      → get_account id tenant w ≡ ok user
      → (get w.users id ≡ some user) × (user.tenant_id ≡ tenant)
  unfolding get_account
  get_user_lem id tenant user w h = elim (Option-cases (get w.users id)) [
    | inl gone ↦ absurd (ground arith)
    | inr (u, found) ↦ (ground arith, ground arith)
  ]

  -- Where a token decodes to a user and a fingerprint that does not verify against the password hash
  -- that the user has now, `reset_target` rejects it.
  pub reset_target-changed :
      (token sub fgpt : String) (tenant id : ℕ) (user : User) (w : World)
      → lib.decode tenant token ≡ claims (some sub) (some fgpt)
      → lib.uuid sub ≡ some id
      → get w.users id ≡ some user
      → user.tenant_id ≡ tenant
      → (lib.verify_and_update user.hashed_password fgpt).0 ≡ false
      → reset_target lib token tenant w ≡ err invalid_reset_password_token
  unfolding reset_target read_claims get_account
  reset_target-changed token sub fgpt tenant id user w d i g t v = rw (d, i, g) (ground arith)

  pub reset_target-accepted :
      (token sub fgpt : String) (tenant id : ℕ) (user : User) (w : World)
      → lib.decode tenant token ≡ claims (some sub) (some fgpt)
      → lib.uuid sub ≡ some id
      → get w.users id ≡ some user
      → user.tenant_id ≡ tenant
      → (lib.verify_and_update user.hashed_password fgpt).0 ≡ true
      → user.is_active ≡ true
      → reset_target lib token tenant w ≡ ok user
  unfolding reset_target read_claims get_account
  reset_target-accepted token sub fgpt tenant id user w d i g t v a = rw (d, i, g) (ground arith)

  read_claims_lem :
      (d : Decoded) (read : String × String)
      → read_claims lib d ≡ ok read
      → d ≡ claims (some read.0) (some read.1)
  unfolding read_claims
  read_claims_lem rejected read h = cc
  read_claims_lem failed read h = cc
  read_claims_lem (claims none fgpt) read h = cc
  read_claims_lem (claims (some sub) none) read h = cc
  read_claims_lem (claims (some sub) (some fgpt)) read h = ground arith

  -- the token names an active user of the tenant and was made for the hash that the user has now
  abbrev pub Names : String → ℕ → World → User → String → String → ℕ → Type 0
  Names token tenant w user sub fgpt id =
      (lib.decode tenant token ≡ claims (some sub) (some fgpt))
      × (lib.uuid sub ≡ some id)
      × (get w.users id ≡ some user)
      × (user.tenant_id ≡ tenant)
      × ((lib.verify_and_update user.hashed_password fgpt).0 ≡ true)
      × (user.is_active ≡ true)

  pub reset_target-ok :
      (token : String) (tenant : ℕ) (user : User) (w : World)
      → reset_target lib token tenant w ≡ ok user
      → (sub : String) × (fgpt : String) × (id : ℕ) × Names token tenant w user sub fgpt id
  unfolding reset_target
  reset_target-ok token tenant user w h =
      let (read, claimed, rest) = >>=-eq-ok (read_claims lib (lib.decode tenant token)) _ user h in
      let (id, parsed, rest') =
        >>=-eq-ok (require (lib.uuid read.0) invalid_reset_password_token) _ user rest in
      let (u, found, rest'') = >>=-eq-ok (get_account id tenant w) _ user rest' in
      let (there, same) = get_user_lem id tenant u w found in
      (
        read.0,
        read.1,
        id,
        (
          read_claims_lem (lib.decode tenant token) read claimed,
          ground arith,
          ground arith,
          ground arith,
          ground arith,
          ground arith,
        ),
      )
