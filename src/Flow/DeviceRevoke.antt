-- ===== src/Flow/DeviceRevoke.antt =====
-- The revocation of one device: `revoke` of fief/services/security/device_sessions.py.
use fief.Models.{RefreshToken, SessionToken, Time, World, audit_logger}
use fief.Flow.Devices.{
  DeviceLibrary, delete_refreshes, delete_sessions, revoke, DeviceRow, revoke_match, list_for_user,
}
use fief.Prelude.{
  ℕ, String, Option, List, Bool, none, some, true, ◌&&◌, [], ◌∷◌, delete, ◌≡◌, arith, exists, ◌==◌,
  sym, delete-none, ◌∙◌, str_eq, delete-delete, select_one, select_one-satisfies, ap,
}

-- the rows of the user that have one of the ids
abbrev pub is_one_of : {A : Type 0} → (A → ℕ) → (A → ℕ) → ℕ → List ℕ → A → Bool
is_one_of id owner user_id is t = exists (λ i. i == id t) is && (owner t == user_id)

delete_sessions_lem :
    (lib : DeviceLibrary) (user_id : ℕ) (is : List ℕ) (l : List SessionToken)
    → delete_sessions lib user_id is l
      ≡ delete
          (is_one_of (λ (t : SessionToken). t.id) (λ (t : SessionToken). t.user_id) user_id is)
          l
unfolding delete_sessions exists
delete_sessions_lem lib user_id [] l = sym (
    delete-none
      (is_one_of (λ (t : SessionToken). t.id) (λ (t : SessionToken). t.user_id) user_id []) l
      (λ t. ground arith))
delete_sessions_lem lib user_id (i ∷ is) l =
    delete_sessions_lem lib user_id is (delete (λ t. (t.id == i) && (t.user_id == user_id)) l)
    ∙ delete-delete
        (is_one_of (λ (t : SessionToken). t.id) (λ (t : SessionToken). t.user_id) user_id is)
        (λ t. (t.id == i) && (t.user_id == user_id))
        (is_one_of (λ (t : SessionToken). t.id) (λ (t : SessionToken). t.user_id) user_id (i ∷ is))
        l (λ t. ground arith)

delete_refreshes_lem :
    (lib : DeviceLibrary) (user_id : ℕ) (is : List ℕ) (l : List RefreshToken)
    → delete_refreshes lib user_id is l
      ≡ delete
          (is_one_of (λ (t : RefreshToken). t.id) (λ (t : RefreshToken). t.user_id) user_id is)
          l
unfolding delete_refreshes exists
delete_refreshes_lem lib user_id [] l = sym (
    delete-none
      (is_one_of (λ (t : RefreshToken). t.id) (λ (t : RefreshToken). t.user_id) user_id []) l
      (λ t. ground arith))
delete_refreshes_lem lib user_id (i ∷ is) l =
    delete_refreshes_lem lib user_id is (delete (λ t. (t.id == i) && (t.user_id == user_id)) l)
    ∙ delete-delete
        (is_one_of (λ (t : RefreshToken). t.id) (λ (t : RefreshToken). t.user_id) user_id is)
        (λ t. (t.id == i) && (t.user_id == user_id))
        (is_one_of (λ (t : RefreshToken). t.id) (λ (t : RefreshToken). t.user_id) user_id (i ∷ is))
        l (λ t. ground arith)

module _ (lib : DeviceLibrary) where
  -- the tokens of the row are deleted, and those alone
  abbrev pub Revoked : ℕ → World → DeviceRow → World → Type 0
  Revoked user_id w r w' =
      (w'.session_tokens
        ≡ delete
            (is_one_of (λ (t : SessionToken). t.id) (λ (t : SessionToken). t.user_id) user_id
              r.session_token_ids)
            w.session_tokens)
      × (w'.refresh_tokens
          ≡ delete
              (is_one_of (λ (t : RefreshToken). t.id) (λ (t : RefreshToken). t.user_id) user_id
                r.refresh_token_ids)
              w.refresh_tokens)

  revoke_match_lem :
      (user_id : ℕ) (m : Option DeviceRow) (w w' : World) (r : DeviceRow)
      → revoke_match lib user_id m w ≡ (some r, w')
      → (m ≡ some r) × Revoked user_id w r w'
  unfolding revoke_match audit_logger
  revoke_match_lem user_id none w w' r h = absurd (ground arith)
  revoke_match_lem user_id (some q) w w' r h =
      let same : q ≡ r = ground arith in
      let sessions = delete_sessions_lem lib user_id r.session_token_ids w.session_tokens in
      let refreshes = delete_refreshes_lem lib user_id r.refresh_token_ids w.refresh_tokens in
      (ap some same, (ground (arith, sessions), ground (arith, refreshes)))

  -- Where `revoke` answers with a device, the device is a row of the list of this user and has the given
  -- key, the session tokens and the refresh tokens of this user with an id in the row are deleted, and
  -- every other token, of this user or of another one, is kept.
  pub revoke_lem :
      (user_id : ℕ) (device_key : String) (now : Time) (w w' : World) (r : DeviceRow)
      → revoke lib user_id device_key now w ≡ (some r, w')
      → (select_one (λ x. str_eq x.device_key device_key) (list_for_user lib user_id none now w)
          ≡ some r)
        × (str_eq r.device_key device_key ≡ true)
        × Revoked user_id w r w'
  unfolding revoke
  revoke_lem user_id device_key now w w' r h =
      let rows = list_for_user lib user_id none now w in
      let (found, revoked) =
        revoke_match_lem user_id (select_one (λ x. str_eq x.device_key device_key) rows) w w' r h in
      (
        found,
        select_one-satisfies (λ (x : DeviceRow). str_eq x.device_key device_key) rows r found,
        revoked,
      )
