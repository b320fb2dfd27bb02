-- ===== src/Flow/DeviceList.antt =====
-- The device list shows each live token once, and the revocation of a device deletes its tokens:
-- fief/services/security/device_sessions.py.
use fief.Models.{Time, World, is_expired, SessionToken, RefreshToken}
use fief.Flow.Devices.{
  insert_later, DeviceLibrary, latest_first, group_sessions, add_session, group_refreshes,
  DeviceGroup, add_refresh, Seen, row_of, DeviceRow, device_rows, list_for_user, sessions_of_user,
  refreshes_of_user, seen_session, seen_refresh,
}
use fief.Prelude.{
  ℕ, Option, List, Bool, if◌then◌else◌, ◌&&◌, [], ◌∷◌, ◌++◌, map, ltb, select, ◌≡◌, ◌+◌, refl,
  arith, count, ◌==◌, ◌∙◌, ap, not,
}

module _ {ℓ} {A : Type ℓ} where
  unfoldable pub tally : (A → ℕ) → List A → ℕ
  tally g [] = 0
  tally g (x ∷ xs) = g x + tally g xs

module _ {ℓ} {A : Type ℓ} (g : A → ℕ) where
  tally-append : (xs ys : List A) → tally g (xs ++ ys) ≡ tally g xs + tally g ys
  unfolding tally
  tally-append [] ys = omega arith
  tally-append (x ∷ xs) ys = omega (arith, tally-append xs ys)

  tally-insert_later :
      (f : A → Time) (x : A) (ys : List A) → tally g (insert_later f x ys) ≡ g x + tally g ys
  unfolding tally insert_later
  tally-insert_later f x [] = refl
  tally-insert_later f x (y ∷ ys) = ground (arith, tally-insert_later f x ys)

  tally-latest_first : (f : A → Time) (xs : List A) → tally g (latest_first f xs) ≡ tally g xs
  unfolding tally latest_first
  tally-latest_first f [] = refl
  tally-latest_first f (x ∷ xs) =
      ground (arith, tally-insert_later f x (latest_first f xs), tally-latest_first f xs)

  tally-map {κ} :
      {B : Type κ} (f : B → A) (xs : List B) → tally g (map f xs) ≡ tally (λ x. g (f x)) xs
  unfolding tally
  tally-map f [] = refl
  tally-map f (x ∷ xs) = omega (arith, tally-map f xs)

abbrev pub one : ℕ → ℕ → ℕ
one id i = if i == id then 1 else 0

-- how often the rows that `p` selects have the id that `f` reads
tally-select :
    {A : Type 0} (p : A → Bool) (f : A → ℕ) (id : ℕ) (xs : List A)
    → tally (λ x. one id (f x)) (select p xs) ≡ count (λ x. (f x == id) && p x) xs
unfolding tally select count
tally-select p f id [] = refl
tally-select p f id (x ∷ xs) = ground (arith, tally-select p f id xs)

module _ (lib : DeviceLibrary) (id : ℕ) where
  -- how often the groups have the id among their sessions, and among their refresh tokens
  abbrev in_sessions : List DeviceGroup → ℕ
  in_sessions gs = tally (λ (g : DeviceGroup). tally (λ (t : Seen). one id t.id) g.sessions) gs

  abbrev in_refreshes : List DeviceGroup → ℕ
  in_refreshes gs = tally (λ (g : DeviceGroup). tally (λ (t : Seen). one id t.id) g.refreshes) gs

  add_session_lem :
      (t : Seen) (gs : List DeviceGroup)
      → (in_sessions (add_session lib t gs) ≡ one id t.id + in_sessions gs)
        × (in_refreshes (add_session lib t gs) ≡ in_refreshes gs)
  unfolding tally add_session
  add_session_lem t [] = (ground arith, refl)
  add_session_lem t (g ∷ gs) =
      let (more, same) = add_session_lem t gs in
      let at_end = tally-append (λ (u : Seen). one id u.id) g.sessions (t ∷ []) in
      (ground (arith, more, at_end), ground (arith, same))

  add_refresh_lem :
      (t : Seen) (gs : List DeviceGroup)
      → (in_refreshes (add_refresh lib t gs) ≡ one id t.id + in_refreshes gs)
        × (in_sessions (add_refresh lib t gs) ≡ in_sessions gs)
  unfolding tally add_refresh
  add_refresh_lem t [] = (ground arith, refl)
  add_refresh_lem t (g ∷ gs) =
      let (more, same) = add_refresh_lem t gs in
      let at_end = tally-append (λ (u : Seen). one id u.id) g.refreshes (t ∷ []) in
      (ground (arith, more, at_end), ground (arith, same))

  group_sessions_lem :
      (l : List Seen) (gs : List DeviceGroup)
      → (in_sessions (group_sessions lib l gs)
          ≡ tally (λ (t : Seen). one id t.id) l + in_sessions gs)
        × (in_refreshes (group_sessions lib l gs) ≡ in_refreshes gs)
  unfolding tally group_sessions
  group_sessions_lem [] gs = (omega arith, refl)
  group_sessions_lem (t ∷ l) gs =
      let (more, same) = group_sessions_lem l (add_session lib t gs) in
      let (more', same') = add_session_lem t gs in (omega (arith, more, more'), same ∙ same')

  group_refreshes_lem :
      (l : List Seen) (gs : List DeviceGroup)
      → (in_refreshes (group_refreshes lib l gs)
          ≡ tally (λ (t : Seen). one id t.id) l + in_refreshes gs)
        × (in_sessions (group_refreshes lib l gs) ≡ in_sessions gs)
  unfolding tally group_refreshes
  group_refreshes_lem [] gs = (omega arith, refl)
  group_refreshes_lem (t ∷ l) gs =
      let (more, same) = group_refreshes_lem l (add_refresh lib t gs) in
      let (more', same') = add_refresh_lem t gs in (omega (arith, more, more'), same ∙ same')

  -- how often the rows have the id among their sessions, and among their refresh tokens
  abbrev pub listed_sessions : List DeviceRow → ℕ
  listed_sessions rows = tally (λ (r : DeviceRow). tally (one id) r.session_token_ids) rows

  abbrev pub listed_refreshes : List DeviceRow → ℕ
  listed_refreshes rows = tally (λ (r : DeviceRow). tally (one id) r.refresh_token_ids) rows

  row_of_lem :
      (current : Option ℕ) (g : DeviceGroup) (l : List Seen)
      → l ≡ g.sessions ++ g.refreshes
      → (listed_sessions (row_of lib current g l) ≡ tally (λ (t : Seen). one id t.id) g.sessions)
        × (listed_refreshes (row_of lib current g l)
            ≡ tally (λ (t : Seen). one id t.id) g.refreshes)
  unfolding tally
  row_of_lem current g [] h =
      let total =
        ap (tally (λ (t : Seen). one id t.id)) h
        ∙ tally-append (λ (t : Seen). one id t.id) g.sessions g.refreshes in
      (omega (arith, total), omega (arith, total))
  row_of_lem current g (t ∷ l) h = (
    omega (arith, tally-map (one id) (λ (t : Seen). t.id) g.sessions),
    omega (arith, tally-map (one id) (λ (t : Seen). t.id) g.refreshes),
  )

  device_rows_lem :
      (current : Option ℕ) (gs : List DeviceGroup)
      → (listed_sessions (device_rows lib current gs) ≡ in_sessions gs)
        × (listed_refreshes (device_rows lib current gs) ≡ in_refreshes gs)
  unfolding device_rows tally
  device_rows_lem current [] = (refl, refl)
  device_rows_lem current (g ∷ gs) =
      let (s, r) = row_of_lem current g (g.sessions ++ g.refreshes) refl in
      let (s', r') = device_rows_lem current gs in
      let row = row_of lib current g (g.sessions ++ g.refreshes) in
      let cut =
        tally-append (λ (x : DeviceRow). tally (one id) x.session_token_ids) row
          (device_rows lib current gs) in
      let cut' =
        tally-append (λ (x : DeviceRow). tally (one id) x.refresh_token_ids) row
          (device_rows lib current gs) in
      (omega (arith, s, s', cut), omega (arith, r, r', cut'))

  -- The device list of a user has an id among the session tokens of its rows as often as the table has a
  -- session token with this id that is the user's and has not expired, and an id among the refresh
  -- tokens as often as the table has such a refresh token: no device and no live token is lost, shown
  -- twice, or another user's.
  pub list_for_user_lem :
      (user_id : ℕ) (current : Option ℕ) (now : Time) (w : World)
      → (listed_sessions (list_for_user lib user_id current now w)
          ≡ count
              (λ t. (t.id == id) && ((t.user_id == user_id) && not (is_expired now t.expires_at)))
              w.session_tokens)
        × (listed_refreshes (list_for_user lib user_id current now w)
            ≡ count
                (λ t. (t.id == id) && ((t.user_id == user_id) && ltb now t.expires_at))
                w.refresh_tokens)
  unfolding list_for_user sessions_of_user refreshes_of_user tally
  list_for_user_lem user_id current now w =
      let live =
        λ (t : SessionToken). (t.user_id == user_id) && not (is_expired now t.expires_at) in
      let live' = λ (t : RefreshToken). (t.user_id == user_id) && ltb now t.expires_at in
      let ss = select live w.session_tokens in
      let rs = select live' w.refresh_tokens in
      let ss' = map seen_session (sessions_of_user user_id now w) in
      let rs' = map seen_refresh (refreshes_of_user user_id now w) in
      let gs = group_sessions lib ss' [] in
      let rows = device_rows lib current (group_refreshes lib rs' gs) in
      let (s1, r1) = device_rows_lem current (group_refreshes lib rs' gs) in
      let (r2, s2) = group_refreshes_lem rs' gs in
      let (s3, r3) = group_sessions_lem ss' [] in
      let by_id = λ (t : Seen). one id t.id in
      let last = λ (r : DeviceRow). r.last_seen in
      (
        tally-latest_first (λ (r : DeviceRow). tally (one id) r.session_token_ids) last rows
            ∙ s1
            ∙ s2
            ∙ omega (
              arith,
              s3,
              tally-map by_id seen_session (sessions_of_user user_id now w),
              tally-latest_first (λ (t : SessionToken). one id t.id)
                  (λ (t : SessionToken). t.created_at) ss,
              tally-select live (λ (t : SessionToken). t.id) id w.session_tokens,
            ),
        tally-latest_first (λ (r : DeviceRow). tally (one id) r.refresh_token_ids) last rows
            ∙ r1
            ∙ omega (
              arith,
              r2,
              r3,
              tally-map by_id seen_refresh (refreshes_of_user user_id now w),
              tally-latest_first (λ (t : RefreshToken). one id t.id)
                  (λ (t : RefreshToken). t.created_at) rs,
              tally-select live' (λ (t : RefreshToken). t.id) id w.refresh_tokens,
            ),
      )
