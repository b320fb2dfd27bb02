-- ===== src/Recovery/Consume.antt =====
-- What `RecoveryCodeService.consume` accepts, and how often.
use fief.Models.{World, audit_logger, UserMfaRecoveryCode, Time}
use fief.Prelude.{
  ℕ, select_one, List, count, some, Option, ◌≡◌, ◌∷◌, arith, [], refl, ◌&&◌, is_some, false, true,
  ◌<◌, count-update-lt, none, ◌==◌, ==_refl, ◌≤◌, if◌then◌else◌, ◌+◌, Bool-cases, inl, inr,
}
use fief.Recovery.{
  Hasher, match_rows, consume, mark_used, is_unused, matches, normalize, list_unused,
  is_well_formed,
}

-- how many codes a user has left
abbrev pub unused : ℕ → World → ℕ
unused user_id w = count (is_unused user_id) w.recovery_codes

module _ (bcrypt : Hasher) where
  match_rows_kept :
      (typed : List ℕ) (row : UserMfaRecoveryCode) (rows : List UserMfaRecoveryCode)
      → match_rows bcrypt typed (some row) rows ≡ some row
  unfolding match_rows
  match_rows_kept typed row [] = refl
  match_rows_kept typed row (x ∷ rows) = ground (arith, match_rows_kept typed row rows)

  match_rows-eq-select_one :
      (typed : List ℕ) (rows : List UserMfaRecoveryCode)
      → match_rows bcrypt typed none rows ≡ select_one (matches bcrypt typed) rows
  unfolding match_rows select_one
  match_rows-eq-select_one typed [] = refl
  match_rows-eq-select_one typed (x ∷ rows) =
      ground (arith, match_rows_kept typed x rows, match_rows-eq-select_one typed rows)

  consume_outcome :
      (now : Time) (u : ℕ) (typed : List ℕ) (w : World) (o : Option UserMfaRecoveryCode)
      → select_one (matches bcrypt (normalize typed)) (list_unused u w) ≡ o
      → ((consume bcrypt now u typed w).0 ≡ is_well_formed (normalize typed) && is_some o)
        × ((consume bcrypt now u typed w).0 ≡ false → (consume bcrypt now u typed w).1 ≡ w)
        × ((consume bcrypt now u typed w).0 ≡ true
            → unused u (consume bcrypt now u typed w).1 < unused u w)
  unfolding consume mark_used audit_logger
  consume_outcome now u typed w none e =
      ground (arith, match_rows-eq-select_one (normalize typed) (list_unused u w))
  consume_outcome now u typed w (some row) e = ground (
    arith,
    match_rows-eq-select_one (normalize typed) (list_unused u w),
    count-update-lt (is_unused u) (λ c. c.id == row.id) (λ c. record c { used_at = some now })
        (λ c. ground arith) (matches bcrypt (normalize typed)) w.recovery_codes row e
        (==_refl row.id),
  )

-- A typed code is accepted exactly if its normal form is well formed and bcrypt accepts it for some
-- unused code of the user; what the malformed hashes among the rows raise counts as a refusal, and
-- the loop that never breaks finds the first match. A refusal changes nothing at all, and an accepted
-- code leaves the user with fewer unused codes.
pub consume_lem :
    (bcrypt : Hasher) (now : Time) (u : ℕ) (typed : List ℕ) (w : World)
    → let found = select_one (matches bcrypt (normalize typed)) (list_unused u w) in
      let (accepted, w') = consume bcrypt now u typed w in
      (accepted ≡ is_well_formed (normalize typed) && is_some found)
      × (accepted ≡ false → w' ≡ w)
      × (accepted ≡ true → unused u w' < unused u w)
consume_lem bcrypt now u typed w = consume_outcome bcrypt now u typed w _ refl

-- How many of a series of attempts of a user, each a time and a typed code, are accepted.
pub accepted : Hasher → ℕ → List (Time × List ℕ) → World → ℕ
accepted bcrypt u [] w = 0
accepted bcrypt u ((now, typed) ∷ l) w =
    let (r, w') = consume bcrypt now u typed w in (if r then 1 else 0) + accepted bcrypt u l w'

unused-consume :
    (bcrypt : Hasher) (now : Time) (u : ℕ) (typed : List ℕ) (w : World)
    → let (r, w') = consume bcrypt now u typed w in (if r then 1 else 0) + unused u w' ≤ unused u w
unused-consume bcrypt now u typed w =
    let (r, w') = consume bcrypt now u typed w in
    let known = consume_lem bcrypt now u typed w in
    elim (Bool-cases r) [
      | inl yes_used ↦ rw yes_used (omega (arith, known.2 yes_used))
      | inr refused ↦ rw (refused, known.1 refused) (omega arith)
    ]

-- No series of attempts, replays of one code included, is accepted more often than the user had
-- unused codes at its start.
pub accepted-le-unused :
    (bcrypt : Hasher) (u : ℕ) (l : List (Time × List ℕ)) (w : World)
    → accepted bcrypt u l w ≤ unused u w
unfolding accepted
accepted-le-unused bcrypt u [] w = omega arith
accepted-le-unused bcrypt u ((now, typed) ∷ l) w = omega (
  arith,
  unused-consume bcrypt now u typed w,
  accepted-le-unused bcrypt u l (consume bcrypt now u typed w).1,
)
