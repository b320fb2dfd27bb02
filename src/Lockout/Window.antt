-- ===== src/Lockout/Window.antt =====
-- How many wrong passwords the ladder lets through in a window of time, when every attempt passes
-- `check_locked` first, as in /login.
use native.Mathlib.Decide.{dec_lt}
use fief.Lockout.Ladder.{failures, lock_of, check_locked-unlocked, record_failed_lem}
use fief.Lockout.{
  ladder_duration, LockCheck, record_failed, check_locked, locked, get_by_user_id, unlocked,
  next_locked_until,
}
use fief.Models.{Time, World, UserLockout}
use fief.Prelude.{
  refl, ℕ, List, All, ◌≤◌, ◌∷◌, ◌≡◌, ◌+◌, some, ◌<◌, Option, ◌⊎◌, [], arith, ap, inl, inr, ◌∙◌,
  none,
}

-- One wrong password: how many attempts (0 or 1) went past the lock, and the state it leaves.
admit : Time → ℕ → LockCheck × World → ℕ × World
admit now u (unlocked, w) = (1, record_failed now u w)
admit now u (locked _, w) = (0, w)

pub failed_attempt : Time → ℕ → World → ℕ × World
unfolding admit
failed_attempt now u w = admit now u (check_locked now u w)

-- The wrong passwords at the given times, one after the other: how many went past the lock.
pub admitted : ℕ → List Time → World → ℕ
admitted u [] w = 0
admitted u (t ∷ ts) w = (failed_attempt t u w).0 + admitted u ts (failed_attempt t u w).1

abbrev pub InWindow : Time → Time → List Time → Type 0
InWindow t0 d = All (λ t. (t0 ≤ t) × (t < t0 + d))

locked-unchanged :
    (t : Time) (u s : ℕ) (w w' : World) → check_locked t u w ≡ (locked s, w') → w' ≡ w
unfolding check_locked
locked-unchanged t u s w w' e = ground arith

module _ (u r : ℕ) (t0 d : Time) (rung : ladder_duration r ≡ some d) where
  -- below the rung, or on it with a lock that outlasts the window
  abbrev Guarded : Option UserLockout → Type 0
  Guarded o =
      (failures o < r)
      ⊎ ((failures o ≡ r) × (until : Time) × (lock_of o ≡ some until) × (t0 + d ≤ until))

  passed_below :
      (t : Time) (o : Option UserLockout)
      → Guarded o
      → ((until : Time) → lock_of o ≡ some until → until ≤ t)
      → t < t0 + d
      → failures o < r
  passed_below t o (inl below) past hi = below
  passed_below t o (inr (_, until, l, outlasts)) past hi = absurd (omega (arith, past until l))

  failed-Guarded :
      (t : Time) (o o' : Option UserLockout) (l : Option Time)
      → failures o' ≡ failures o + 1
      → lock_of o' ≡ next_locked_until t (failures o + 1) l
      → failures o < r
      → t0 ≤ t
      → Guarded o'
  failed-Guarded t o o' l n k below lo = elim (dec_lt (failures o + 1) r) [
    | yes h ↦ inl (omega arith)
    | no h ↦
        let e : failures o + 1 ≡ r = omega arith in
        inr (
          omega arith,
          t + d,
          k ∙ rw e (ap (λ (o : Option Time). elim o [ none ↦ l | some d' ↦ some (t + d') ]) rung),
          omega arith,
        )
  ]

  admit-Guarded :
      (t : Time) (w : World) (c : LockCheck × World)
      → check_locked t u w ≡ c
      → t0 ≤ t
      → t < t0 + d
      → Guarded (get_by_user_id u w)
      → Guarded (get_by_user_id u (admit t u c).1)
        × (failures (get_by_user_id u (admit t u c).1)
            ≡ failures (get_by_user_id u w) + (admit t u c).0)
  unfolding admit
  admit-Guarded t w (locked s, w') e lo hi g =
      let same : w' ≡ w = locked-unchanged t u s w w' e in rw same (g, omega arith)
  admit-Guarded t w (unlocked, w') e lo hi g =
      let passed = check_locked-unlocked t u w (ap (λ (c : LockCheck × World). c.0) e) in
      let same : (check_locked t u w).1 ≡ w' = ap (λ (c : LockCheck × World). c.1) e in
      let kept : failures (get_by_user_id u w') ≡ failures (get_by_user_id u w) =
        rw same at (passed.2 u) in
      let free = passed.1 in
      let below = passed_below t (get_by_user_id u w) g (λ until f. ground arith) hi in
      let after = record_failed_lem t u w' in
      (
        failed-Guarded t (get_by_user_id u w') (get_by_user_id u (record_failed t u w'))
            (lock_of (get_by_user_id u w')) after.0 after.1 (omega arith) lo,
        omega arith,
      )

  admitted-Guarded :
      (ts : List Time) (w : World)
      → InWindow t0 d ts
      → Guarded (get_by_user_id u w)
      → failures (get_by_user_id u w) + admitted u ts w ≤ r
  unfolding admitted failed_attempt
  admitted-Guarded [] w h g = omega arith
  admitted-Guarded (t ∷ ts) w h g =
      let step = admit-Guarded t w (check_locked t u w) refl h.0.0 h.0.1 g in
      omega (arith, admitted-Guarded ts (failed_attempt t u w).1 h.1 step.0)

-- The lockout bounds guessing: of the wrong passwords that are tried for a user within a window as
-- long as the lock of the rung `r` of the ladder, whatever their times and order, at most
-- `r - failed_count` get past the lock, for a user who starts below the rung. So from a clean state
-- at most 5 within a minute, and then at most 10 within five minutes.
pub admitted-le-rung :
    (u r : ℕ) (t0 d : Time) (ts : List Time) (w : World)
    → ladder_duration r ≡ some d
    → failures (get_by_user_id u w) < r
    → InWindow t0 d ts
    → failures (get_by_user_id u w) + admitted u ts w ≤ r
admitted-le-rung u r t0 d ts w rung below h = admitted-Guarded u r t0 d rung ts w h (inl below)
