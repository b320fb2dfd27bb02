-- ===== src/Lockout.antt =====
-- Per-account lockout: fief/repositories/user_lockout.py and
-- fief/services/security/account_lockout.py. `now` is the wall clock at the call; a user is named by
-- its id. `AccountLocked` is the result `locked`, with its `retry_after_seconds`.
pub mod Ladder
pub mod Window
mod Tests
use fief.Prelude.{
  ℕ, ◌+◌, ◌-◌, ◌/◌, max, Bool, true, false, ◌||◌, Option, none, some, List, [], ◌∷◌, ◌==◌, leb,
  if◌then◌else◌, Dict, get, put,
}
use fief.Models.{
  Time, seconds, minutes, hours, UserLockout, World, Extra, number, user_account_locked,
  user_account_auto_unlocked, audit_logger,
}

-- `_LADDER.get(count)` of the repository
unfoldable pub ladder_duration : ℕ → Option Time
ladder_duration n =
    if n == 5
    then some (minutes 1)
    else if n == 10
    then some (minutes 5)
    else if n == 20
    then some (minutes 15)
    else if n == 50
    then some (hours 24)
    else none

-- `AccountLockoutService.LADDER`
abbrev pub service_ladder : List (ℕ × Time)
service_ladder = (5, minutes 1) ∷ (10, minutes 5) ∷ (20, minutes 15) ∷ (50, hours 24) ∷ []

-- any(row.failed_count == n for n, _dur in self.LADDER)
unfoldable pub crossed : ℕ → List (ℕ × Time) → Bool
crossed n [] = false
crossed n ((m, _) ∷ l) = n == m || crossed n l

abbrev pub get_by_user_id : ℕ → World → Option UserLockout
get_by_user_id user_id w = get w.lockouts user_id

unfoldable pub upsert : ℕ → ℕ → Option Time → World → World
upsert user_id failed_count locked_until w = record w {
  lockouts =
      put w.lockouts user_id (record { failed_count = failed_count; locked_until = locked_until });
}

abbrev pub next_locked_until : Time → ℕ → Option Time → Option Time
next_locked_until now new_count old = elim (ladder_duration new_count) [
  | none ↦ old
  | some d ↦ some (now + d)
]

-- the new row, from the row that was read
unfoldable pub incremented : Time → Option UserLockout → UserLockout
unfolding ladder_duration
incremented now none = record { failed_count = 1; locked_until = next_locked_until now 1 none }
incremented now (some existing) =
    let new_count = existing.failed_count + 1 in
    record {
      failed_count = new_count;
      locked_until = next_locked_until now new_count existing.locked_until;
    }

unfoldable pub increment_and_apply_ladder : Time → ℕ → World → UserLockout × World
increment_and_apply_ladder now user_id w =
    let row = incremented now (get_by_user_id user_id w) in
    (row, record w { lockouts = put w.lockouts user_id row })

unfoldable pub clear : ℕ → World → World
clear user_id w = elim (get_by_user_id user_id w) [
  | none ↦ w
  | some _ ↦ record w {
    lockouts = put w.lockouts user_id (record { failed_count = 0; locked_until = none });
  }
]

pub data LockCheck : Type 0 where
  unlocked : LockCheck
  locked : ℕ → LockCheck

-- max(1, int((locked_until - now).total_seconds())), for locked_until > now
abbrev pub retry_after : Time → Time → ℕ
retry_after now until = max 1 ((until - now) / 1000000)

abbrev auto_unlock : ℕ → UserLockout → World → World
auto_unlock user_id row w =
    audit_logger user_account_auto_unlocked (some user_id)
      (("failed_count", number row.failed_count) ∷ []) (upsert user_id row.failed_count none w)

unfoldable pub check_row : Time → ℕ → UserLockout → Option Time → World → LockCheck × World
check_row now user_id row none w = (unlocked, w)
check_row now user_id row (some until) w =
    if leb until now
    then (unlocked, auto_unlock user_id row w)
    else (locked (retry_after now until), w)

unfoldable pub check_locked : Time → ℕ → World → LockCheck × World
unfolding check_row
check_locked now user_id w = elim (get_by_user_id user_id w) [
  | none ↦ (unlocked, w)
  | some row ↦ check_row now user_id row row.locked_until w
]

abbrev audit_lock : ℕ → UserLockout → World → World
audit_lock user_id row w = elim row.locked_until [
  | none ↦ w
  | some until ↦
      audit_logger user_account_locked (some user_id)
        (("failed_count", number row.failed_count) ∷ ("locked_until", number until) ∷ []) w
]

unfoldable pub record_failed : Time → ℕ → World → World
unfolding increment_and_apply_ladder
record_failed now user_id w =
    let (row, w') = increment_and_apply_ladder now user_id w in
    if crossed row.failed_count service_ladder then audit_lock user_id row w' else w'

unfoldable pub reset : ℕ → World → World
unfolding clear
reset user_id w = clear user_id w
