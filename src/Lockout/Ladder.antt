-- ===== src/Lockout/Ladder.antt =====
-- What one failed attempt, one check and one reset do to the lockout row of a user, and to the rows
-- of the others.
use mathlib.Core.List.{append-nil}
use fief.Prelude.{
  ℕ, ◌+◌, ◌≤◌, ◌<◌, ◌≡◌, refl, ◌≢◌, Option, none, some, List, [], ◌∷◌, ◌++◌, arith, ◌==◌, is_some,
  if◌then◌else◌, get-put, get-put_self, ==_refl, true, leb,
}
use fief.Models.{
  Time, UserLockout, World, AuditRecord, number, user_account_locked, user_account_auto_unlocked,
  audit_logger, seconds,
}
use fief.Lockout.{
  unlocked, locked, ladder_duration, service_ladder, crossed, get_by_user_id, incremented,
  next_locked_until, check_locked, record_failed, upsert, retry_after,
}

-- The service's ladder has the rungs of the repository's, so that every lock is audited.
pub crossed-eq-is_some : (n : ℕ) → crossed n service_ladder ≡ is_some (ladder_duration n)
unfolding crossed ladder_duration
crossed-eq-is_some n = ground arith

-- How many failures a row stands for; a user with no row has none.
abbrev pub failures : Option UserLockout → ℕ
failures none = 0
failures (some row) = row.failed_count

abbrev pub lock_of : Option UserLockout → Option Time
lock_of none = none
lock_of (some row) = row.locked_until

pub get-record_failed :
    (now : Time) (u v : ℕ) (w : World)
    → get_by_user_id v (record_failed now u w)
      ≡ (if u == v then some (incremented now (get_by_user_id u w)) else get_by_user_id v w)
unfolding record_failed audit_logger
get-record_failed now u v w =
    ground (arith, get-put w.lockouts u v (incremented now (get_by_user_id u w)))

pub failures-incremented :
    (now : Time) (o : Option UserLockout) → (incremented now o).failed_count ≡ failures o + 1
unfolding incremented
failures-incremented now none = refl
failures-incremented now (some row) = refl

pub lock_of-incremented :
    (now : Time) (o : Option UserLockout)
    → (incremented now o).locked_until ≡ next_locked_until now (failures o + 1) (lock_of o)
unfolding incremented
lock_of-incremented now none = refl
lock_of-incremented now (some row) = refl

abbrev pub lock_line : ℕ → ℕ → Time → AuditRecord
lock_line u n until = record {
  message = user_account_locked;
  subject_user_id = some u;
  extra = ("failed_count", number n) ∷ ("locked_until", number until) ∷ [];
}

-- the audit lines of the failure that makes `n`
abbrev pub lock_lines : Time → ℕ → ℕ → List AuditRecord
lock_lines now u n = elim (ladder_duration n) [ none ↦ [] | some d ↦ lock_line u n (now + d) ∷ [] ]

audit-record_failed :
    (now : Time) (u : ℕ) (w : World)
    → (record_failed now u w).audit
      ≡ w.audit ++ lock_lines now u (failures (get_by_user_id u w) + 1)
unfolding record_failed audit_logger incremented
audit-record_failed now u w =
    ground (arith, crossed-eq-is_some (failures (get_by_user_id u w) + 1), append-nil w.audit)

-- One failed attempt of user `u` counts one more failure. If the new count is a rung of the ladder
-- (5, 10, 20, 50), the account is locked for the rung's duration from now and exactly one line is
-- audited; at any other count the lock stays as it was and nothing is audited. No other user's row
-- changes.
pub record_failed_lem :
    (now : Time) (u : ℕ) (w : World)
    → let n = failures (get_by_user_id u w) + 1 in
      let w' = record_failed now u w in
      (failures (get_by_user_id u w') ≡ n)
      × (lock_of (get_by_user_id u w') ≡ next_locked_until now n (lock_of (get_by_user_id u w)))
      × (w'.audit ≡ w.audit ++ lock_lines now u n)
      × ((v : ℕ) → u ≢ v → get_by_user_id v w' ≡ get_by_user_id v w)
record_failed_lem now u w = (
  rw (get-record_failed, ==_refl u) (failures-incremented now (get_by_user_id u w)),
  rw (get-record_failed, ==_refl u) (lock_of-incremented now (get_by_user_id u w)),
  audit-record_failed now u w,
  λ v ne. ground (arith, get-record_failed now u v w),
)

pub get-check_locked :
    (now : Time) (u v : ℕ) (w : World)
    → failures (get_by_user_id v (check_locked now u w).1) ≡ failures (get_by_user_id v w)
unfolding check_locked audit_logger upsert
get-check_locked now u v w = grind (arith, get-put)

-- An account is refused while its lock lies in the future, with a wait of at least a second
-- and without any change; a check that comes a second after the announced wait, or later, lets the
-- attempt through.
pub check_locked-locked :
    (now until t : Time) (u : ℕ) (w : World)
    → lock_of (get_by_user_id u w) ≡ some until
    → now < until
    → now + seconds (retry_after now until + 1) ≤ t
    → (check_locked now u w ≡ (locked (retry_after now until), w))
      × (1 ≤ retry_after now until)
      × ((check_locked t u w).0 ≡ unlocked)
unfolding check_locked
check_locked-locked now until t u w e h ht = (ground arith, omega arith, ground arith)

-- A check lets an attempt through only when no lock lies in the future. It then leaves no lock on
-- the account, keeps the failure count of every user (so that the ladder goes on from there), and
-- audits the unlocking exactly when there was a lock.
pub check_locked-unlocked :
    (now : Time) (u : ℕ) (w : World)
    → (check_locked now u w).0 ≡ unlocked
    → let w' = (check_locked now u w).1 in
      (lock_of (get_by_user_id u w') ≡ none)
      × (elim (lock_of (get_by_user_id u w)) [ none ↦ true | some until ↦ leb until now ] ≡ true)
      × ((v : ℕ) → failures (get_by_user_id v w') ≡ failures (get_by_user_id v w))
      × (w'.audit
          ≡ w.audit
            ++ (if is_some (lock_of (get_by_user_id u w))
                then record {
                  message = user_account_auto_unlocked;
                  subject_user_id = some u;
                  extra = ("failed_count", number (failures (get_by_user_id u w))) ∷ [];
                }
                  ∷ []
                else []))
unfolding check_locked audit_logger upsert
check_locked-unlocked now u w ok = (
  grind (arith, get-put_self),
  ground arith,
  λ v. get-check_locked now u v w,
  ground (arith, append-nil w.audit),
)
