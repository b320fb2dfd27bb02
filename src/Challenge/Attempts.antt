-- ===== src/Challenge/Attempts.antt =====
-- How many codes can be tried on one login session: the counter of `_record_failed_mfa_attempt`
-- behind `_gate_mfa_challenge`, which a right password at /login starts afresh.
use fief.Challenge.{
  Gated, gate_mfa_challenge, open_for, bounced, mfa_max_attempts, mfa_lockout_duration,
}
use fief.Prelude.{
  ℕ, List, ◌∷◌, ◌+◌, get, ◌≤◌, some, ◌≡◌, ◌<◌, [], ◌⊎◌, ◌-◌, none, if◌then◌else◌, leb, String, Bool,
}
use fief.Models.{Time, World, LoginSession, User}
use fief.Challenge.{wrong_code}
use fief.Login.{LoginRequest, authenticated}

-- What happens to a login session: a wrong code, with its audit reason and error; a right password at
-- /login with that session; and what leaves its row alone.
pub data Event : Type 0 where
  attempt : Time → String → String → Event
  relogin : Bool → Time → LoginRequest → User → Event
  elsewhere : (World → World) → Event

-- a wrong code behind the gate: how many codes (0 or 1) were checked
try_open : Time → String → String → Gated → World → ℕ × World
try_open now reason error bounced w = (0, w)
try_open now reason error (open_for user ls) w = (1, (wrong_code now user ls reason error w).1)

unfoldable wrong_attempt : Time → String → String → ℕ → World → ℕ × World
unfolding try_open
wrong_attempt now reason error id w =
    let (gated, w') = gate_mfa_challenge now (get w.login_sessions id) w in
    try_open now reason error gated w'

-- how many codes were checked in an event on the login session `id`, and what it leaves
unfoldable pub happens : ℕ → Event → World → ℕ × World
unfolding wrong_attempt
happens id (attempt now reason error) w = wrong_attempt now reason error id w
happens id (relogin on now request user) w = (
  0,
  (authenticated on now (record request { login_session = get w.login_sessions id }) user w).1,
)
happens id (elsewhere f) w = (0, f w)

-- the events, one after the other: how many wrong codes were checked
unfoldable pub checked : ℕ → List Event → World → ℕ
unfolding happens
checked id [] w = 0
checked id (e ∷ es) w = (happens id e w).0 + checked id es (happens id e w).1

-- how many of the events are logins
unfoldable pub relogins : List Event → ℕ
relogins [] = 0
relogins (attempt now reason error ∷ es) = relogins es
relogins (relogin on now request user ∷ es) = 1 + relogins es
relogins (elsewhere f ∷ es) = relogins es

-- the row after a wrong code that was checked
abbrev counted : Time → LoginSession → LoginSession
counted now ls =
    let n = ls.mfa_attempts_count + 1 in
    record ls {
      mfa_attempts_count = n;
      mfa_locked_until =
          if leb mfa_max_attempts n then some (now + mfa_lockout_duration) else ls.mfa_locked_until;
    }

module _ (id : ℕ) (t0 : Time) where
  -- nobody waits, or the limit is not reached, or it is and the lock outlasts the window
  abbrev Guarded : LoginSession → Type 0
  Guarded ls =
      (ls.id ≡ id)
      × ((ls.mfa_pending_user_id ≡ none)
          ⊎ (ls.mfa_attempts_count < mfa_max_attempts)
          ⊎ ((ls.mfa_attempts_count ≡ mfa_max_attempts)
              × ((until : Time) × (ls.mfa_locked_until ≡ some until)
                  × (t0 + mfa_lockout_duration ≤ until))))

  -- the checks that are left
  abbrev room : LoginSession → ℕ
  room ls = elim ls.mfa_pending_user_id [
    | none ↦ 0
    | some _ ↦ mfa_max_attempts - ls.mfa_attempts_count
  ]

  -- the wrong codes come within one lockout duration, and what happens elsewhere keeps the row
  abbrev pub Admissible : Event → Type 0
  Admissible (attempt t reason error) = (t0 ≤ t) × (t < t0 + mfa_lockout_duration)
  Admissible (relogin on now request user) = Unit
  Admissible (elsewhere f) = (w : World) → get (f w).login_sessions id ≡ get w.login_sessions id
