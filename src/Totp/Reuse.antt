-- ===== src/Totp/Reuse.antt =====
-- What the replay protection of `TotpService.verify` leaves open. `last_used_step` records the step
-- of the clock, and pyotp's `valid_window=1` accepts the code of the step before and of the step
-- after it too.
use fief.Models.{User, Time, UserTotpSecret, World}
use fief.Prelude.{String, ℕ, ◌≤◌, ◌+◌, ◌≡◌, some, true, arith, get-put_self, ◌∷◌, []}
use fief.Totp.Replay.{success_steps, first_free}
use fief.Totp.{Otp, verify, get_confirmed, current_step, success}

-- `valid_window=1`: the code of a step is valid during that step and the steps on both sides of it.
abbrev pub AcceptsWindow : Otp → String → (ℕ → String) → Type 0
AcceptsWindow otp secret code_at =
    (k : ℕ) (t : Time)
    → k ≤ current_step t + 1
    → current_step t ≤ k + 1
    → otp.verify secret (code_at k) t ≡ true

module _ (otp : Otp) (user : User) (secret : String) where
  verify_succeeds :
      (t : Time) (code : String) (row : UserTotpSecret) (w : World)
      → get_confirmed user.id w ≡ some row
      → otp.decrypt row.secret_encrypted ≡ some secret
      → first_free (some row) ≤ current_step t
      → otp.verify secret code t ≡ true
      → ((verify otp t user code w).0 ≡ success)
        × (get_confirmed user.id (verify otp t user code w).1
            ≡ some (record row { last_used_step = some (current_step t) }))
  unfolding verify get_confirmed
  verify_succeeds t code row w c e f v = grind (arith, get-put_self)

-- One code opens three logins: the code of step n + 1, typed once in each of the steps n, n + 1 and
-- n + 2, is accepted all three times, for a user with a confirmed secret that decrypts and whose
-- last used step lies before n. The condition on `verify` is the documented `valid_window=1`.
pub verify_same_code_thrice :
    (otp : Otp) (user : User) (w : World) (row : UserTotpSecret) (secret : String)
    (code_at : ℕ → String) (n : ℕ) (t0 t1 t2 : Time)
    → AcceptsWindow otp secret code_at
    → get_confirmed user.id w ≡ some row
    → otp.decrypt row.secret_encrypted ≡ some secret
    → first_free (some row) ≤ n
    → current_step t0 ≡ n
    → current_step t1 ≡ n + 1
    → current_step t2 ≡ n + 2
    → success_steps otp user
        ((t0, code_at (n + 1)) ∷ (t1, code_at (n + 1)) ∷ (t2, code_at (n + 1)) ∷ [])
        w
      ≡ n ∷ (n + 1) ∷ (n + 2) ∷ []
unfolding success_steps
verify_same_code_thrice otp user w row secret code_at n t0 t1 t2 window c e f s0 s1 s2 =
    let code = code_at (n + 1) in
    let row0 = record row { last_used_step = some (current_step t0) } in
    let row1 = record row { last_used_step = some (current_step t1) } in
    let w0 = (verify otp t0 user code w).1 in
    let w1 = (verify otp t1 user code w0).1 in
    let first =
      verify_succeeds otp user secret t0 code row w c e (omega arith)
        (window (n + 1) t0 (omega arith) (omega arith)) in
    let second =
      verify_succeeds otp user secret t1 code row0 w0 first.1 e (omega arith)
        (window (n + 1) t1 (omega arith) (omega arith)) in
    let third =
      verify_succeeds otp user secret t2 code row1 w1 second.1 e (omega arith)
        (window (n + 1) t2 (omega arith) (omega arith)) in
    rw (first.0, second.0, third.0) (rw (s0, s1, s2))
