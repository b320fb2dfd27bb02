-- ===== src/Totp/Replay.antt =====
-- Replay protection of `TotpService.verify` (fief/services/security/totp.py).
use fief.Models.{User, UserTotpSecret, audit_logger, Time, World}
use fief.Totp.{Otp, verify, get_confirmed, VerifyResult, success, current_step}
use fief.Prelude.{
  Option, List, ℕ, some, none, String, ◌+◌, ◌≡◌, ◌≤◌, ◌⊎◌, ◌≢◌, arith, get-put_self, ◌∷◌, [], inl,
  inr, refl,
}

-- how many 30-second steps of a row are used up: the step after `last_used_step`
abbrev pub first_free : Option UserTotpSecret → ℕ
first_free none = 0
first_free (some row) = elim row.last_used_step [ none ↦ 0 | some last ↦ last + 1 ]

log_step : VerifyResult → ℕ → List ℕ → List ℕ
log_step success n ns = n ∷ ns
log_step _ n ns = ns

log_step-of_ne : (r : VerifyResult) (n : ℕ) (ns : List ℕ) → r ≢ success → log_step r n ns ≡ ns
unfolding log_step
log_step-of_ne r n ns h = ground arith

module _ (otp : Otp) where
  -- The steps at which a series of attempts, each a time and a code, succeeds.
  unfoldable pub success_steps : User → List (Time × String) → World → List ℕ
  unfolding log_step
  success_steps user [] w = []
  success_steps user ((now, code) ∷ l) w =
      let (r, w') = verify otp now user code w in
      log_step r (current_step now) (success_steps user l w')

  -- A verification succeeds only at a free step, and then uses up all steps up to its own; any
  -- other outcome leaves the row as it was.
  verify-first_free :
      (now : Time) (user : User) (code : String) (w : World) {r : VerifyResult} {w' : World}
      → verify otp now user code w ≡ (r, w')
      → ((r ≡ success)
          × (first_free (get_confirmed user.id w) ≤ current_step now)
          × (first_free (get_confirmed user.id w') ≡ current_step now + 1))
        ⊎ ((r ≢ success) × (get_confirmed user.id w' ≡ get_confirmed user.id w))
  unfolding verify get_confirmed audit_logger
  verify-first_free now user code w e = grind (arith, get-put_self)

-- `b` is a lower bound of the list, and the list ascends strictly.
abbrev pub Ascends : ℕ → List ℕ → Type 0
Ascends b [] = Unit
Ascends b (n ∷ ns) = (b ≤ n) × Ascends (n + 1) ns

module _ (otp : Otp) where
  steps-Ascends :
      (user : User) (l : List (Time × String)) (w : World) (b : ℕ)
      → first_free (get_confirmed user.id w) ≡ b
      → Ascends b (success_steps otp user l w)
  unfolding success_steps log_step
  steps-Ascends user [] w b e = tt
  steps-Ascends user ((now, code) ∷ l) w b e =
      let (r, w') = verify otp now user code w in
      let ih = steps-Ascends user l w' (first_free (get_confirmed user.id w')) refl in
      elim (verify-first_free otp now user code w {r = r} {w' = w'} refl) [
        | inl (won, free, used) ↦ rw (won, log_step) (rw e at free, rw used at ih)
        | inr (lost, same) ↦ rw (log_step-of_ne r (current_step now) _ lost) (rw (same, e) at ih)
      ]

-- Whatever the codes and the times of the attempts, two successful verifications of a user never
-- happen in one 30-second step, and none happens in a step at or before the row's `last_used_step`:
-- the steps of the successes ascend strictly from the first free one. The clock may go backwards.
pub verify_no_replay :
    (otp : Otp) (user : User) (l : List (Time × String)) (w : World)
    → Ascends (first_free (get_confirmed user.id w)) (success_steps otp user l w)
verify_no_replay otp user l w = steps-Ascends otp user l w _ refl
