-- ===== src/Totp/Tests.antt =====
-- TOTP on concrete users.
use fief.Samples.{otp, unary, alice, world, size-unary, alice_secret}
use fief.Totp.Replay.{Ascends, first_free, success_steps, verify_no_replay}
use fief.Totp.{get_confirmed, current_step}
use fief.Prelude.{get, arith, ◌+◌, ◌∷◌, ◌≡◌, [], refl}
use fief.Totp.Reuse.{AcceptsWindow, verify_same_code_thrice}

verify_no_replay_example :
    Ascends
      (first_free (get_confirmed alice.id world))
      (success_steps otp alice ((30000000, unary 1) ∷ (30000000, unary 1) ∷ []) world)
verify_no_replay_example =
    verify_no_replay otp alice ((30000000, unary 1) ∷ (30000000, unary 1) ∷ []) world

accepts : AcceptsWindow otp "s" unary
accepts k t lo hi = ground (arith, size-unary k)

verify_same_code_thrice_example :
    success_steps otp alice
      ((30000000, unary (1 + 1)) ∷ (60000000, unary (1 + 1)) ∷ (90000000, unary (1 + 1)) ∷ [])
      world
    ≡ 1 ∷ (1 + 1) ∷ (1 + 2) ∷ []
unfolding get_confirmed get current_step
verify_same_code_thrice_example =
    verify_same_code_thrice otp alice world alice_secret "s" unary 1 30000000 60000000 90000000
      accepts refl refl omega arith refl refl refl
