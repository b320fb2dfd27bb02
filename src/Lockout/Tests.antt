-- ===== src/Lockout/Tests.antt =====
-- The lockout on concrete users.
use fief.Lockout.Window.{admitted, admitted-le-rung}
use fief.Models.{minutes}
use fief.Samples.{world}
use fief.Lockout.{get_by_user_id, ladder_duration}
use fief.Lockout.Ladder.{failures}
use fief.Prelude.{get, ◌+◌, ◌≤◌, ◌∷◌, [], arith, refl}

admitted-le-rung_example : failures (get_by_user_id 1 world) + admitted 1 (8 ∷ 9 ∷ []) world ≤ 5
unfolding get ladder_duration
admitted-le-rung_example =
    admitted-le-rung 1 5 7 (minutes 1) (8 ∷ 9 ∷ []) world refl (omega arith)
      ((omega arith, omega arith), ((omega arith, omega arith), tt))
