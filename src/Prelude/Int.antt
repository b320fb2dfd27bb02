-- ===== src/Prelude/Int.antt =====
-- The integers of Python over the native numbers.
use Prim.Native.Nat.{ℕ}
use mathlib.Core.Bool.{Bool, true}
use fief.Prelude.Tests.{leb}

pub data ℤ : Type 0 where
  pos negsuc : ℕ → ℤ

-- n >= z
abbrev pub reaches : ℕ → ℤ → Bool
reaches n (pos m) = leb m n
reaches n (negsuc m) = true
