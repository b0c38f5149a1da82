-- ===== src/Base/Int.antt =====
-- Signed integers over the native numbers, for exit codes and the sentinel -1.
use Prim.Native.Nat.{ℕ}
use mathlib.Core.Bool.{Bool, false}
use shared_gapbs.Base.Tests.{◌==◌}

-- `negsuc n` is -(n + 1).
pub data ℤ : Type 0 where
  pos : ℕ → ℤ
  negsuc : ℕ → ℤ

abbrev pub minus_one : ℤ
minus_one = negsuc 0

infix 50 ◌==ℤ◌
abbrev pub ◌==ℤ◌ : ℤ → ℤ → Bool
pos a ==ℤ pos b = a == b
pos a ==ℤ negsuc b = false
negsuc a ==ℤ pos b = false
negsuc a ==ℤ negsuc b = a == b
