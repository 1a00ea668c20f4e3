-- ===== src/Prelude/Int.antt =====
-- Signed 64-bit parameters, read as integers.
use Prim.Native.Nat.{ℕ}
use mathlib.Core.Bool.{Bool, false}
use vis.Prelude.Tests.{leb}

-- `negsuc n` is -(n + 1).
pub data ℤ : Type 0 where
  pos : ℕ → ℤ
  negsuc : ℕ → ℤ

-- `Between(x, 0, n)` of util.h at a bound that is not negative.
abbrev pub between_zero : ℤ → ℕ → Bool
between_zero (pos x) n = leb x n
between_zero (negsuc x) n = false

abbrev pub to_ℕ : ℤ → ℕ
to_ℕ (pos x) = x
to_ℕ (negsuc x) = 0
