-- ===== src/Common/Integers.antt =====
-- Integers, for differences that may fall below 0.
use Prim.Native.Nat.{ℕ, ◌-◌}
use avorelo.Common.Tests.{leb, if◌then◌else◌}

pub data ℤ : Type 0 where
  pos : ℕ → ℤ
  negsuc : ℕ → ℤ

abbrev pub difference : ℕ → ℕ → ℤ
difference n m = if leb m n then pos (n - m) else negsuc (m - n - 1)
