-- ===== src/Common/Int.antt =====
-- Signed arguments: a C `int` or `long` within its range.
use Prim.Native.Nat.{ℕ}

-- `negsuc n` is -(n + 1).
pub data ℤ : Type 0 where
  pos : ℕ → ℤ
  negsuc : ℕ → ℤ
