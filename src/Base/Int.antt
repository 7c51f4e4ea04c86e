-- ===== src/Base/Int.antt =====
-- The source's `int` where it is negative: results of -1, and `last`.
use Prim.Native.Nat.{ℕ}

-- `negsuc n` is -(n + 1).
pub data ℤ : Type 0 where
  pos : ℕ → ℤ
  negsuc : ℕ → ℤ
