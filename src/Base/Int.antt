-- ===== src/Base/Int.antt =====
-- Go's `*big.Int` values, as integers over the native numbers.
use Prim.Native.Nat.{ℕ}

-- `negsuc n` is -(n + 1).
pub data ℤ : Type 0 where
  pos : ℕ → ℤ
  negsuc : ℕ → ℤ
