-- ===== src/Prelude/Int.antt =====
-- Signed integers over the native numbers, with the two's complement reading of a 64-bit word.
use Prim.Native.Nat.{ℕ}

-- `negsuc n` is -(n + 1).
pub data ℤ : Type 0 where
  pos : ℕ → ℤ
  negsuc : ℕ → ℤ
