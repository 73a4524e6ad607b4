-- ===== src/Base/Integers.antt =====
-- The integers over the native numbers, for the signed fields of the program.
use Prim.Native.Nat.{ℕ}

-- `negsuc n` is -(n + 1).
pub data ℤ : Type 0 where
  pos negsuc : (n : ℕ) → ℤ
