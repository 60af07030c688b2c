-- ===== src/Prelude/Integers.antt =====
-- Signed integers: `pos n`, and `negsuc n` for `-1 - n`.
use Prim.Native.Nat.{ℕ}

pub data ℤ : Type 0 where
  pos negsuc : ℕ → ℤ
