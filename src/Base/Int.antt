-- ===== src/Base/Int.antt =====
-- Integers over the native numbers.
use Prim.Native.Nat.{ℕ, zero, suc, ◌<◌}

-- `negsuc n` is -(n + 1).
pub data ℤ : Type 0 where
  pos negsuc : ℕ → ℤ

-- The negative of a number.
unfoldable pub neg : ℕ → ℤ
neg zero = ℤ.pos 0
neg (suc n) = ℤ.negsuc n

-- The numbers of an `int` of 32 bits.
abbrev pub IsInt : ℤ → Type 0
IsInt (ℤ.pos n) = n < 2147483648
IsInt (ℤ.negsuc n) = n < 2147483648
