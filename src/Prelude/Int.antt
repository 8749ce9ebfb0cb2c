-- ===== src/Prelude/Int.antt =====
-- Signed integers over the native numbers, and Go's conversion to `int32`.
use Prim.Native.Nat.{ℕ, zero, suc, ◌-◌, ◌%◌, ◌^◌}
use cluster_api_control_plan.Prelude.Tests.{ltb, if◌then◌else◌}

-- `negsuc n` is -(n + 1).
pub data ℤ : Type 0 where
  pos : ℕ → ℤ
  negsuc : ℕ → ℤ

-- -n
abbrev pub neg_ℕ : ℕ → ℤ
neg_ℕ zero = pos 0
neg_ℕ (suc n) = negsuc n

-- The bit pattern of a number of 64 bits, cut to 32 bits.
abbrev pub low_word : ℤ → ℕ
low_word (pos n) = n % 2 ^ 32
low_word (negsuc n) = 2 ^ 32 - 1 - n % 2 ^ 32

-- `int32(n)`
unfoldable pub int32 : ℤ → ℤ
int32 n = let w = low_word n in if ltb w (2 ^ 31) then pos w else negsuc (2 ^ 32 - 1 - w)
