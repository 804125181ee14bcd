-- ===== src/Base/Word32.antt =====
-- 32-bit words as native numbers below 2 ^ 32, and the two's complement reading of them.
use Prim.Native.Nat.{ℕ, ◌+◌, ◌-◌, ◌*◌, ◌/◌, ◌%◌, ◌^◌}
use mathlib.Core.Bool.{Bool}
use serval_sosp.Base.Tests.{ltb, leb, if◌then◌else◌}

abbrev pub add32 : ℕ → ℕ → ℕ
add32 a b = (a + b) % 2 ^ 32

abbrev pub sub32 : ℕ → ℕ → ℕ
sub32 a b = (a + (2 ^ 32 - b)) % 2 ^ 32

-- `x << k`, cut to 32 bits
abbrev pub shl32 : ℕ → ℕ → ℕ
shl32 x k = x * 2 ^ k % 2 ^ 32

-- Conversions to uint16_t and uint8_t
abbrev pub u16 : ℕ → ℕ
u16 x = x % 2 ^ 16

abbrev pub u8 : ℕ → ℕ
u8 x = x % 2 ^ 8

-- The int32_t of a word is negative.
abbrev pub negative32 : ℕ → Bool
negative32 x = leb (2 ^ 31) x

-- `x >> k` on int32_t: copies of the sign come in from the left.
abbrev pub sar32 : ℕ → ℕ → ℕ
sar32 x k = if negative32 x then 2 ^ 32 - 1 - (2 ^ 32 - 1 - x) / 2 ^ k else x / 2 ^ k

-- `a < b` on int32_t
abbrev pub slt32 : ℕ → ℕ → Bool
slt32 a b = ltb ((a + 2 ^ 31) % 2 ^ 32) ((b + 2 ^ 31) % 2 ^ 32)

-- The word of a negative int: `-n`, for 0 < n.
abbrev pub neg32 : ℕ → ℕ
neg32 n = 2 ^ 32 - n
