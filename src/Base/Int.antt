-- ===== src/Base/Int.antt =====
-- Signed integers over the native numbers, and Go's 64-bit `int`, `int64` and `time.Duration`.
use Prim.Native.Nat.{ℕ, suc, ◌+◌, ◌-◌, ◌*◌, ◌%◌, ◌^◌, ◌≤◌, ◌<◌}
use mathlib.Core.Bool.{Bool}
use bsystem_integration_core.Base.Tests.{ltb, leb, if◌then◌else◌}

-- `negsuc n` is -(n + 1).
pub data ℤ : Type 0 where
  pos : ℕ → ℤ
  negsuc : ℕ → ℤ

abbrev pub pos_part : ℤ → ℕ
pos_part (pos n) = n
pos_part (negsuc n) = 0

abbrev pub neg_part : ℤ → ℕ
neg_part (pos n) = 0
neg_part (negsuc n) = suc n

-- a - b, as an integer.
abbrev pub sub_ℕ : ℕ → ℕ → ℤ
sub_ℕ a b = if leb b a then pos (a - b) else negsuc (b - a - 1)

infix 50 ◌≤ℤ◌ ◌<ℤ◌
abbrev pub ◌≤ℤ◌ : ℤ → ℤ → Type 0
a ≤ℤ b = pos_part a + neg_part b ≤ pos_part b + neg_part a

abbrev pub ◌<ℤ◌ : ℤ → ℤ → Type 0
a <ℤ b = pos_part a + neg_part b < pos_part b + neg_part a

abbrev pub ltb_ℤ : ℤ → ℤ → Bool
ltb_ℤ a b = ltb (pos_part a + neg_part b) (pos_part b + neg_part a)

abbrev pub leb_ℤ : ℤ → ℤ → Bool
leb_ℤ a b = leb (pos_part a + neg_part b) (pos_part b + neg_part a)

-- The greatest `int64`.
abbrev pub max_int64 : ℕ
max_int64 = 9223372036854775807

-- The `int64` nearest to an integer, as `Time.Sub` saturates.
abbrev pub saturate : ℤ → ℤ
saturate (pos n) = if leb n max_int64 then pos n else pos max_int64
saturate (negsuc n) = if leb n max_int64 then negsuc n else negsuc max_int64

-- 2 ^ 63 and 2 ^ 64.
abbrev pub int64_sign : ℕ
int64_sign = 9223372036854775808

abbrev pub int64_mod : ℕ
int64_mod = 18446744073709551616

-- The `int64` with the given bit pattern.
abbrev pub of_bits : ℕ → ℤ
of_bits n = if ltb n int64_sign then pos n else negsuc (int64_mod - 1 - n)

-- The bit pattern of x * m in 64 bits.
abbrev pub mul_bits : ℤ → ℕ → ℕ
mul_bits (pos n) m = n * m % int64_mod
mul_bits (negsuc n) m = (int64_mod - suc n * m % int64_mod) % int64_mod

-- `x * m` on `int64`, which wraps.
unfoldable pub mul_int64 : ℤ → ℕ → ℤ
mul_int64 x m = of_bits (mul_bits x m)

-- `x << k` on `int64`: from 64 on every bit is gone, and 2 ^ 64 divides 2 ^ k.
unfoldable pub shift_left : ℤ → ℕ → ℤ
shift_left x k = mul_int64 x (2 ^ k)
