-- ===== src/Word.antt =====
-- uint32_t and int as the simulator uses them: an `int` is its bit pattern, below 2 ^ 32.
-- Casts to uint32_t are `% 2 ^ 32`; unsigned arithmetic wraps by the same remainder.
pub mod Bits
pub mod Joins
pub mod Masks
pub mod Signed
pub mod Shifts
use riscv_v2f_optimized.Prelude.{
  ℕ, ◌+◌, ◌-◌, ◌*◌, ◌/◌, ◌%◌, ◌^◌, Bool, true, false, not, ltb, ◌==◌, if◌then◌else◌,
}

abbrev pub u32_mod : ℕ
u32_mod = 2 ^ 32

abbrev pub all_ones : ℕ
all_ones = 0xFFFF_FFFF

unfoldable pub u32 : ℕ → ℕ
u32 a = a % u32_mod

unfoldable pub add32 : ℕ → ℕ → ℕ
add32 a b = (a + b) % u32_mod

unfoldable pub sub32 : ℕ → ℕ → ℕ
sub32 a b = (a + u32_mod - b) % u32_mod

-- ~a and -a
unfoldable pub not32 : ℕ → ℕ
not32 a = all_ones - a

unfoldable pub neg32 : ℕ → ℕ
neg32 a = (u32_mod - a) % u32_mod

-- a << k, a >> k on uint32_t, for k < 32
unfoldable pub shl32 : ℕ → ℕ → ℕ
shl32 a k = a * 2 ^ k % u32_mod

unfoldable pub shr32 : ℕ → ℕ → ℕ
shr32 a k = a / 2 ^ k

-- The sign bit of an `int`.
unfoldable pub is_neg : ℕ → Bool
is_neg a = not (ltb a (2 ^ 31))

-- (signed)a >> k copies the sign bit into the k places at the top.
unfoldable pub asr32 : ℕ → ℕ → ℕ
unfolding is_neg
asr32 a k = if is_neg a then a / 2 ^ k + (u32_mod - 2 ^ 32 / 2 ^ k) else a / 2 ^ k

-- An integer used as a condition.
abbrev pub nonzero : ℕ → Bool
nonzero a = not (a == 0)
