-- ===== src/Word/Shifts.antt =====
-- The bounds of the shifts.
use native.Mathlib.Nat.{div-add-mod'}
use native.Mathlib.Decide.{dec_lt}
use riscv_v2f_optimized.Prelude.{
  ℕ, ◌*◌, ◌/◌, ◌%◌, ◌^◌, ◌≤◌, ◌<◌, true, ◌≡◌, refl, ◌==◌, ==_iff, arith,
}
use riscv_v2f_optimized.Word.{shr32, asr32}
use riscv_v2f_optimized.Word.Bits.{all_bits, all_bits_sound, pow_pos}

pub shr32-le : (a k : ℕ) → shr32 a k ≤ a
unfolding shr32
shr32-le a k = grind (arith, pow_pos k)

divides_table : all_bits 32 (λ k. 2 ^ 32 % 2 ^ k == 0) ≡ true
unfolding all_bits
divides_table = refl

word_divides : (k : ℕ) → k < 32 → 2 ^ 32 % 2 ^ k ≡ 0
word_divides k h = (==_iff _ 0).0 (all_bits_sound 32 _ k divides_table h)

shr-lt : (a k : ℕ) → a < 2 ^ 32 → k < 32 → a / 2 ^ k < 2 ^ 32 / 2 ^ k
shr-lt a k ha hk = elim (dec_lt (a / 2 ^ k) (2 ^ 32 / 2 ^ k)) [
  | yes p ↦ p
  | no p ↦ absurd (
      omega (
        arith,
        div-add-mod' a (2 ^ k),
        div-add-mod' (2 ^ 32) (2 ^ k),
        word_divides k hk,
        times (2 ^ 32 / 2 ^ k) (a / 2 ^ k) (2 ^ k) (omega arith),
      ))
]
  where
    times : (x y m : ℕ) → x ≤ y → x * m ≤ y * m
    times x y m h = grind arith

pub asr32-lt : (a k : ℕ) → a < 2 ^ 32 → k < 32 → asr32 a k < 2 ^ 32
unfolding asr32
asr32-lt a k ha hk = ground (arith, shr-lt a k ha hk, shr32-le a k)
