-- ===== src/Word/Joins.antt =====
-- `|` of numbers whose bits do not overlap is their sum.
use native.Mathlib.Nat.{pow-suc}
use riscv_v2f_optimized.Prelude.{
  ℕ, zero, suc, ◌+◌, ◌*◌, ◌/◌, ◌%◌, ◌^◌, ◌<◌, ◌≡◌, refl, ap, ◌∙◌, arith, bit_or, max,
}
use riscv_v2f_optimized.Word.Bits.{bit_or_step, zero-bit_or}

bit_or-zero_below : (bound a : ℕ) → a < bound → bit_or a 0 ≡ a
bit_or-zero_below zero a h = absurd (omega arith)
bit_or-zero_below (suc bound) zero h = refl
bit_or-zero_below (suc bound) (suc a) h =
    omega (arith, bit_or_step (suc a) 0, bit_or-zero_below bound (suc a / 2) (omega arith))

pub bit_or-zero : (a : ℕ) → bit_or a 0 ≡ a
bit_or-zero a = bit_or-zero_below (suc a) a (omega arith)

-- Low bits joined to a number that has none there.
pub bit_or_below : (n a b : ℕ) → b < 2 ^ n → bit_or (a * 2 ^ n) b ≡ a * 2 ^ n + b
bit_or_below zero a zero h = bit_or-zero (a * 1) ∙ omega arith
bit_or_below zero a (suc b) h = absurd (omega arith)
bit_or_below (suc n) a b h =
    bit_or_step (a * 2 ^ suc n) b
    ∙ ap (λ y. max (a * 2 ^ suc n % 2) (b % 2) + 2 * bit_or y (b / 2)) half
    ∙ ap (λ y. max (a * 2 ^ suc n % 2) (b % 2) + 2 * y)
        (bit_or_below n a (b / 2) (omega (arith, pow-suc 2 n)))
    ∙ whole
  where
    doubled : a * 2 ^ suc n ≡ a * 2 ^ n * 2
    doubled = omega (arith, ap (λ (t : ℕ). a * t) (pow-suc 2 n))

    half : a * 2 ^ suc n / 2 ≡ a * 2 ^ n
    half = rw doubled (omega arith)

    whole : max (a * 2 ^ suc n % 2) (b % 2) + 2 * (a * 2 ^ n + b / 2) ≡ a * 2 ^ suc n + b
    whole = rw doubled (omega arith)

-- The same with the low bits first.
pub bit_or_above : (n a b : ℕ) → b < 2 ^ n → bit_or b (a * 2 ^ n) ≡ b + a * 2 ^ n
bit_or_above zero a zero h = omega (arith, bit_or_step 0 (a * 1), zero-bit_or (a * 1))
bit_or_above zero a (suc b) h = absurd (omega arith)
bit_or_above (suc n) a b h =
    bit_or_step b (a * 2 ^ suc n)
    ∙ ap (λ y. max (b % 2) (a * 2 ^ suc n % 2) + 2 * bit_or (b / 2) y) half
    ∙ ap (λ y. max (b % 2) (a * 2 ^ suc n % 2) + 2 * y)
        (bit_or_above n a (b / 2) (omega (arith, pow-suc 2 n)))
    ∙ whole
  where
    doubled : a * 2 ^ suc n ≡ a * 2 ^ n * 2
    doubled = omega (arith, ap (λ (t : ℕ). a * t) (pow-suc 2 n))

    half : a * 2 ^ suc n / 2 ≡ a * 2 ^ n
    half = rw doubled (omega arith)

    whole : max (b % 2) (a * 2 ^ suc n % 2) + 2 * (b / 2 + a * 2 ^ n) ≡ b + a * 2 ^ suc n
    whole = rw doubled (omega arith)
