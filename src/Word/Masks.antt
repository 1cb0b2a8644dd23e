-- ===== src/Word/Masks.antt =====
-- Masks of several bits: a field, its complement, and the merge of one word into the field of
-- another.
use native.Mathlib.Nat.{pow-suc, pow-succ', div-div-eq-div-mul}
use riscv_v2f_optimized.Prelude.{
  ℕ, zero, suc, ◌+◌, ◌-◌, ◌*◌, ◌/◌, ◌%◌, ◌^◌, ◌<◌, bit_and, bit_or, ◌≡◌, ap, ◌∙◌, arith,
}
use riscv_v2f_optimized.Word.Bits.{
  bit_and_step, bit_or_step, zero-bit_and, zero-bit_or, bit_and_mask, bit_and-lt,
}

-- The field of `n` bits above the `l` lowest.
pub bit_and_field : (l n a : ℕ) → bit_and a ((2 ^ n - 1) * 2 ^ l) ≡ a / 2 ^ l % 2 ^ n * 2 ^ l
bit_and_field zero n a =
    ap (λ t. bit_and a t) (omega arith)
    ∙ bit_and_mask n a
    ∙ omega (arith, ap (λ t. t % 2 ^ n) whole)
  where
    whole : a / 1 ≡ a
    whole = omega arith
bit_and_field (suc l) n a = omega (
  arith,
  bit_and_step a ((2 ^ n - 1) * 2 ^ suc l),
  doubled,
  ap (λ t. bit_and (a / 2) t) half,
  bit_and_field l n (a / 2),
  ap (λ t. t % 2 ^ n * 2 ^ l) (div-div-eq-div-mul a 2 (2 ^ l)),
  ap (λ t. a / t % 2 ^ n * 2 ^ l) (pow-succ' 2 l),
  ap (λ (t : ℕ). a / 2 ^ suc l % 2 ^ n * t) (pow-suc 2 l),
)
  where
    doubled : (2 ^ n - 1) * 2 ^ suc l ≡ (2 ^ n - 1) * 2 ^ l * 2
    doubled = omega (arith, ap (λ (t : ℕ). (2 ^ n - 1) * t) (pow-suc 2 l))

    half : (2 ^ n - 1) * 2 ^ suc l / 2 ≡ (2 ^ n - 1) * 2 ^ l
    half = omega (arith, doubled)

-- What a mask and its complement keep adds up to the word.
pub bit_and_complement :
    (n a m : ℕ) → a < 2 ^ n → m < 2 ^ n → bit_and a m + bit_and a (2 ^ n - 1 - m) ≡ a
bit_and_complement zero zero m p q = omega (arith, zero-bit_and m, zero-bit_and (1 - 1 - m))
bit_and_complement zero (suc a) m p q = absurd (omega arith)
bit_and_complement (suc n) a m p q = omega (
  arith,
  bit_and_step a m,
  bit_and_step a (2 ^ suc n - 1 - m),
  pow-suc 2 n,
  bit_and_complement n (a / 2) (m / 2) (omega (arith, pow-suc 2 n)) (omega (arith, pow-suc 2 n)),
  ap (λ t. bit_and (a / 2) t) half,
)
  where
    half : (2 ^ suc n - 1 - m) / 2 ≡ 2 ^ n - 1 - m / 2
    half = omega (arith, pow-suc 2 n)

pub bit_or_sum : (n a b : ℕ) → a < 2 ^ n → bit_or a b + bit_and a b ≡ a + b
bit_or_sum zero zero b p = omega (arith, zero-bit_or b, zero-bit_and b)
bit_or_sum zero (suc a) b p = absurd (omega arith)
bit_or_sum (suc n) a b p = omega (
  arith,
  bit_or_step a b,
  bit_and_step a b,
  bit_or_sum n (a / 2) (b / 2) (omega (arith, pow-suc 2 n)),
)

pub bit_and_disjoint :
    (n a b m : ℕ) → a < 2 ^ n → m < 2 ^ n → bit_and (bit_and a (2 ^ n - 1 - m)) (bit_and b m) ≡ 0
bit_and_disjoint zero zero b m p q = rw (zero-bit_and, zero-bit_and)
bit_and_disjoint zero (suc a) b m p q = absurd (omega arith)
bit_and_disjoint (suc n) a b m p q = omega (
  arith,
  bit_and_step x y,
  bit_and_step a (2 ^ suc n - 1 - m),
  bit_and_step b m,
  pow-suc 2 n,
  bit_and_disjoint n (a / 2) (b / 2) (m / 2) (omega (arith, pow-suc 2 n))
      (omega (arith, pow-suc 2 n)),
  ap (λ t. bit_and t (y / 2)) half_x,
  ap (λ t. bit_and (bit_and (a / 2) (2 ^ n - 1 - m / 2)) t) half_y,
)
  where
    x : ℕ
    x = bit_and a (2 ^ suc n - 1 - m)

    y : ℕ
    y = bit_and b m

    half : (2 ^ suc n - 1 - m) / 2 ≡ 2 ^ n - 1 - m / 2
    half = omega (arith, pow-suc 2 n)

    half_x : x / 2 ≡ bit_and (a / 2) (2 ^ n - 1 - m / 2)
    half_x = omega (arith, bit_and_step a (2 ^ suc n - 1 - m), ap (λ t. bit_and (a / 2) t) half)

    half_y : y / 2 ≡ bit_and (b / 2) (m / 2)
    half_y = omega (arith, bit_and_step b m)

-- `(a & ~m) | (b & m)`: the bits of `b` in the place of those of `a` under the mask.
pub merge_lem :
    (n a b m : ℕ)
    → a < 2 ^ n
    → m < 2 ^ n
    → bit_or (bit_and a (2 ^ n - 1 - m)) (bit_and b m) + bit_and a m ≡ a + bit_and b m
merge_lem n a b m p q = omega (
  arith,
  bit_or_sum n (bit_and a (2 ^ n - 1 - m)) (bit_and b m) (bit_and-lt n a (2 ^ n - 1 - m) p),
  bit_and_disjoint n a b m p q,
  bit_and_complement n a m p q,
)
