-- ===== src/Word/Bits.antt =====
-- `&`, `|` and `^` one bit at a time: the equations of the lowest digit, and from them the value
-- of each bit, the bounds and the masks.
use Prim.Native.Nat.{digits, bitwise, bit_and-bitwise, bit_or-bitwise, bit_xor-bitwise, differ}
use native.Mathlib.Nat.{
  pow-suc, one-le-pow, add-mul-mod_self_right, div-add-mod', mod-eq_of_lt, mod-lt,
}
use riscv_v2f_optimized.Prelude.{
  ℕ, zero, suc, ◌+◌, ◌-◌, ◌*◌, ◌/◌, ◌%◌, ◌^◌, ◌≤◌, ◌<◌, min, max, bit_and, bit_or, bit_xor, ◌≡◌,
  Bool, true, ◌&&◌, refl, ap, ◌∙◌, arith,
}

-- The native operations recurse on binary digits, with the first number as fuel. Fuel beyond the
-- number changes nothing, so the lowest digit can be split off.
module _ (unit : ℕ → ℕ) (op : ℕ → ℕ → ℕ) where
  one_more : (n x y : ℕ) → x ≤ n → digits unit op (suc n) x y ≡ digits unit op n x y
  one_more zero zero y h = refl
  one_more (suc n) zero y h = refl
  one_more zero (suc x) y h = absurd (omega arith)
  one_more (suc n) (suc x) y h = rw (one_more n (suc x / 2) (y / 2) (omega arith))

  many_more :
      (extra n m x y : ℕ) → m ≡ n + extra → x ≤ n → digits unit op m x y ≡ digits unit op n x y
  many_more zero n m x y e h = ap (λ t. digits unit op t x y) (omega arith)
  many_more (suc extra) n zero x y e h = absurd (omega arith)
  many_more (suc extra) n (suc m) x y e h =
      one_more m x y (omega arith) ∙ many_more extra n m x y (omega arith) h

  split_lowest :
      (x y half : ℕ)
      → half ≡ suc x / 2
      → bitwise unit op (suc x) y ≡ op (suc x % 2) (y % 2) + 2 * bitwise unit op half (y / 2)
  split_lowest x y half e = rw e (
      omega (
        arith,
        many_more (x - suc x / 2) (suc x / 2) x (suc x / 2) (y / 2) (omega arith) (omega arith),
      ))

pub bit_and_step : (x y : ℕ) → bit_and x y ≡ min (x % 2) (y % 2) + 2 * bit_and (x / 2) (y / 2)
bit_and_step zero y = simp bit_and-bitwise (omega arith)
bit_and_step (suc x) y =
    simp bit_and-bitwise (omega (arith, split_lowest (λ u. 0) min x y (suc x / 2) refl))

pub bit_or_step : (x y : ℕ) → bit_or x y ≡ max (x % 2) (y % 2) + 2 * bit_or (x / 2) (y / 2)
bit_or_step zero y = simp bit_or-bitwise (omega arith)
bit_or_step (suc x) y =
    simp bit_or-bitwise (omega (arith, split_lowest (λ u. u) max x y (suc x / 2) refl))

differ_sum : (x y : ℕ) → x < 2 → y < 2 → differ x y ≡ (x + y) % 2
differ_sum zero y p q = omega arith
differ_sum (suc zero) zero p q = refl
differ_sum (suc zero) (suc zero) p q = refl
differ_sum (suc zero) (suc (suc y)) p q = absurd (omega arith)
differ_sum (suc (suc x)) y p q = absurd (omega arith)

pub bit_xor_step : (a b : ℕ) → bit_xor a b ≡ bit_xor (a / 2) (b / 2) * 2 + (a % 2 + b % 2) % 2
bit_xor_step zero b = simp bit_xor-bitwise (omega arith)
bit_xor_step (suc a) b = simp bit_xor-bitwise (
    omega (
      arith,
      split_lowest (λ u. u) differ a b (suc a / 2) refl,
      differ_sum (suc a % 2) (b % 2) (omega arith) (omega arith),
    ))

bit_and-zero_below : (bound x : ℕ) → x < bound → bit_and x 0 ≡ 0
bit_and-zero_below zero x h = absurd (omega arith)
bit_and-zero_below (suc bound) zero h = refl
bit_and-zero_below (suc bound) (suc x) h =
    omega (arith, bit_and-zero_below bound (suc x / 2) (omega arith), bit_and_step (suc x) 0)

pub bit_and-zero : (a : ℕ) → bit_and a 0 ≡ 0
bit_and-zero a = bit_and-zero_below (suc a) a (omega arith)

pub zero-bit_and : (b : ℕ) → bit_and 0 b ≡ 0
zero-bit_and b = bit_and-bitwise 0 b

pub zero-bit_or : (b : ℕ) → bit_or 0 b ≡ b
zero-bit_or b = bit_or-bitwise 0 b

pub zero-bit_xor : (b : ℕ) → bit_xor 0 b ≡ b
zero-bit_xor b = bit_xor-bitwise 0 b

-- Bit `k` of a number, 0 or 1.
unfoldable pub bit : ℕ → ℕ → ℕ
bit a zero = a % 2
bit a (suc k) = bit (a / 2) k

pub bit-lt : (a k : ℕ) → bit a k < 2
unfolding bit
bit-lt a zero = omega arith
bit-lt a (suc k) = bit-lt (a / 2) k

pub bit-bit_and : (a b k : ℕ) → bit (bit_and a b) k ≡ min (bit a k) (bit b k)
unfolding bit
bit-bit_and a b zero = omega (arith, bit_and_step a b)
bit-bit_and a b (suc k) =
    ap (λ t. bit t k) (omega (arith, bit_and_step a b)) ∙ bit-bit_and (a / 2) (b / 2) k

pub bit-bit_or : (a b k : ℕ) → bit (bit_or a b) k ≡ max (bit a k) (bit b k)
unfolding bit
bit-bit_or a b zero = omega (arith, bit_or_step a b)
bit-bit_or a b (suc k) =
    ap (λ t. bit t k) (omega (arith, bit_or_step a b)) ∙ bit-bit_or (a / 2) (b / 2) k

pub bit-bit_xor : (a b k : ℕ) → bit (bit_xor a b) k ≡ (bit a k + bit b k) % 2
unfolding bit
bit-bit_xor a b zero = omega (arith, bit_xor_step a b)
bit-bit_xor a b (suc k) =
    ap (λ t. bit t k) (omega (arith, bit_xor_step a b)) ∙ bit-bit_xor (a / 2) (b / 2) k

-- Two numbers below 2 ^ n with the same n bits are one.
pub bit_ext : (n a b : ℕ) → a < 2 ^ n → b < 2 ^ n → ((k : ℕ) → k < n → bit a k ≡ bit b k) → a ≡ b
unfolding bit
bit_ext zero a b p q h = omega arith
bit_ext (suc n) a b p q h =
    let e =
      bit_ext n (a / 2) (b / 2) (omega (arith, pow-suc 2 n)) (omega (arith, pow-suc 2 n))
        (λ k lt. h (suc k) (omega arith)) in
    omega (arith, e, h 0 (omega arith))

pub bit_and-lt : (n a b : ℕ) → a < 2 ^ n → bit_and a b < 2 ^ n
bit_and-lt zero zero b p = rw zero-bit_and p
bit_and-lt zero (suc a) b p = absurd (omega arith)
bit_and-lt (suc n) a b p = omega (
  arith,
  bit_and_step a b,
  pow-suc 2 n,
  bit_and-lt n (a / 2) (b / 2) (omega (arith, pow-suc 2 n)),
)

pub bit_and-lt_right : (n a b : ℕ) → b < 2 ^ n → bit_and a b < 2 ^ n
bit_and-lt_right zero a zero p = rw bit_and-zero p
bit_and-lt_right zero a (suc b) p = absurd (omega arith)
bit_and-lt_right (suc n) a b p = omega (
  arith,
  bit_and_step a b,
  pow-suc 2 n,
  bit_and-lt_right n (a / 2) (b / 2) (omega (arith, pow-suc 2 n)),
)

pub bit_or-lt : (n a b : ℕ) → a < 2 ^ n → b < 2 ^ n → bit_or a b < 2 ^ n
bit_or-lt zero zero b p q = rw zero-bit_or q
bit_or-lt zero (suc a) b p q = absurd (omega arith)
bit_or-lt (suc n) a b p q = omega (
  arith,
  bit_or_step a b,
  pow-suc 2 n,
  bit_or-lt n (a / 2) (b / 2) (omega (arith, pow-suc 2 n)) (omega (arith, pow-suc 2 n)),
)

pub bit_xor-lt : (n a b : ℕ) → a < 2 ^ n → b < 2 ^ n → bit_xor a b < 2 ^ n
bit_xor-lt zero zero b p q = rw zero-bit_xor q
bit_xor-lt zero (suc a) b p q = absurd (omega arith)
bit_xor-lt (suc n) a b p q = omega (
  arith,
  bit_xor_step a b,
  pow-suc 2 n,
  bit_xor-lt n (a / 2) (b / 2) (omega (arith, pow-suc 2 n)) (omega (arith, pow-suc 2 n)),
)

-- A single-bit mask.
pub bit_and_pow : (k a : ℕ) → bit_and a (2 ^ k) ≡ bit a k * 2 ^ k
unfolding bit
bit_and_pow zero a = omega (arith, bit_and_step a 1, bit_and-zero (a / 2))
bit_and_pow (suc k) a = omega (
  arith,
  bit_and_step a (2 ^ suc k),
  pow-suc 2 k,
  bit_and_pow k (a / 2),
  ap (λ t. bit_and (a / 2) t) half,
  ap (λ (t : ℕ). bit (a / 2) k * t) (pow-suc 2 k),
)
  where
    half : 2 ^ suc k / 2 ≡ 2 ^ k
    half = omega (arith, pow-suc 2 k)

low_half : (k a : ℕ) → a % 2 ^ suc k ≡ a / 2 % 2 ^ k * 2 + a % 2
low_half k a =
    ap (λ t. t % 2 ^ suc k) parts
    ∙ add-mul-mod_self_right rest (a / 2 / 2 ^ k) (2 ^ suc k)
    ∙ mod-eq_of_lt fits
  where
    rest : ℕ
    rest = a / 2 % 2 ^ k * 2 + a % 2

    parts : a ≡ rest + a / 2 / 2 ^ k * 2 ^ suc k
    parts =
        omega (arith, div-add-mod' (a / 2) (2 ^ k), ap (λ (t : ℕ). a / 2 / 2 ^ k * t) (pow-suc 2 k))

    fits : rest < 2 ^ suc k
    fits = omega (arith, pow-suc 2 k, mod-lt (a / 2) (one-le-pow k 2 (omega arith)))

-- A mask of `k` low bits is the remainder by `2 ^ k`.
pub bit_and_mask : (k a : ℕ) → bit_and a (2 ^ k - 1) ≡ a % 2 ^ k
bit_and_mask zero a = omega (arith, bit_and-zero a)
bit_and_mask (suc k) a = omega (
  arith,
  bit_and_step a (2 ^ suc k - 1),
  pow-suc 2 k,
  one-le-pow k 2,
  bit_and_mask k (a / 2),
  ap (λ t. bit_and (a / 2) t) half,
  low_half k a,
)
  where
    half : (2 ^ suc k - 1) / 2 ≡ 2 ^ k - 1
    half = omega (arith, pow-suc 2 k, one-le-pow k 2)

pub bit-zero : (k : ℕ) → bit 0 k ≡ 0
unfolding bit
bit-zero zero = refl
bit-zero (suc k) = bit-zero k

pub pow_pos : (k : ℕ) → 0 < 2 ^ k
pow_pos k = one-le-pow k 2 (omega arith)

-- A table over the bits of a word, checked by evaluation.
unfoldable pub all_bits : ℕ → (ℕ → Bool) → Bool
all_bits zero p = true
all_bits (suc n) p = p n && all_bits n p

pub all_bits_sound : (n : ℕ) (p : ℕ → Bool) (k : ℕ) → all_bits n p ≡ true → k < n → p k ≡ true
unfolding all_bits
all_bits_sound zero p k h lt = absurd (omega arith)
all_bits_sound (suc n) p k h lt = ground (arith, all_bits_sound n p k)
