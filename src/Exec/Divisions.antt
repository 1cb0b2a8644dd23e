-- ===== src/Exec/Divisions.antt =====
-- The divisions of RV32M against the division of natural numbers, signs and the two special cases.
use native.Mathlib.Nat.{mod-lt, mod-add-div', div-le_self, mul-le-mul}
use riscv_v2f_optimized.Prelude.{
  ℕ, zero, suc, ◌+◌, ◌-◌, ◌*◌, ◌/◌, ◌%◌, ◌^◌, ◌<◌, ◌≤◌, Bool, true, false, not, ltb, ◌==◌, ◌&&◌,
  ◌≡◌, ◌⊎◌, ◌∙◌, refl, sym, ap, arith, Bool-cases, inl, inr, if◌then◌else◌,
}
use riscv_v2f_optimized.Prelude.Int.{pos, neg_ℕ, quot, rem}
use riscv_v2f_optimized.Word.{nonzero, all_ones}
use riscv_v2f_optimized.Word.Signed.{to_int, of_int}
use riscv_v2f_optimized.Isa.Opcodes.{div, divu, rem as rem_op, remu}
use riscv_v2f_optimized.Exec.Products.{of_int-neg_ℕ}
use riscv_v2f_optimized.Exec.MulDiv.{mul_result, int32_min}

-- The sign and the magnitude of a word as a signed number.
abbrev pub is_negative : ℕ → Bool
is_negative a = not (ltb a (2 ^ 31))

abbrev pub unlike : Bool → Bool → Bool
unlike true t = not t
unlike false t = t

abbrev pub magnitude : ℕ → ℕ
magnitude a = if ltb a (2 ^ 31) then a else 2 ^ 32 - a

-- Quotient and remainder of words: by zero all ones and the dividend; else towards zero.
abbrev pub IsUnsignedDivision : ℕ → ℕ → ℕ → ℕ → Type 0
IsUnsignedDivision a b q r =
    ((b ≡ 0) × (q ≡ 2 ^ 32 - 1) × (r ≡ a)) ⊎ ((0 < b) × (q * b + r ≡ a) × (r < b))

-- The signed overflow.
abbrev pub IsOverflow : ℕ → ℕ → ℕ → ℕ → Type 0
IsOverflow a b q r = (a ≡ 2 ^ 31) × (b ≡ 2 ^ 32 - 1) × (q ≡ 2 ^ 31) × (r ≡ 0)

abbrev pub HasSign : ℕ → Bool → Type 0
HasSign x s = (x ≡ 0) ⊎ (is_negative x ≡ s)

abbrev pub IsTowardsZero : ℕ → ℕ → ℕ → ℕ → Type 0
IsTowardsZero a b q r =
    (0 < b)
    × (magnitude q * magnitude b + magnitude r ≡ magnitude a)
    × (magnitude r < magnitude b)
    × HasSign q (unlike (is_negative a) (is_negative b))
    × HasSign r (is_negative a)

abbrev pub IsSignedDivision : ℕ → ℕ → ℕ → ℕ → Type 0
IsSignedDivision a b q r =
    ((b ≡ 0) × (q ≡ 2 ^ 32 - 1) × (r ≡ a)) ⊎ IsOverflow a b q r ⊎ IsTowardsZero a b q r

unsigned : (a b : ℕ) → IsUnsignedDivision a b (mul_result divu a b) (mul_result remu a b)
unfolding mul_result
unsigned a b = elim (Bool-cases (nonzero b)) [
  | inl e ↦ rw e (inr (ground arith, omega (arith, mod-add-div' a b), mod-lt a (ground arith)))
  | inr e ↦ rw e (inl (ground arith, refl, refl))
]

-- The word of a number with a sign.
abbrev word_of : Bool → ℕ → ℕ
word_of true n = of_int (neg_ℕ n)
word_of false n = of_int (pos n)

word_of-HasSign :
    (s : Bool) (n : ℕ)
    → n ≤ 2 ^ 31
    → (s ≡ false → n < 2 ^ 31)
    → (magnitude (word_of s n) ≡ n) × HasSign (word_of s n) s
word_of-HasSign false n h k = rw same (plain n (k refl))
  where
    same : of_int (pos n) ≡ n
    same = unfold of_int in omega (arith, k refl)

    plain : (n : ℕ) → n < 2 ^ 31 → (magnitude n ≡ n) × HasSign n false
    plain n h = rw below (refl, inr refl)
      where
        below : ltb n (2 ^ 31) ≡ true
        below = ground arith
word_of-HasSign true zero h k = unfold of_int in (refl, inl refl)
word_of-HasSign true (suc n) h k = rw (of_int-neg_ℕ (suc n), other) (omega arith, inr refl)
  where
    other : ltb ((2 ^ 32 - suc n % 2 ^ 32) % 2 ^ 32) (2 ^ 31) ≡ false
    other = ground arith

-- The quotient and the remainder by signs: `negsuc n` has the magnitude `suc n`.
over : (a : ℕ) → a < 2 ^ 32 → ltb a (2 ^ 31) ≡ false → suc (2 ^ 32 - 1 - a) ≡ 2 ^ 32 - a
over a h e = omega arith

quot-word_of :
    (a b : ℕ)
    → a < 2 ^ 32
    → b < 2 ^ 32
    → of_int (quot (to_int a) (to_int b))
      ≡ word_of (unlike (is_negative a) (is_negative b)) (magnitude a / magnitude b)
unfolding to_int quot
quot-word_of a b h k = elim (Bool-cases (ltb a (2 ^ 31))) [
  | inl e ↦ elim (Bool-cases (ltb b (2 ^ 31))) [
    | inl f ↦ rw (e, f) refl
    | inr f ↦ rw (e, f) (ap (λ x. of_int (neg_ℕ (a / x))) (over b k f))
  ]
  | inr e ↦ elim (Bool-cases (ltb b (2 ^ 31))) [
    | inl f ↦ rw (e, f) (ap (λ x. of_int (neg_ℕ (x / b))) (over a h e))
    | inr f ↦
        rw (e, f)
          (ap (λ x. of_int (pos (x / suc (2 ^ 32 - 1 - b)))) (over a h e)
            ∙ ap (λ x. of_int (pos ((2 ^ 32 - a) / x))) (over b k f))
  ]
]

rem-word_of :
    (a b : ℕ)
    → a < 2 ^ 32
    → b < 2 ^ 32
    → of_int (rem (to_int a) (to_int b)) ≡ word_of (is_negative a) (magnitude a % magnitude b)
unfolding to_int rem
rem-word_of a b h k = elim (Bool-cases (ltb a (2 ^ 31))) [
  | inl e ↦ elim (Bool-cases (ltb b (2 ^ 31))) [
    | inl f ↦ rw (e, f) refl
    | inr f ↦ rw (e, f) (ap (λ x. of_int (pos (a % x))) (over b k f))
  ]
  | inr e ↦ elim (Bool-cases (ltb b (2 ^ 31))) [
    | inl f ↦ rw (e, f) (ap (λ x. of_int (neg_ℕ (x % b))) (over a h e))
    | inr f ↦
        rw (e, f)
          (ap (λ x. of_int (neg_ℕ (x % suc (2 ^ 32 - 1 - b)))) (over a h e)
            ∙ ap (λ x. of_int (neg_ℕ ((2 ^ 32 - a) % x))) (over b k f))
  ]
]

magnitude-le : (a : ℕ) → a < 2 ^ 32 → magnitude a ≤ 2 ^ 31
magnitude-le a h = elim (Bool-cases (ltb a (2 ^ 31))) [
  | inl e ↦ rw e (ground arith)
  | inr e ↦ rw e (ground arith)
]

magnitude-pos : (b : ℕ) → b < 2 ^ 32 → 0 < b → 0 < magnitude b
magnitude-pos b h p = elim (Bool-cases (ltb b (2 ^ 31))) [
  | inl e ↦ rw e p
  | inr e ↦ rw e (omega arith)
]

-- A quotient of 2 ^ 31 has no word if it is positive: it comes from the overflow alone.
quot-small :
    (a b : ℕ)
    → a < 2 ^ 32
    → b < 2 ^ 32
    → 0 < b
    → (a == int32_min && b == all_ones) ≡ false
    → unlike (is_negative a) (is_negative b) ≡ false
    → magnitude a / magnitude b < 2 ^ 31
quot-small a b h k p o u = elim (Bool-cases (ltb a (2 ^ 31))) [
  | inl e ↦ rw e (omega (arith, div-le_self a (magnitude b), below e))
  | inr e ↦ elim (Bool-cases (ltb b (2 ^ 31))) [
    | inl f ↦ absurd (unlike_signs e f)
    | inr f ↦ elim (Bool-cases (a == 2 ^ 31)) [
      | inl g ↦ rw (e, f) (omega (arith, half (2 ^ 32 - a) (2 ^ 32 - b) (two g), equal g))
      | inr g ↦ rw (e, f) (omega (arith, div-le_self (2 ^ 32 - a) (2 ^ 32 - b), above e g))
    ]
  ]
]
  where
    below : ltb a (2 ^ 31) ≡ true → a < 2 ^ 31
    below e = ground arith

    equal : (a == 2 ^ 31) ≡ true → a ≡ 2 ^ 31
    equal g = ground arith

    above : ltb a (2 ^ 31) ≡ false → (a == 2 ^ 31) ≡ false → 2 ^ 31 < a
    above e g = ground arith

    two : (a == 2 ^ 31) ≡ true → 2 ≤ 2 ^ 32 - b
    two g = ground arith

    half : (n d : ℕ) → 2 ≤ d → n / d * 2 ≤ n
    half n d t =
        let same : n / d ≤ n / d = omega arith in
        let more : n / d * 2 ≤ n / d * d = mul-le-mul same t in
        omega (arith, mod-add-div' n d, more)

    unlike_signs : ltb a (2 ^ 31) ≡ false → ltb b (2 ^ 31) ≡ true → ⊥
    unlike_signs e f = true-not_false (sym (rw (e, f) refl) ∙ u)
      where
        true-not_false : true ≡ false → ⊥
        true-not_false h = cc

signed-towards :
    (a b : ℕ)
    → a < 2 ^ 32
    → b < 2 ^ 32
    → 0 < b
    → (a == int32_min && b == all_ones) ≡ false
    → IsTowardsZero a b (of_int (quot (to_int a) (to_int b))) (of_int (rem (to_int a) (to_int b)))
signed-towards a b h k p o =
    let n = magnitude a in
    let d = magnitude b in
    let below = mod-lt n (magnitude-pos b k p) in
    let (mq, sq) =
      word_of-HasSign (unlike (is_negative a) (is_negative b)) (n / d)
        (omega (arith, div-le_self n d, magnitude-le a h)) (quot-small a b h k p o) in
    let (mr, sr) =
      word_of-HasSign (is_negative a) (n % d) (omega (arith, magnitude-le b k))
        (λ _. omega (arith, magnitude-le b k)) in
    rw (quot-word_of a b h k, rem-word_of a b h k)
      (p, rw (mq, mr) (omega (arith, mod-add-div' n d)), rw mr below, sq, sr)

-- Of any two words, DIVU and REMU are quotient and remainder, and DIV and REM those towards zero: of the
-- magnitudes, the quotient negative where the signs differ and the remainder with the sign of the
-- dividend. By zero the quotients are all ones and the remainders the dividend; -2 ^ 31 by -1 gives -2 ^ 31
-- and 0.
pub mul_result-divisions :
    (a b : ℕ)
    → a < 2 ^ 32
    → b < 2 ^ 32
    → IsUnsignedDivision a b (mul_result divu a b) (mul_result remu a b)
      × IsSignedDivision a b (mul_result div a b) (mul_result rem_op a b)
mul_result-divisions a b h k = (unsigned a b, signed)
  where
    signed : IsSignedDivision a b (mul_result div a b) (mul_result rem_op a b)
    signed =
        unfold mul_result in
        (elim (Bool-cases (a == int32_min && b == all_ones)) [
          | inl o ↦ rw o (inr (inl (ground arith, ground arith, ground arith, refl)))
          | inr o ↦ elim (Bool-cases (nonzero b)) [
            | inl e ↦ rw (o, e) (inr (inr (signed-towards a b h k (ground arith) o)))
            | inr e ↦ rw (o, e) (inl (ground arith, refl, refl))
          ]
        ])
