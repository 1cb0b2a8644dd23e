-- ===== src/Exec/Products.antt =====
-- The products of RV32M against the arithmetic of natural numbers.
use native.Mathlib.Nat.{mul-add, mul-le-mul, mul_comm}
use riscv_v2f_optimized.Prelude.{
  ℕ, zero, suc, ◌+◌, ◌-◌, ◌*◌, ◌/◌, ◌%◌, ◌^◌, ◌<◌, ◌≤◌, ltb, ◌≡◌, ◌∙◌, refl, sym, ap, arith,
  Bool-cases, inl, inr,
}
use riscv_v2f_optimized.Prelude.Int.{neg_ℕ, ◌*ℤ◌}
use riscv_v2f_optimized.Word.Signed.{to_int, of_int}
use riscv_v2f_optimized.Isa.Opcodes.{mul, mulhu}
use riscv_v2f_optimized.Exec.MulDiv.{mul_result}

-- What the cast of a negated number is.
pub of_int-neg_ℕ : (n : ℕ) → of_int (neg_ℕ n) ≡ (2 ^ 32 - n % 2 ^ 32) % 2 ^ 32
unfolding of_int
of_int-neg_ℕ zero = refl
of_int-neg_ℕ (suc n) = omega arith

-- A factor on the other side of 2 ^ 32.
times_complement : (a b : ℕ) → b < 2 ^ 32 → a * b + a * suc (2 ^ 32 - 1 - b) ≡ a * 2 ^ 32
times_complement a b h = sym (mul-add a b (suc (2 ^ 32 - 1 - b))) ∙ ap (λ t. a * t) (omega arith)

-- The product of the two signed values, cast back, is the product modulo 2 ^ 32.
of_int-mul : (a b : ℕ) → a < 2 ^ 32 → b < 2 ^ 32 → of_int (to_int a *ℤ to_int b) ≡ a * b % 2 ^ 32
unfolding to_int ◌*ℤ◌
of_int-mul a b h k = elim (Bool-cases (ltb a (2 ^ 31))) [
  | inl e ↦ elim (Bool-cases (ltb b (2 ^ 31))) [
    | inl f ↦ rw (e, f) (unfold of_int in refl)
    | inr f ↦
        rw (e, f) (of_int-neg_ℕ (a * suc (2 ^ 32 - 1 - b)) ∙ omega (arith, times_complement a b k))
  ]
  | inr e ↦ elim (Bool-cases (ltb b (2 ^ 31))) [
    | inl f ↦
        rw (e, f)
          (of_int-neg_ℕ (suc (2 ^ 32 - 1 - a) * b)
            ∙ omega
                (arith, times_complement b a h, mul_comm b (suc (2 ^ 32 - 1 - a)), mul_comm b a))
    | inr f ↦
        rw (e, f)
          (unfold of_int in
            omega (
              arith,
              times_complement (suc (2 ^ 32 - 1 - a)) b k,
              times_complement b a h,
              mul_comm b (suc (2 ^ 32 - 1 - a)),
              mul_comm b a,
            ))
  ]
]

-- MUL and MULHU are the two halves of the product of two words.
pub mul_result-mul_mulhu :
    (a b : ℕ) → a < 2 ^ 32 → b < 2 ^ 32 → mul_result mul a b + 2 ^ 32 * mul_result mulhu a b ≡ a * b
unfolding mul_result
mul_result-mul_mulhu a b h k = omega (arith, of_int-mul a b h k, high)
  where
    high : a * b / 2 ^ 32 < 2 ^ 32
    high = omega (arith, bound (omega arith) (omega arith))
      where
        bound : a ≤ 2 ^ 32 - 1 → b ≤ 2 ^ 32 - 1 → a * b ≤ (2 ^ 32 - 1) * (2 ^ 32 - 1)
        bound p q = mul-le-mul p q
