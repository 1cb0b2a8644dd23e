-- ===== src/CsrAccess/Bits.antt =====
-- What a CSR instruction does to each bit of the register's variable.
use native.Mathlib.Nat.{pow-suc, one-le-pow}
use riscv_v2f_optimized.Prelude.{
  ℕ, suc, zero, ◌-◌, ◌/◌, ◌^◌, ◌<◌, Bool, true, false, ◌&&◌, ◌==◌, ◌≡◌, ap, ◌∙◌, arith,
  if◌then◌else◌, refl, bit_and,
}
use riscv_v2f_optimized.Prelude.Outcome.{done}
use riscv_v2f_optimized.Word.{not32}
use riscv_v2f_optimized.Word.Bits.{bit, bit-lt, bit-bit_and, bit-bit_or, bit_and-lt_right}
use riscv_v2f_optimized.Machine.{Riscv}
use riscv_v2f_optimized.Registers.{get_field, set_field}
use riscv_v2f_optimized.CsrAccess.{csr_std, access_csr, access_case, csr_case}
use riscv_v2f_optimized.Isa.Csr.{csr_sstatus, csr_sstatus_mask}

-- A bit of a complement.
bit-complement : (n m k : ℕ) → m < 2 ^ n → k < n → bit (2 ^ n - 1 - m) k ≡ 1 - bit m k
unfolding bit
bit-complement zero m k hm hk = absurd (omega arith)
bit-complement (suc n) m zero hm hk = omega (arith, pow-suc 2 n, one-le-pow n 2)
bit-complement (suc n) m (suc k) hm hk =
    ap (λ t. bit t k) (omega (arith, pow-suc 2 n, one-le-pow n 2))
    ∙ bit-complement n (m / 2) k (omega (arith, pow-suc 2 n)) (omega arith)

bit-not32 : (m k : ℕ) → m < 2 ^ 32 → k < 32 → bit (not32 m) k ≡ 1 - bit m k
unfolding not32
bit-not32 m k hm hk = bit-complement 32 m k hm hk

-- Bit `k` of the variable after CSR_STD: a bit inside the mask is written, set or cleared; a bit
-- outside the mask is kept by set and by clear, but a write (set and clear) zeroes it.
pub csr_std-bit :
    (var mask operand k : ℕ) (set clr : Bool)
    → mask < 2 ^ 32
    → k < 32
    → bit (csr_std var mask operand set clr) k ≡ (
        if bit mask k == 1
        then (if set && clr
            then bit operand k
            else if set && bit operand k == 1
            then 1
            else if clr && bit operand k == 1
            then 0
            else bit var k)
        else if set && clr
        then 0
        else bit var k)
unfolding csr_std
csr_std-bit var mask operand k true true hm hk =
    ground (arith, bit-bit_and operand mask k, bit-lt operand k, bit-lt mask k)
csr_std-bit var mask operand k true false hm hk = ground (
  arith,
  bit-bit_or var (bit_and operand mask) k,
  bit-bit_and operand mask k,
  bit-lt operand k,
  bit-lt mask k,
  bit-lt var k,
)
csr_std-bit var mask operand k false true hm hk = ground (
  arith,
  bit-bit_and var (not32 (bit_and operand mask)) k,
  bit-not32 (bit_and operand mask) k (bit_and-lt_right 32 operand mask hm) hk,
  bit-bit_and operand mask k,
  bit-lt operand k,
  bit-lt mask k,
  bit-lt var k,
)
csr_std-bit var mask operand k false false hm hk = ground arith

-- csrrw on sstatus, from any mode: every bit of the status word that sstatus does not show, MIE,
-- MPIE and MPP among them, becomes zero.
pub access_csr-sstatus_write :
    (cpu : Riscv) (operand k : ℕ)
    → k < 32
    → bit csr_sstatus_mask k ≡ 0
    → (cpu' : Riscv) × (v : ℕ) × (access_csr cpu csr_sstatus operand true true ≡ done (cpu', v))
      × (bit cpu'.csr.msr k ≡ 0)
unfolding access_csr access_case get_field set_field csr_case
access_csr-sstatus_write cpu operand k hk h = (
  _,
  _,
  refl,
  csr_std-bit cpu.csr.msr csr_sstatus_mask operand k true true (omega arith) hk ∙ ground (arith, h),
)
