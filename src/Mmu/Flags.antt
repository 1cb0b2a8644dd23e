-- ===== src/Mmu/Flags.antt =====
-- The flags of a page table entry that the two translations test, from its four bits R, W, X and U.
use riscv_v2f_optimized.Prelude.{
  ℕ, ◌+◌, ◌*◌, ◌/◌, ◌%◌, ◌<◌, Bool, true, false, not, ◌&&◌, ◌||◌, ◌==◌, if◌then◌else◌, ◌≡◌, arith,
  bit_and,
}
use riscv_v2f_optimized.Prelude.Outcome.{Outcome, done}
use riscv_v2f_optimized.Word.{nonzero}
use riscv_v2f_optimized.Word.Bits.{bit_and_step, bit_and-zero}
use riscv_v2f_optimized.Word.Masks.{bit_and_field}
use riscv_v2f_optimized.Machine.{Riscv}
use riscv_v2f_optimized.Regions.{error}
use riscv_v2f_optimized.Isa.Trap.{sr_sum}
use riscv_v2f_optimized.Mmu.{is_reserved, i_page_fault, d_page_fault, all_of}
use riscv_v2f_optimized.Mmu.Sv32.{
  Verdict, granted, refused, fatal, fetch_verdict, data_verdict, verdict_of, has,
}
use riscv_v2f_optimized.Mmu.Walk.{walked}

-- The masked values.
abbrev HasBits : ℕ → ℕ → ℕ → ℕ → ℕ → Type 0
HasBits pte r w x u =
    (bit_and pte 14 ≡ r * 2 + w * 4 + x * 8)
    × (bit_and pte 16 ≡ u * 16)
    × (bit_and pte 8 ≡ x * 8)
    × (bit_and pte 4 ≡ w * 4)
    × (bit_and pte 2 ≡ r * 2)
    × (bit_and pte 24 ≡ x * 8 + u * 16)
    × (bit_and pte 20 ≡ w * 4 + u * 16)
    × (bit_and pte 18 ≡ r * 2 + u * 16)

-- The bits of a walked entry are those of the entry.
walked-HasBits :
    (e ppn : ℕ) → HasBits (walked e ppn) (e / 2 % 2) (e / 4 % 2) (e / 8 % 2) (e / 16 % 2)
walked-HasBits e ppn = (
  omega (arith, bit_and_field 1 3 v),
  omega (arith, bit_and_field 4 1 v),
  omega (arith, bit_and_field 3 1 v),
  omega (arith, bit_and_field 2 1 v),
  omega (arith, bit_and_field 1 1 v),
  omega (arith, bit_and_field 3 2 v),
  omega (
    arith,
    bit_and_step v 20,
    bit_and_step (v / 2) 10,
    bit_and_step (v / 2 / 2) 5,
    bit_and_step (v / 2 / 2 / 2) 2,
    bit_and_step (v / 2 / 2 / 2 / 2) 1,
    bit_and-zero (v / 2 / 2 / 2 / 2 / 2),
  ),
  omega (
    arith,
    bit_and_step v 18,
    bit_and_step (v / 2) 9,
    bit_and_step (v / 2 / 2) 4,
    bit_and_step (v / 2 / 2 / 2) 2,
    bit_and_step (v / 2 / 2 / 2 / 2) 1,
    bit_and-zero (v / 2 / 2 / 2 / 2 / 2),
  ),
)
  where
    v : ℕ
    v = walked e ppn

-- The same as tests.
abbrev HasFlags : ℕ → Bool → Bool → Bool → Bool → Type 0
HasFlags pte r w x u =
    (is_reserved pte ≡ (w && not r))
    × (nonzero (bit_and pte 16) ≡ u)
    × (all_of pte 8 ≡ x)
    × (all_of pte 4 ≡ w)
    × (all_of pte 2 ≡ r)
    × (all_of pte 24 ≡ (x && u))
    × (all_of pte 20 ≡ (w && u))
    × (all_of pte 18 ≡ (r && u))

HasBits-HasFlags :
    (pte r w x u : ℕ)
    → r < 2
    → w < 2
    → x < 2
    → u < 2
    → HasBits pte r w x u
    → HasFlags pte (r == 1) (w == 1) (x == 1) (u == 1)
unfolding is_reserved
HasBits-HasFlags pte r w x u hr hw hx hu (b14, b16, b8, b4, b2, b24, b20, b18) = (
  ground arith,
  ground arith,
  ground arith,
  ground arith,
  ground arith,
  ground arith,
  ground arith,
  ground arith,
)

walked-HasFlags : (e ppn : ℕ) → HasFlags (walked e ppn) (has e 1) (has e 2) (has e 3) (has e 4)
walked-HasFlags e ppn =
    HasBits-HasFlags (walked e ppn) (e / 2 % 2) (e / 4 % 2) (e / 8 % 2) (e / 16 % 2) (omega arith)
      (omega arith) (omega arith) (omega arith) (walked-HasBits e ppn)

unfoldable pub outcome_of : Verdict → Outcome Bool
outcome_of granted = done false
outcome_of refused = done true
outcome_of fatal = error

-- The two tests over the flags decide as the entry says.
data_table :
    (super sum is_write r w u : Bool)
    → (if w && not r
        then done true
        else if super
        then (if u && not sum then error else done ((is_write && not w) || (not is_write && not r)))
        else done ((is_write && not (w && u)) || (not is_write && not (r && u))))
      ≡ outcome_of (
          if w && not r
          then refused
          else if super && u && not sum
          then fatal
          else verdict_of ((super || u) && (if is_write then w else r)))
unfolding outcome_of
data_table super sum is_write r w u = ground arith

fetch_table :
    (super r w x u : Bool)
    → (if w && not r
        then done true
        else if super
        then (if u then error else done (not x))
        else done (not (x && u)))
      ≡ outcome_of (
          if w && not r
          then refused
          else if super && u
          then fatal
          else verdict_of ((super || u) && x))
unfolding outcome_of
fetch_table super r w x u = ground arith

pub d_page_fault-walked :
    (cpu : Riscv) (e ppn : ℕ) (is_write : Bool)
    → d_page_fault cpu (walked e ppn) is_write
      ≡ outcome_of
          (data_verdict (cpu.csr.mpriv == 1) (nonzero (bit_and cpu.csr.msr sr_sum)) is_write e)
unfolding d_page_fault outcome_of
d_page_fault-walked cpu e ppn is_write =
    let (reserved, user, x, w, r, xu, wu, ru) = walked-HasFlags e ppn in
    rw (d_page_fault, reserved, user, w, r, wu, ru)
      (data_table (cpu.csr.mpriv == 1) (nonzero (bit_and cpu.csr.msr sr_sum)) is_write (has e 1)
        (has e 2) (has e 4))

pub i_page_fault-walked :
    (cpu : Riscv) (e ppn : ℕ)
    → i_page_fault cpu (walked e ppn) ≡ outcome_of (fetch_verdict (cpu.csr.mpriv == 1) e)
unfolding i_page_fault outcome_of
i_page_fault-walked cpu e ppn =
    let (reserved, user, x, w, r, xu, wu, ru) = walked-HasFlags e ppn in
    rw (i_page_fault, reserved, user, x, xu)
      (fetch_table (cpu.csr.mpriv == 1) (has e 1) (has e 2) (has e 3) (has e 4))
