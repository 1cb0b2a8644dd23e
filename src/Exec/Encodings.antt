-- ===== src/Exec/Encodings.antt =====
-- What execute extracts from an instruction word, against the formats of the instruction set: the
-- fields by position and the immediates as signed numbers.
use native.Mathlib.Nat.{mod-eq_of_lt, mul-div_cancel}
use riscv_v2f_optimized.Prelude.{
  ℕ, ◌+◌, ◌-◌, ◌*◌, ◌/◌, ◌%◌, ◌^◌, ◌<◌, true, false, ltb, ◌≡◌, ◌∙◌, refl, ap, arith, Bool-cases,
  inl, inr, bit_and, bit_or, get_or,
}
use riscv_v2f_optimized.Word.{shl32, shr32, asr32, is_neg, neg32}
use riscv_v2f_optimized.Word.Bits.{bit_and_mask, pow_pos}
use riscv_v2f_optimized.Word.Masks.{bit_and_field}
use riscv_v2f_optimized.Word.Joins.{bit_or_above}
use riscv_v2f_optimized.Machine.{Riscv}
use riscv_v2f_optimized.Isa.Fields.{
  opcode_imm_sign, opcode_stype_imm, opcode_sbtype_imm, opcode_ujtype_imm,
}
use riscv_v2f_optimized.Exec.Context.{Operands, operands}

-- Bits `lo` to `lo + n - 1` of a word.
abbrev pub field : ℕ → ℕ → ℕ → ℕ
field w lo n = w / 2 ^ lo % 2 ^ n

-- What a set sign bit, bit 31, adds to an immediate of `n` bits: all the bits above them.
abbrev pub signed_above : ℕ → ℕ → ℕ
signed_above w n = field w 31 1 * (2 ^ 32 - 2 ^ n)

-- The operands of the formats R, I, S, B, U and J.
pub record AreEncoded (cpu : Riscv) (w : ℕ) (o : Operands) : Type 0 where
  pub rd : o.rd ≡ field w 7 5
  pub rs1 : o.rs1 ≡ field w 15 5
  pub rs2 : o.rs2 ≡ field w 20 5
  pub shamt : o.shamt ≡ field w 20 6
  pub imm12 : o.imm12 ≡ field w 20 12 + signed_above w 12
  pub storeimm : o.storeimm ≡ field w 7 5 + field w 25 7 * 2 ^ 5 + signed_above w 12
  pub bimm :
      o.bimm ≡ field w 8 4 * 2 + field w 25 6 * 2 ^ 5 + field w 7 1 * 2 ^ 11 + signed_above w 12
  pub imm20 : o.imm20 ≡ field w 12 20 * 2 ^ 12
  pub jimm20 :
      o.jimm20
      ≡ field w 21 10 * 2 + field w 20 1 * 2 ^ 11 + field w 12 8 * 2 ^ 12 + signed_above w 20
  pub reg_rs1 : o.reg_rs1 ≡ get_or cpu.gpr (field w 15 5) 0
  pub reg_rs2 : o.reg_rs2 ≡ get_or cpu.gpr (field w 20 5) 0
  pub pc : o.pc ≡ cpu.pc

sign-12 : (w : ℕ) → shl32 (opcode_imm_sign w) 12 ≡ field w 31 1 * (2 ^ 20 - 1) * 2 ^ 12
unfolding shl32 opcode_imm_sign neg32 shr32
sign-12 w = omega (arith, bit_and_mask 1 (w / 2 ^ 31))

sign-20 : (w : ℕ) → shl32 (opcode_imm_sign w) 20 ≡ field w 31 1 * (2 ^ 12 - 1) * 2 ^ 20
unfolding shl32 opcode_imm_sign neg32 shr32
sign-20 w = omega (arith, bit_and_mask 1 (w / 2 ^ 31))

-- A field by a mask and a shift.
masked : (w lo n : ℕ) → bit_and (shr32 w lo) (2 ^ n - 1) ≡ field w lo n
unfolding shr32
masked w lo n = bit_and_mask n (w / 2 ^ lo)

shl32-fits : (a k : ℕ) → a * 2 ^ k < 2 ^ 32 → shl32 a k ≡ a * 2 ^ k
unfolding shl32
shl32-fits a k h = mod-eq_of_lt h

store-join :
    (x y s : ℕ)
    → x < 2 ^ 5
    → y < 2 ^ 7
    → bit_or (bit_or x (y * 2 ^ 5)) (s * 2 ^ 12) ≡ x + y * 2 ^ 5 + s * 2 ^ 12
store-join x y s h k =
    ap (λ t. bit_or t (s * 2 ^ 12)) (bit_or_above 5 y x h)
    ∙ bit_or_above 12 s (x + y * 2 ^ 5) (omega arith)

storeimm-encoded :
    (w : ℕ) → opcode_stype_imm w ≡ field w 7 5 + field w 25 7 * 2 ^ 5 + signed_above w 12
unfolding opcode_stype_imm
storeimm-encoded w =
    rw (masked w 7 5, masked w 25 7, shl32-fits (field w 25 7) 5 (omega arith), sign-12 w)
      (store-join (field w 7 5) (field w 25 7) (field w 31 1 * (2 ^ 20 - 1)) (omega arith)
          (omega arith)
        ∙ omega arith)

branch-join :
    (x y z s : ℕ)
    → x < 2 ^ 4
    → y < 2 ^ 6
    → z < 2
    → bit_or (bit_or (bit_or (x * 2) (y * 2 ^ 5)) (z * 2 ^ 11)) (s * 2 ^ 12)
      ≡ x * 2 + y * 2 ^ 5 + z * 2 ^ 11 + s * 2 ^ 12
branch-join x y z s h k l =
    ap (λ t. bit_or (bit_or t (z * 2 ^ 11)) (s * 2 ^ 12)) (bit_or_above 5 y (x * 2) (omega arith))
    ∙ ap (λ t. bit_or t (s * 2 ^ 12)) (bit_or_above 11 z (x * 2 + y * 2 ^ 5) (omega arith))
    ∙ bit_or_above 12 s (x * 2 + y * 2 ^ 5 + z * 2 ^ 11) (omega arith)

jump-join :
    (x y z s : ℕ)
    → x < 2 ^ 10
    → y < 2
    → z < 2 ^ 8
    → bit_or (bit_or (bit_or (x * 2) (y * 2 ^ 11)) (z * 2 ^ 12)) (s * 2 ^ 20)
      ≡ x * 2 + y * 2 ^ 11 + z * 2 ^ 12 + s * 2 ^ 20
jump-join x y z s h k l =
    ap (λ t. bit_or (bit_or t (z * 2 ^ 12)) (s * 2 ^ 20)) (bit_or_above 11 y (x * 2) (omega arith))
    ∙ ap (λ t. bit_or t (s * 2 ^ 20)) (bit_or_above 12 z (x * 2 + y * 2 ^ 11) (omega arith))
    ∙ bit_or_above 20 s (x * 2 + y * 2 ^ 11 + z * 2 ^ 12) (omega arith)

arithmetic-12 :
    (w : ℕ) → w < 2 ^ 32 → asr32 (bit_and w 0xFFF0_0000) 20 ≡ field w 20 12 + signed_above w 12
unfolding asr32 is_neg
arithmetic-12 w h =
    rw (bit_and_field 20 12 w) (elim (Bool-cases (ltb (field w 20 12 * 2 ^ 20) (2 ^ 31))) [
      | inl e ↦ rw e (plus e)
      | inr e ↦ rw e (minus e)
    ])
  where
    plus :
        ltb (field w 20 12 * 2 ^ 20) (2 ^ 31) ≡ true
        → field w 20 12 * 2 ^ 20 / 2 ^ 20 ≡ field w 20 12 + signed_above w 12
    plus e = ground arith

    minus :
        ltb (field w 20 12 * 2 ^ 20) (2 ^ 31) ≡ false
        → field w 20 12 * 2 ^ 20 / 2 ^ 20 + (2 ^ 32 - 2 ^ 12) ≡ field w 20 12 + signed_above w 12
    minus e = ground arith

upper-20 :
    (w : ℕ) → w < 2 ^ 32 → shl32 (asr32 (bit_and w 0xFFFF_F000) 12) 12 ≡ field w 12 20 * 2 ^ 12
unfolding asr32 is_neg shl32
upper-20 w h =
    rw (bit_and_field 12 20 w) (elim (Bool-cases (ltb (field w 12 20 * 2 ^ 12) (2 ^ 31))) [
      | inl e ↦ rw e (omega arith)
      | inr e ↦ rw e (omega arith)
    ])

bimm-encoded :
    (w : ℕ)
    → opcode_sbtype_imm w
      ≡ field w 8 4 * 2 + field w 25 6 * 2 ^ 5 + field w 7 1 * 2 ^ 11 + signed_above w 12
unfolding opcode_sbtype_imm
bimm-encoded w =
    rw
      (
        masked w 8 4,
        masked w 25 6,
        masked w 7 1,
        shl32-fits (field w 8 4) 1 (omega arith),
        shl32-fits (field w 25 6) 5 (omega arith),
        shl32-fits (field w 7 1) 11 (omega arith),
        sign-12 w,
      )
      (branch-join (field w 8 4) (field w 25 6) (field w 7 1) (field w 31 1 * (2 ^ 20 - 1))
          (omega arith) (omega arith) (omega arith)
        ∙ omega arith)

jimm20-encoded :
    (w : ℕ)
    → opcode_ujtype_imm w
      ≡ field w 21 10 * 2 + field w 20 1 * 2 ^ 11 + field w 12 8 * 2 ^ 12 + signed_above w 20
unfolding opcode_ujtype_imm
jimm20-encoded w =
    rw
      (
        masked w 21 10,
        masked w 20 1,
        masked w 12 8,
        shl32-fits (field w 21 10) 1 (omega arith),
        shl32-fits (field w 20 1) 11 (omega arith),
        shl32-fits (field w 12 8) 12 (omega arith),
        sign-20 w,
      )
      (jump-join (field w 21 10) (field w 20 1) (field w 12 8) (field w 31 1 * (2 ^ 12 - 1))
          (omega arith) (omega arith) (omega arith)
        ∙ omega arith)

-- A field of few bits: the mask, then the shift.
shifted : (w lo n : ℕ) → shr32 (bit_and w ((2 ^ n - 1) * 2 ^ lo)) lo ≡ field w lo n
unfolding shr32
shifted w lo n =
    ap (λ t. t / 2 ^ lo) (bit_and_field lo n w) ∙ mul-div_cancel (field w lo n) (pow_pos lo)

-- The shift amount is too small for a sign.
shamt-encoded : (w : ℕ) → asr32 (bit_and w 0x3F0_0000) 20 ≡ field w 20 6
unfolding asr32 is_neg
shamt-encoded w = rw (bit_and_field 20 6 w, small) (omega arith)
  where
    small : ltb (field w 20 6 * 2 ^ 20) (2 ^ 31) ≡ true
    small = ground arith

-- Of a word, execute extracts the operands of the formats of RV32: rd, rs1, rs2 and the shift amount by
-- their positions, the immediates of the formats I, S, B, U and J with the sign of bit 31, the values of
-- the registers that rs1 and rs2 name, and the pc.
pub operands-AreEncoded : (cpu : Riscv) (w : ℕ) → w < 2 ^ 32 → AreEncoded cpu w (operands cpu w)
unfolding operands
operands-AreEncoded cpu w h = record {
  rd = shifted w 7 5;
  rs1 = shifted w 15 5;
  rs2 = shifted w 20 5;
  shamt = shamt-encoded w;
  imm12 = arithmetic-12 w h;
  storeimm = storeimm-encoded w;
  bimm = bimm-encoded w;
  imm20 = upper-20 w h;
  jimm20 = jimm20-encoded w;
  reg_rs1 = ap (λ k. get_or cpu.gpr k 0) (shifted w 15 5);
  reg_rs2 = ap (λ k. get_or cpu.gpr k 0) (shifted w 20 5);
  pc = refl;
}
