-- ===== src/Invariant/Operands.antt =====
-- The operands and the results of the arithmetic branches are uint32_t values.
use riscv_v2f_optimized.Prelude.{
  ℕ, zero, suc, ◌%◌, ◌^◌, ◌≤◌, ◌<◌, ltb, inl, inr, bit_and, arith, Bool-cases,
}
use riscv_v2f_optimized.Prelude.Outcome.{Ensures}
use riscv_v2f_optimized.Prelude.Int.{ℤ, pos, negsuc, quot, rem}
use riscv_v2f_optimized.Word.{add32, sub32, shl32, shr32, asr32, is_neg}
use riscv_v2f_optimized.Word.Signed.{of_int, to_int}
use riscv_v2f_optimized.Word.Shifts.{shr32-le, asr32-lt}
use native.Mathlib.Nat.{div-le_self}
use riscv_v2f_optimized.Word.Bits.{bit_or-lt, bit_and-lt, bit_and-lt_right, bit_xor-lt}
use riscv_v2f_optimized.Machine.{Riscv}
use riscv_v2f_optimized.Isa.Fields.{opcode_stype_imm, opcode_sbtype_imm}
use riscv_v2f_optimized.Isa.Opcodes
use riscv_v2f_optimized.Isa.Opcodes.{
  AluOp, JumpOp, LoadOp, StoreOp, MulOp, SysOp, Inst, alu, jump, load_inst, store_inst, muldiv,
  system,
}
use riscv_v2f_optimized.Exec.Context.{Operands, operands}
use riscv_v2f_optimized.Exec.Alu.{alu_result, shift_by}
use riscv_v2f_optimized.Exec.MulDiv.{mul_result}
use riscv_v2f_optimized.Invariant.State.{IsWord, IsValid}

-- What the branches read of the operands.
pub record AreOperands (o : Operands) : Type 0 where
  pub rs1 : o.rs1 < 2 ^ 32
  pub imm20 : o.imm20 < 2 ^ 32
  pub imm12 : o.imm12 < 2 ^ 32
  pub bimm : o.bimm < 2 ^ 32
  pub storeimm : o.storeimm < 2 ^ 32
  pub reg_rs1 : o.reg_rs1 < 2 ^ 32
  pub reg_rs2 : o.reg_rs2 < 2 ^ 32
  pub pc : o.pc < 2 ^ 32

asr32-lt_20 : (a : ℕ) → a < 2 ^ 32 → asr32 a 20 < 2 ^ 32
unfolding asr32 is_neg
asr32-lt_20 a h = ground arith

stype-lt : (x : ℕ) → opcode_stype_imm x < 2 ^ 32
unfolding opcode_stype_imm shl32
stype-lt x =
    bit_or-lt 32 _ _
      (bit_or-lt 32 _ _ (omega (arith, bit_and-lt_right 32 (shr32 x 7) 31)) (omega arith))
      (omega arith)

sbtype-lt : (x : ℕ) → opcode_sbtype_imm x < 2 ^ 32
unfolding opcode_sbtype_imm shl32
sbtype-lt x =
    bit_or-lt 32 _ _ (bit_or-lt 32 _ _ (bit_or-lt 32 _ _ (omega arith) (omega arith)) (omega arith))
      (omega arith)

-- In a valid state the operands that execute reads of an instruction word are uint32_t values.
pub operands-AreOperands :
    {cpu : Riscv} (opcode : ℕ) → IsValid cpu → AreOperands (operands cpu opcode)
unfolding operands shl32
operands-AreOperands {cpu} opcode v = record {
  rs1 = omega (arith, shr32-le (bit_and opcode 0xF_8000) 15, bit_and-lt_right 32 opcode 0xF_8000);
  imm20 = omega arith;
  imm12 = asr32-lt_20 _ (bit_and-lt_right 32 opcode 0xFFF0_0000 (omega arith));
  bimm = sbtype-lt opcode;
  storeimm = stype-lt opcode;
  reg_rs1 = v.gpr.words _;
  reg_rs2 = v.gpr.words _;
  pc = v.pc;
}

shift_by-IsWord : (k x : ℕ) → (k < 32 → x < 2 ^ 32) → Ensures IsWord (shift_by k x)
shift_by-IsWord k x h = elim (Bool-cases (ltb k 32)) [
  | inl e ↦ rw e (h (ground arith))
  | inr e ↦ rw e tt
]

pub alu_result-IsWord :
    (op : AluOp) (o : Operands) → AreOperands o → Ensures IsWord (alu_result op o)
unfolding alu_result add32 sub32 shl32
alu_result-IsWord Opcodes.andi o h = bit_and-lt 32 _ _ h.reg_rs1
alu_result-IsWord Opcodes.ori o h = bit_or-lt 32 _ _ h.reg_rs1 h.imm12
alu_result-IsWord Opcodes.xori o h = bit_xor-lt 32 _ _ h.reg_rs1 h.imm12
alu_result-IsWord Opcodes.srl o h =
    shift_by-IsWord _ _ (λ _. omega (arith, shr32-le o.reg_rs1 o.reg_rs2))
alu_result-IsWord Opcodes.srli o h =
    shift_by-IsWord _ _ (λ _. omega (arith, shr32-le o.reg_rs1 o.shamt))
alu_result-IsWord Opcodes.sra o h = shift_by-IsWord _ _ (asr32-lt _ _ h.reg_rs1)
alu_result-IsWord Opcodes.srai o h = shift_by-IsWord _ _ (asr32-lt _ _ h.reg_rs1)
alu_result-IsWord Opcodes.xor o h = bit_xor-lt 32 _ _ h.reg_rs1 h.reg_rs2
alu_result-IsWord Opcodes.or o h = bit_or-lt 32 _ _ h.reg_rs1 h.reg_rs2
alu_result-IsWord Opcodes.and o h = bit_and-lt 32 _ _ h.reg_rs1
alu_result-IsWord _ o h = ground (arith, h)

pub of_int-lt : (n : ℤ) → of_int n < 2 ^ 32
unfolding of_int
of_int-lt (pos n) = omega arith
of_int-lt (negsuc n) = omega arith

mod-le : (a b : ℕ) → a % b ≤ a
mod-le a zero = omega arith
mod-le a (suc b) = grind arith

pub mul_result-IsWord :
    (op : MulOp) (a b : ℕ) → a < 2 ^ 32 → b < 2 ^ 32 → mul_result op a b < 2 ^ 32
unfolding mul_result
mul_result-IsWord Opcodes.mul a b ha hb = of_int-lt _
mul_result-IsWord Opcodes.mulh a b ha hb = of_int-lt _
mul_result-IsWord Opcodes.mulhsu a b ha hb = omega arith
mul_result-IsWord Opcodes.mulhu a b ha hb = omega arith
mul_result-IsWord Opcodes.div a b ha hb = ground (arith, of_int-lt (quot (to_int a) (to_int b)))
mul_result-IsWord Opcodes.divu a b ha hb = ground (arith, div-le_self a b)
mul_result-IsWord Opcodes.rem a b ha hb = ground (arith, of_int-lt (rem (to_int a) (to_int b)))
mul_result-IsWord Opcodes.remu a b ha hb = ground (arith, mod-le a b)
