-- ===== src/Exec/Context.antt =====
-- riscv.cpp, Riscv::execute: what it extracts from the instruction word, and how a branch of it
-- ends. An `int` is held as its 32-bit pattern.
use riscv_v2f_optimized.Prelude.{ℕ, Bool, false, get_or, bit_and}
use riscv_v2f_optimized.Word.{add32, shl32, shr32, asr32}
use riscv_v2f_optimized.Machine.{Riscv}
use riscv_v2f_optimized.Isa.Fields.{
  opcode_stype_imm, opcode_sbtype_imm, opcode_ujtype_imm, opcode_rd_mask, opcode_rs1_mask,
  opcode_rs2_mask, opcode_typei_imm_mask, opcode_typeu_imm_mask, opcode_shamt_mask,
}

pub record Operands : Type 0 where
  pub rd : ℕ
  pub rs1 : ℕ
  pub rs2 : ℕ
  pub imm20 : ℕ
  pub imm12 : ℕ
  pub bimm : ℕ
  pub jimm20 : ℕ
  pub storeimm : ℕ
  pub shamt : ℕ
  pub reg_rs1 : ℕ
  pub reg_rs2 : ℕ
  pub pc : ℕ

unfoldable pub operands : Riscv → ℕ → Operands
unfolding shr32 asr32 shl32
operands cpu opcode =
    let rs1 = shr32 (bit_and opcode opcode_rs1_mask) 15 in
    let rs2 = shr32 (bit_and opcode opcode_rs2_mask) 20 in
    record {
      rd = shr32 (bit_and opcode opcode_rd_mask) 7;
      rs1 = rs1;
      rs2 = rs2;
      imm20 = shl32 (asr32 (bit_and opcode opcode_typeu_imm_mask) 12) 12;
      imm12 = asr32 (bit_and opcode opcode_typei_imm_mask) 20;
      bimm = opcode_sbtype_imm opcode;
      jimm20 = opcode_ujtype_imm opcode;
      storeimm = opcode_stype_imm opcode;
      shamt = asr32 (bit_and opcode opcode_shamt_mask) 20;
      reg_rs1 = get_or cpu.gpr rs1 0;
      reg_rs2 = get_or cpu.gpr rs2 0;
      pc = cpu.pc;
    }

-- The variables that the tail of execute reads.
pub record Retire : Type 0 where
  pub cpu : Riscv
  pub rd : ℕ
  pub reg_rd : ℕ
  pub pc : ℕ
  pub take_exception : Bool

-- A branch falls through to the tail, or returns from execute.
pub data Flow : Type 0 where
  falls : Retire → Flow
  returns : Riscv → Flow

-- `reg_rd = v; pc += 4`
abbrev pub writes : Riscv → Operands → ℕ → Flow
writes cpu o v =
    falls (record { cpu = cpu; rd = o.rd; reg_rd = v; pc = add32 o.pc 4; take_exception = false })
