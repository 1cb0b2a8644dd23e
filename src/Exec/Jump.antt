-- ===== src/Exec/Jump.antt =====
-- riscv.cpp, Riscv::execute: the branches INST_JAL to INST_BGEU.
use riscv_v2f_optimized.Prelude.{ℕ, Bool, false, not, ltb, ◌==◌, if◌then◌else◌, bit_and}
use riscv_v2f_optimized.Word.{add32, not32}
use riscv_v2f_optimized.Machine.{Riscv}
use riscv_v2f_optimized.Isa.Opcodes.{JumpOp, jal, jalr, beq, bne, blt, bge, bltu, bgeu}
use riscv_v2f_optimized.Exec.Context.{Operands, Flow, falls}
use riscv_v2f_optimized.Exec.Alu.{signed_lt}

unfoldable pub count_branch : Riscv → Riscv
unfolding add32
count_branch cpu = record cpu { stats = record cpu.stats { branches = add32 cpu.stats.branches 1 } }

-- The condition of a branch.
unfoldable pub branch_taken : JumpOp → ℕ → ℕ → Bool
unfolding signed_lt
branch_taken jal a b = false
branch_taken jalr a b = false
branch_taken beq a b = a == b
branch_taken bne a b = not (a == b)
branch_taken blt a b = signed_lt a b
branch_taken bge a b = not (signed_lt a b)
branch_taken bltu a b = ltb a b
branch_taken bgeu a b = not (ltb a b)

-- Writes no register: `rd = 0`.
unfoldable pub branch : JumpOp → Riscv → Operands → Flow
unfolding add32 branch_taken count_branch
branch op cpu o = falls (record {
  cpu = count_branch cpu;
  rd = 0;
  reg_rd = 0;
  pc = add32 o.pc (if branch_taken op o.reg_rs1 o.reg_rs2 then o.bimm else 4);
  take_exception = false;
})

unfoldable pub exec_jump : JumpOp → Riscv → Operands → Flow
unfolding add32 not32 branch count_branch
exec_jump jal cpu o = falls (record {
  cpu = count_branch cpu;
  rd = o.rd;
  reg_rd = add32 o.pc 4;
  pc = add32 o.pc o.jimm20;
  take_exception = false;
})
exec_jump jalr cpu o = falls (record {
  cpu = count_branch cpu;
  rd = o.rd;
  reg_rd = add32 o.pc 4;
  pc = bit_and (add32 o.reg_rs1 o.imm12) (not32 1);
  take_exception = false;
})
exec_jump beq cpu o = branch beq cpu o
exec_jump bne cpu o = branch bne cpu o
exec_jump blt cpu o = branch blt cpu o
exec_jump bge cpu o = branch bge cpu o
exec_jump bltu cpu o = branch bltu cpu o
exec_jump bgeu cpu o = branch bgeu cpu o
