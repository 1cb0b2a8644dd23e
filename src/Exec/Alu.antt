-- ===== src/Exec/Alu.antt =====
-- riscv.cpp, Riscv::execute: the branches INST_ANDI to INST_SRA.
-- A shift by 32 or more has no defined result in C++, and none that the usual machines share.
use riscv_v2f_optimized.Prelude.{ℕ, Bool, ltb, if◌then◌else◌, bit_and, bit_or, bit_xor}
use riscv_v2f_optimized.Prelude.Outcome.{Outcome, done, undefined, ◌>>=◌}
use riscv_v2f_optimized.Prelude.Int.{ltb_ℤ}
use riscv_v2f_optimized.Word.{add32, sub32, shl32, shr32, asr32}
use riscv_v2f_optimized.Word.Signed.{to_int}
use riscv_v2f_optimized.Trap.{as_int}
use riscv_v2f_optimized.Machine.{Riscv}
use riscv_v2f_optimized.Isa.Opcodes.{
  AluOp, andi, ori, xori, addi, slti, sltiu, slli, srli, srai, lui, auipc, add, sub, slt, sltu, xor,
  or, and, sll, srl, sra,
}
use riscv_v2f_optimized.Exec.Context.{Operands, Flow, writes}

-- (signed)a < (signed)b
unfoldable pub signed_lt : ℕ → ℕ → Bool
unfolding to_int
signed_lt a b = ltb_ℤ (to_int a) (to_int b)

abbrev pub shift_by : ℕ → ℕ → Outcome ℕ
shift_by k v = if ltb k 32 then done v else undefined

-- The value that the branch assigns to reg_rd.
unfoldable pub alu_result : AluOp → Operands → Outcome ℕ
unfolding add32 sub32 shl32 shr32 asr32 signed_lt
alu_result andi o = done (bit_and o.reg_rs1 o.imm12)
alu_result ori o = done (bit_or o.reg_rs1 o.imm12)
alu_result xori o = done (bit_xor o.reg_rs1 o.imm12)
alu_result addi o = done (add32 o.reg_rs1 o.imm12)
alu_result slti o = done (as_int (signed_lt o.reg_rs1 o.imm12))
alu_result sltiu o = done (as_int (ltb o.reg_rs1 o.imm12))
alu_result slli o = shift_by o.shamt (shl32 o.reg_rs1 o.shamt)
alu_result srli o = shift_by o.shamt (shr32 o.reg_rs1 o.shamt)
alu_result srai o = shift_by o.shamt (asr32 o.reg_rs1 o.shamt)
alu_result lui o = done o.imm20
alu_result auipc o = done (add32 o.imm20 o.pc)
alu_result add o = done (add32 o.reg_rs1 o.reg_rs2)
alu_result sub o = done (sub32 o.reg_rs1 o.reg_rs2)
alu_result slt o = done (as_int (signed_lt o.reg_rs1 o.reg_rs2))
alu_result sltu o = done (as_int (ltb o.reg_rs1 o.reg_rs2))
alu_result xor o = done (bit_xor o.reg_rs1 o.reg_rs2)
alu_result or o = done (bit_or o.reg_rs1 o.reg_rs2)
alu_result and o = done (bit_and o.reg_rs1 o.reg_rs2)
alu_result sll o = shift_by o.reg_rs2 (shl32 o.reg_rs1 o.reg_rs2)
alu_result srl o = shift_by o.reg_rs2 (shr32 o.reg_rs1 o.reg_rs2)
alu_result sra o = shift_by o.reg_rs2 (asr32 o.reg_rs1 o.reg_rs2)

unfoldable pub exec_alu : AluOp → Riscv → Operands → Outcome Flow
exec_alu op cpu o = do v ← alu_result op o; done (writes cpu o v)
