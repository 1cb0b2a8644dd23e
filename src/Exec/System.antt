-- ===== src/Exec/System.antt =====
-- riscv.cpp, Riscv::execute: the branches INST_ECALL to INST_WFI, and the one for a bad
-- instruction.
use riscv_v2f_optimized.Prelude.{ℕ, ◌+◌, Bool, true, false}
use riscv_v2f_optimized.Prelude.Outcome.{Outcome, done, ◌>>=◌, ◌>>◌}
use riscv_v2f_optimized.Word.{add32}
use riscv_v2f_optimized.Machine.{Riscv}
use riscv_v2f_optimized.Regions.{error}
use riscv_v2f_optimized.Trap.{exception, mret_return, sret_return}
use riscv_v2f_optimized.CsrAccess.{access_csr}
use riscv_v2f_optimized.Isa.Trap.{mcause_ecall_u, mcause_breakpoint, mcause_illegal_instruction}
use riscv_v2f_optimized.Isa.Opcodes.{
  SysOp, ecall, ebreak, mret, sret, fence, csrrw, csrrs, csrrc, csrrwi, csrrsi, csrrci, wfi,
}
use riscv_v2f_optimized.Exec.Context.{Operands, Flow, falls, writes}

-- Falls through with `rd` and reg_rd as they were set at first.
abbrev pub goes_to : Riscv → Operands → ℕ → Bool → Flow
goes_to cpu o pc take_exception =
    falls (record { cpu = cpu; rd = o.rd; reg_rd = 0; pc = pc; take_exception = take_exception })

unfoldable pub exec_csr : Riscv → Operands → ℕ → Bool → Bool → Outcome Flow
exec_csr cpu o operand set clr = do
  (cpu', v) ← access_csr cpu o.imm12 operand set clr
  done (writes cpu' o v)

unfoldable pub exec_system : SysOp → Riscv → Operands → Outcome Flow
unfolding add32 exec_csr mret_return sret_return
exec_system ecall cpu o =
    done (goes_to (exception cpu (mcause_ecall_u + cpu.csr.mpriv) o.pc 0) o o.pc true)
exec_system ebreak cpu o =
    let cpu' = exception cpu mcause_breakpoint o.pc 0 in
    done (goes_to (record cpu' { break = true }) o o.pc true)
exec_system mret cpu o = do (cpu', pc) ← mret_return cpu; done (goes_to cpu' o pc false)
exec_system sret cpu o = do (cpu', pc) ← sret_return cpu; done (goes_to cpu' o pc false)
exec_system fence cpu o = done (goes_to cpu o (add32 o.pc 4) false)
exec_system csrrw cpu o = exec_csr cpu o o.reg_rs1 true true
exec_system csrrs cpu o = exec_csr cpu o o.reg_rs1 true false
exec_system csrrc cpu o = exec_csr cpu o o.reg_rs1 false true
exec_system csrrwi cpu o = exec_csr cpu o o.rs1 true true
exec_system csrrsi cpu o = exec_csr cpu o o.rs1 true false
exec_system csrrci cpu o = exec_csr cpu o o.rs1 false true
exec_system wfi cpu o = done (goes_to cpu o (add32 o.pc 4) false)

-- An opcode of zero, or one that no test matches: error, and behind it the exception.
unfoldable pub bad_instruction : Riscv → Operands → Outcome Flow
bad_instruction cpu o = do
  error
  let cpu' = exception cpu mcause_illegal_instruction o.pc 0
  done (goes_to (record cpu' { fault = true }) o o.pc true)
