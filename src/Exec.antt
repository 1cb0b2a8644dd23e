-- ===== src/Exec.antt =====
-- riscv.cpp: Riscv::execute and Riscv::step. Calls of m_stats_if, which the repository does not
-- implement, leave this state alone and are left out, as is the trace.
pub mod Context
pub mod Alu
pub mod Jump
pub mod Access
pub mod MulDiv
pub mod Products
pub mod Divisions
pub mod Encodings
pub mod System
pub mod Decode
use riscv_v2f_optimized.Prelude.{
  ℕ, ◌+◌, ◌%◌, ◌^◌, Bool, true, false, ◌&&◌, ◌==◌, if◌then◌else◌, List, [], ◌∷◌, Option, none, some,
  set, bit_and, bit_or,
}
use riscv_v2f_optimized.Prelude.Outcome.{Outcome, done, ◌>>=◌}
use riscv_v2f_optimized.Word.{add32, nonzero}
use riscv_v2f_optimized.Machine.{Riscv}
use riscv_v2f_optimized.Regions.{get_opcode}
use riscv_v2f_optimized.Breakpoints.{check_breakpoint}
use riscv_v2f_optimized.Trap.{take_interrupt}
use riscv_v2f_optimized.CsrAccess.{timer_bit}
use riscv_v2f_optimized.Mmu.{mmu_i_translate}
use riscv_v2f_optimized.Isa.Opcodes.{
  Pattern, Inst, alu, jump, load_inst, store_inst, muldiv, system, patterns,
}
use Context.{Operands, operands, Retire, Flow, falls, returns}
use Alu.{exec_alu}
use Jump.{exec_jump}
use Access.{exec_load, exec_store}
use MulDiv.{exec_mul}
use System.{exec_system, bad_instruction}

abbrev pub matches : Pattern → ℕ → Bool
matches p opcode = bit_and opcode p.mask == p.bits

unfoldable pub first_match : List Pattern → ℕ → Option Inst
first_match [] opcode = none
first_match (p ∷ ps) opcode = if matches p opcode then some p.inst else first_match ps opcode

-- The branch that the chain of tests takes; none for a bad instruction.
unfoldable pub decode : ℕ → Option Inst
unfolding first_match
decode opcode = if opcode == 0 then none else first_match patterns opcode

unfoldable pub exec_inst : Inst → Riscv → Operands → Outcome Flow
exec_inst (alu op) cpu o = exec_alu op cpu o
exec_inst (jump op) cpu o = done (exec_jump op cpu o)
exec_inst (load_inst op) cpu o = exec_load op cpu o
exec_inst (store_inst op) cpu o = exec_store op cpu o
exec_inst (muldiv op) cpu o = done (exec_mul op cpu o)
exec_inst (system op) cpu o = exec_system op cpu o

-- `if (rd != 0) m_gpr[rd] = reg_rd;`
unfoldable pub writeback : Riscv → ℕ → ℕ → Riscv
writeback cpu rd v = if rd == 0 then cpu else record cpu { gpr = set cpu.gpr rd v }

-- What follows the chain of branches.
unfoldable pub finish : Flow → Riscv
unfolding writeback
finish (returns cpu) = cpu
finish (falls r) =
    let (cpu, taken) = take_interrupt (writeback r.cpu r.rd r.reg_rd) r.pc r.take_exception in
    if taken then cpu else record cpu { pc = r.pc }

unfoldable pub exec_opcode : Riscv → ℕ → Outcome Flow
unfolding exec_inst
exec_opcode cpu opcode = elim (decode opcode) [
  | none ↦ bad_instruction cpu (operands cpu opcode)
  | some inst ↦ exec_inst inst cpu (operands cpu opcode)
]

unfoldable pub execute : Riscv → Outcome Riscv
execute cpu = do
  (cpu', phy_pc) ← mmu_i_translate cpu cpu.pc
  elim phy_pc [
    | none ↦ done cpu'
    | some p ↦ do
      opcode ← get_opcode cpu' p
      flow ← exec_opcode (record cpu' { pc_x = cpu'.pc }) opcode
      done (finish flow)
  ]

-- The timer: mtime counts modulo 2 ^ 32, and raises its interrupt at mtimecmp.
unfoldable pub tick : Riscv → Riscv
tick cpu =
    let now = bit_and ((cpu.csr.mtime + 1) % 2 ^ 64) 0xFFFF_FFFF in
    record cpu {
      csr = record cpu.csr {
        mtime = now;
        mip =
            if now == cpu.csr.mtimecmp then bit_or cpu.csr.mip (timer_bit cpu.csr) else cpu.csr.mip;
      };
    }

unfoldable pub count_instruction : Riscv → Riscv
unfolding add32
count_instruction cpu = record cpu {
  stats = record cpu.stats { instructions = add32 cpu.stats.instructions 1 };
}

unfoldable pub stop_at_breakpoint : Riscv → Riscv
stop_at_breakpoint cpu =
    if cpu.has_breakpoints && check_breakpoint cpu cpu.pc_x
    then record cpu { break = true }
    else cpu

unfoldable pub step : Riscv → Outcome Riscv
unfolding count_instruction tick stop_at_breakpoint
step cpu = do cpu' ← execute (count_instruction cpu); done (stop_at_breakpoint (tick cpu'))
