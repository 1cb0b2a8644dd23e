-- ===== src/Exec/Access.antt =====
-- riscv.cpp, Riscv::execute: the branches INST_LB to INST_SW.
use riscv_v2f_optimized.Prelude.{ℕ, Bool, true, false, none, some}
use riscv_v2f_optimized.Prelude.Outcome.{Outcome, done, ◌>>=◌}
use riscv_v2f_optimized.Word.{add32}
use riscv_v2f_optimized.Machine.{Riscv}
use riscv_v2f_optimized.LoadStore.{load, store}
use riscv_v2f_optimized.Isa.Opcodes.{LoadOp, lb, lh, lw, lbu, lhu, lwu, StoreOp, sb, sh, sw}
use riscv_v2f_optimized.Exec.Context.{Operands, Flow, falls, returns, writes}

unfoldable pub load_width : LoadOp → ℕ
load_width lb = 1
load_width lh = 2
load_width lw = 4
load_width lbu = 1
load_width lhu = 2
load_width lwu = 4

unfoldable pub load_signed : LoadOp → Bool
load_signed lb = true
load_signed lh = true
load_signed lw = true
load_signed lbu = false
load_signed lhu = false
load_signed lwu = false

unfoldable pub store_width : StoreOp → ℕ
store_width sb = 1
store_width sh = 2
store_width sw = 4

unfoldable pub exec_load : LoadOp → Riscv → Operands → Outcome Flow
unfolding load_width load_signed add32
exec_load op cpu o = do
  (cpu', result) ← load cpu o.pc (add32 o.reg_rs1 o.imm12) (load_width op) (load_signed op)
  done (elim result [ some v ↦ writes cpu' o v | none ↦ returns cpu' ])

-- Writes no register: `rd = 0`.
unfoldable pub exec_store : StoreOp → Riscv → Operands → Outcome Flow
unfolding store_width add32
exec_store op cpu o = do
  (cpu', result) ← store cpu o.pc (add32 o.reg_rs1 o.storeimm) o.reg_rs2 (store_width op)
  done (elim result [
    | true ↦
        falls (record { cpu = cpu'; rd = 0; reg_rd = 0; pc = add32 o.pc 4; take_exception = false })
    | false ↦ returns cpu'
  ])
