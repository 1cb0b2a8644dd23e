-- ===== src/Invariant/Branches.antt =====
-- Each branch of execute keeps the invariant and hands words on to the tail.
use riscv_v2f_optimized.Prelude.{ℕ, ◌^◌, ◌<◌, Bool, true, false, Option, none, some, arith}
use riscv_v2f_optimized.Prelude.Outcome.{Ensures, Ensures-bind}
use riscv_v2f_optimized.Word.{add32}
use riscv_v2f_optimized.Word.Bits.{bit_and-lt}
use riscv_v2f_optimized.Trap.{exception, mret_return, sret_return}
use riscv_v2f_optimized.Machine.{Riscv}
use riscv_v2f_optimized.LoadStore.{load, store}
use riscv_v2f_optimized.CsrAccess.{access_csr}
use riscv_v2f_optimized.Isa.Opcodes
use riscv_v2f_optimized.Isa.Opcodes.{
  AluOp, JumpOp, LoadOp, StoreOp, MulOp, SysOp, Inst, alu, jump, load_inst, store_inst, muldiv,
  system,
}
use riscv_v2f_optimized.Exec.Context.{Operands, Flow, falls, returns, writes}
use riscv_v2f_optimized.Exec.Alu.{alu_result, exec_alu}
use riscv_v2f_optimized.Exec.Jump.{exec_jump, branch, count_branch}
use riscv_v2f_optimized.Exec.Access.{exec_load, exec_store}
use riscv_v2f_optimized.Exec.{exec_inst}
use riscv_v2f_optimized.Exec.MulDiv.{exec_mul}
use riscv_v2f_optimized.Exec.System.{exec_system, exec_csr}
use riscv_v2f_optimized.Invariant.State.{IsWord, IsValid}
use riscv_v2f_optimized.Invariant.Traps.{
  exception-IsValid, mret_return-IsValid, sret_return-IsValid,
}
use riscv_v2f_optimized.Invariant.Access.{KeepsValid, load-IsTranslated, store-IsValid}
use riscv_v2f_optimized.Invariant.Translate.{IsTranslated}
use riscv_v2f_optimized.Invariant.Memory.{IsFound}
use riscv_v2f_optimized.Invariant.Csrs.{IsAccessed, access_csr-IsAccessed}
use riscv_v2f_optimized.Invariant.Operands.{AreOperands, alu_result-IsWord, mul_result-IsWord}

-- A branch returns a valid state, or hands one on with words to write and to go on at.
abbrev pub IsFlow : Flow → Type 0
IsFlow (returns cpu) = IsValid cpu
IsFlow (falls r) = IsValid r.cpu × (r.reg_rd < 2 ^ 32) × (r.pc < 2 ^ 32)

module _ {cpu : Riscv} (v : IsValid cpu) (o : Operands) (h : AreOperands o) where
  count_branch-IsValid : IsValid (count_branch cpu)
  unfolding count_branch
  count_branch-IsValid = record {
    gpr = v.gpr;
    pc = v.pc;
    csr = v.csr;
    memory = v.memory;
    no_fault = v.no_fault;
  }

  branch-IsFlow : (op : JumpOp) → IsFlow (branch op cpu o)
  unfolding branch add32
  branch-IsFlow op = (count_branch-IsValid, omega arith, omega arith)

  exec_jump-IsFlow : (op : JumpOp) → IsFlow (exec_jump op cpu o)
  unfolding exec_jump add32
  exec_jump-IsFlow Opcodes.jal = (count_branch-IsValid, omega arith, omega arith)
  exec_jump-IsFlow Opcodes.jalr =
      (count_branch-IsValid, omega arith, bit_and-lt 32 _ _ (omega arith))
  exec_jump-IsFlow Opcodes.beq = branch-IsFlow Opcodes.beq
  exec_jump-IsFlow Opcodes.bne = branch-IsFlow Opcodes.bne
  exec_jump-IsFlow Opcodes.blt = branch-IsFlow Opcodes.blt
  exec_jump-IsFlow Opcodes.bge = branch-IsFlow Opcodes.bge
  exec_jump-IsFlow Opcodes.bltu = branch-IsFlow Opcodes.bltu
  exec_jump-IsFlow Opcodes.bgeu = branch-IsFlow Opcodes.bgeu

  exec_alu-IsFlow : (op : AluOp) → Ensures IsFlow (exec_alu op cpu o)
  unfolding exec_alu add32
  exec_alu-IsFlow op =
      Ensures-bind IsWord IsFlow (alu_result op o) _ (alu_result-IsWord op o h)
        λ x hx. (v, hx, omega arith)

  exec_mul-IsFlow : (op : MulOp) → IsFlow (exec_mul op cpu o)
  unfolding exec_mul add32
  exec_mul-IsFlow op = (v, mul_result-IsWord op _ _ h.reg_rs1 h.reg_rs2, omega arith)

  exec_csr-IsFlow : (d : ℕ) (s c : Bool) → Ensures IsFlow (exec_csr cpu o d s c)
  unfolding exec_csr add32
  exec_csr-IsFlow d s c =
      Ensures-bind IsAccessed IsFlow (access_csr cpu o.imm12 d s c) _
        (access_csr-IsAccessed v o.imm12 d s c) λ r k. (k.0, k.1, omega arith)

  load-IsFlow :
      {c : Riscv} (result : Option ℕ)
      → IsValid c
      → IsFound result
      → IsFlow (elim result [ some x ↦ writes c o x | none ↦ returns c ])
  unfolding add32
  load-IsFlow none w k = w
  load-IsFlow (some x) w k = (w, k, omega arith)

  store-IsFlow :
      {c : Riscv} (ok : Bool)
      → IsValid c
      → IsFlow (elim ok [
        | true ↦
            falls
              (record { cpu = c; rd = 0; reg_rd = 0; pc = add32 o.pc 4; take_exception = false })
        | false ↦ returns c
      ])
  unfolding add32
  store-IsFlow true w = (w, omega arith, omega arith)
  store-IsFlow false w = w

  exec_load-IsFlow : (op : LoadOp) → Ensures IsFlow (exec_load op cpu o)
  unfolding exec_load add32
  exec_load-IsFlow op =
      Ensures-bind IsTranslated IsFlow (load cpu o.pc _ _ _) _
        (load-IsTranslated v o.pc _ _ _ h.pc (omega arith)) λ r k. load-IsFlow r.1 k.0 k.1

  exec_store-IsFlow : (op : StoreOp) → Ensures IsFlow (exec_store op cpu o)
  unfolding exec_store add32
  exec_store-IsFlow op =
      Ensures-bind KeepsValid IsFlow (store cpu o.pc _ o.reg_rs2 _) _
        (store-IsValid v o.pc _ o.reg_rs2 _ h.pc (omega arith) h.reg_rs2) λ r k. store-IsFlow r.1 k

  break-IsValid : IsValid (record (exception cpu 3 o.pc 0) { break = true })
  break-IsValid = record {
    gpr = w.gpr;
    pc = w.pc;
    csr = w.csr;
    memory = w.memory;
    no_fault = w.no_fault;
  }
    where
      w : IsValid (exception cpu 3 o.pc 0)
      w = exception-IsValid v 3 o.pc 0 (omega arith) h.pc (omega arith)

  exec_system-IsFlow : (op : SysOp) → Ensures IsFlow (exec_system op cpu o)
  unfolding exec_system add32
  exec_system-IsFlow Opcodes.ecall = (
    exception-IsValid v _ o.pc 0 (omega (arith, v.csr.mpriv)) h.pc (omega arith),
    omega arith,
    h.pc,
  )
  exec_system-IsFlow Opcodes.ebreak = (break-IsValid, omega arith, h.pc)
  exec_system-IsFlow Opcodes.mret =
      Ensures-bind IsAccessed IsFlow (mret_return cpu) _ (mret_return-IsValid v)
        λ r k. (k.0, omega arith, k.1)
  exec_system-IsFlow Opcodes.sret =
      Ensures-bind IsAccessed IsFlow (sret_return cpu) _ (sret_return-IsValid v)
        λ r k. (k.0, omega arith, k.1)
  exec_system-IsFlow Opcodes.fence = (v, omega arith, omega arith)
  exec_system-IsFlow Opcodes.csrrw = exec_csr-IsFlow o.reg_rs1 true true
  exec_system-IsFlow Opcodes.csrrs = exec_csr-IsFlow o.reg_rs1 true false
  exec_system-IsFlow Opcodes.csrrc = exec_csr-IsFlow o.reg_rs1 false true
  exec_system-IsFlow Opcodes.csrrwi = exec_csr-IsFlow o.rs1 true true
  exec_system-IsFlow Opcodes.csrrsi = exec_csr-IsFlow o.rs1 true false
  exec_system-IsFlow Opcodes.csrrci = exec_csr-IsFlow o.rs1 false true
  exec_system-IsFlow Opcodes.wfi = (v, omega arith, omega arith)

  pub exec_inst-IsFlow : (inst : Inst) → Ensures IsFlow (exec_inst inst cpu o)
  unfolding exec_inst
  exec_inst-IsFlow (alu op) = exec_alu-IsFlow op
  exec_inst-IsFlow (jump op) = exec_jump-IsFlow op
  exec_inst-IsFlow (load_inst op) = exec_load-IsFlow op
  exec_inst-IsFlow (store_inst op) = exec_store-IsFlow op
  exec_inst-IsFlow (muldiv op) = exec_mul-IsFlow op
  exec_inst-IsFlow (system op) = exec_system-IsFlow op
