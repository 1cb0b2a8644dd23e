-- ===== src/Invariant/Step.antt =====
-- execute and step keep the invariant, and so does any number of steps.
use riscv_v2f_optimized.Prelude.{
  ℕ, ◌+◌, ◌%◌, ◌^◌, ◌<◌, Bool, ◌&&◌, ◌==◌, ◌≡◌, inl, inr, refl, ◌∙◌, Option, none, some, length-set,
  get_or-set_ne, get_or-replicate, arith, Bool-cases,
}
use riscv_v2f_optimized.Prelude.Outcome.{done, Ensures, Ensures-bind, Ensures-of, ◌>>=◌}
use riscv_v2f_optimized.Word.Bits.{bit_and-lt_right, bit_or-lt}
use riscv_v2f_optimized.Machine.{Riscv}
use riscv_v2f_optimized.Regions.{get_opcode}
use riscv_v2f_optimized.Breakpoints.{check_breakpoint}
use riscv_v2f_optimized.Mmu.{mmu_i_translate}
use riscv_v2f_optimized.Trap.{take_interrupt}
use riscv_v2f_optimized.Isa.Opcodes.{Inst}
use riscv_v2f_optimized.Exec.{
  exec_inst, exec_opcode, decode, writeback, finish, execute, tick, count_instruction,
  stop_at_breakpoint, step,
}
use riscv_v2f_optimized.Exec.Context.{operands, Flow, falls, returns}
use riscv_v2f_optimized.Exec.System.{bad_instruction}
use riscv_v2f_optimized.Registers.{reset, stats_reset}
use riscv_v2f_optimized.Invariant.State.{AreRegions, IsValid}
use riscv_v2f_optimized.Invariant.Memory.{AreWords-set}
use riscv_v2f_optimized.Invariant.Traps.{take_interrupt-IsValid}
use riscv_v2f_optimized.Invariant.Translate.{IsTranslated, always, mmu_i_translate-IsTranslated}
use riscv_v2f_optimized.Invariant.Operands.{operands-AreOperands}
use riscv_v2f_optimized.Invariant.Branches.{IsFlow, exec_inst-IsFlow}

writeback-IsValid :
    {cpu : Riscv} (rd x : ℕ) → IsValid cpu → x < 2 ^ 32 → IsValid (writeback cpu rd x)
unfolding writeback
writeback-IsValid {cpu} rd x v h = elim (Bool-cases (rd == 0)) [
  | inl e ↦ rw e v
  | inr e ↦ rw e (record {
    gpr = record {
      count = length-set cpu.gpr rd x ∙ v.gpr.count;
      words = AreWords-set cpu.gpr rd x v.gpr.words h;
      x0 = get_or-set_ne cpu.gpr rd 0 x 0 (ground arith) ∙ v.gpr.x0;
    };
    pc = v.pc;
    csr = v.csr;
    memory = v.memory;
    no_fault = v.no_fault;
  })
]

finish-IsValid : (f : Flow) → IsFlow f → IsValid (finish f)
unfolding finish
finish-IsValid (returns cpu) h = h
finish-IsValid (falls r) h = elim (Bool-cases t.1) [
  | inl e ↦ rw e w
  | inr e ↦
      rw e (record { gpr = w.gpr; pc = h.2; csr = w.csr; memory = w.memory; no_fault = w.no_fault })
]
  where
    t : Riscv × Bool
    t = take_interrupt (writeback r.cpu r.rd r.reg_rd) r.pc r.take_exception

    w : IsValid t.0
    w = take_interrupt-IsValid (writeback-IsValid r.rd r.reg_rd h.0 h.1) r.pc r.take_exception h.2

exec_opcode-IsFlow :
    {cpu : Riscv} (opcode : ℕ) → IsValid cpu → Ensures IsFlow (exec_opcode cpu opcode)
unfolding exec_opcode
exec_opcode-IsFlow {cpu} opcode v = chosen (decode opcode)
  where
    chosen :
        (d : Option Inst)
        → Ensures IsFlow (elim d [
          | none ↦ bad_instruction cpu (operands cpu opcode)
          | some inst ↦ exec_inst inst cpu (operands cpu opcode)
        ])
    chosen none = unfold bad_instruction in tt
    chosen (some inst) = exec_inst-IsFlow v _ (operands-AreOperands opcode v) inst

execute-IsValid : {cpu : Riscv} → IsValid cpu → Ensures IsValid (execute cpu)
unfolding execute
execute-IsValid {cpu} v =
    Ensures-bind IsTranslated IsValid (mmu_i_translate cpu cpu.pc) _
      (mmu_i_translate-IsTranslated v cpu.pc v.pc) λ r h. fetched r.1 h.0
  where
    fetched :
        {c : Riscv} (physical : Option ℕ)
        → IsValid c
        → Ensures IsValid (elim physical [
          | none ↦ done c
          | some p ↦ do
            opcode ← get_opcode c p
            flow ← exec_opcode (record c { pc_x = c.pc }) opcode
            done (finish flow)
        ])
    fetched none w = w
    fetched {c} (some p) w =
        Ensures-bind (λ _. Unit {0}) IsValid (get_opcode c p) _ (always _)
          λ opcode _.
            Ensures-bind IsFlow IsValid (exec_opcode (record c { pc_x = c.pc }) opcode) _
              (exec_opcode-IsFlow opcode w') λ f h. finish-IsValid f h
      where
        w' : IsValid (record c { pc_x = c.pc })
        w' = record {
          gpr = w.gpr;
          pc = w.pc;
          csr = w.csr;
          memory = w.memory;
          no_fault = w.no_fault;
        }

tick-IsValid : {cpu : Riscv} → IsValid cpu → IsValid (tick cpu)
unfolding tick
tick-IsValid {cpu} v = record {
  gpr = v.gpr;
  pc = v.pc;
  csr = ground (
    arith,
    v.csr,
    bit_or-lt 32 cpu.csr.mip 0x20,
    bit_or-lt 32 cpu.csr.mip 0x80,
    bit_and-lt_right 32 ((cpu.csr.mtime + 1) % 2 ^ 64) 0xFFFF_FFFF,
  );
  memory = v.memory;
  no_fault = v.no_fault;
}

stop_at_breakpoint-IsValid : {cpu : Riscv} → IsValid cpu → IsValid (stop_at_breakpoint cpu)
unfolding stop_at_breakpoint
stop_at_breakpoint-IsValid {cpu} v =
    elim (Bool-cases (cpu.has_breakpoints && check_breakpoint cpu cpu.pc_x)) [
      | inl e ↦
          rw e (record {
            gpr = v.gpr;
            pc = v.pc;
            csr = v.csr;
            memory = v.memory;
            no_fault = v.no_fault;
          })
      | inr e ↦ rw e v
    ]

-- One step of the simulator keeps the state valid, if it returns: registers, pc and memory words
-- stay uint32_t values, x0 reads 0, the privilege level is at most 3, and m_fault is not set.
pub step-IsValid : {cpu : Riscv} → IsValid cpu → Ensures IsValid (step cpu)
unfolding step count_instruction
step-IsValid {cpu} v =
    Ensures-bind IsValid IsValid (execute (count_instruction cpu)) _ (execute-IsValid counted)
      λ c h. stop_at_breakpoint-IsValid (tick-IsValid h)
  where
    counted : IsValid (count_instruction cpu)
    counted = record {
      gpr = v.gpr;
      pc = v.pc;
      csr = v.csr;
      memory = v.memory;
      no_fault = v.no_fault;
    }

-- The states that steps lead to.
pub data Reach (s : Riscv) : Riscv → Type 0 where
  here : Reach s s
  next : {t u : Riscv} → Reach s t → step t ≡ done u → Reach s u

-- After a reset every register is zero and the hart is in machine mode.
pub reset-IsValid :
    (cpu : Riscv) (start : ℕ) → AreRegions cpu.regions → start < 2 ^ 32 → IsValid (reset cpu start)
unfolding reset stats_reset
reset-IsValid cpu start h hs = record {
  gpr = record {
    count = refl;
    words = λ i. ground (arith, get_or-replicate {0} {A = ℕ} 32 i 0);
    x0 = refl;
  };
  pc = hs;
  csr = omega arith;
  memory = h;
  no_fault = refl;
}

-- Every state that the simulator reaches from a reset is valid; so get_fault is never true, though
-- riscv_main asks for it after each step.
pub Reach-IsValid :
    (cpu : Riscv) (start : ℕ) {t : Riscv}
    → AreRegions cpu.regions
    → start < 2 ^ 32
    → Reach (reset cpu start) t
    → IsValid t
Reach-IsValid cpu start h hs here = reset-IsValid cpu start h hs
Reach-IsValid cpu start h hs (next {t} r e) =
    Ensures-of IsValid (step t) _ (step-IsValid (Reach-IsValid cpu start h hs r)) e
