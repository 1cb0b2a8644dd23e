-- ===== src/Registers.antt =====
-- riscv.cpp: set_pc, set_register, get_register, set_interrupt, stats_reset, reset and the
-- constructor. A register number is an `int`; the model takes the nonnegative ones.
pub mod Laws
use riscv_v2f_optimized.Prelude.{
  ℕ, ◌+◌, false, leb, ◌==◌, if◌then◌else◌, get_or, set, replicate, Option, none, some, bit_or,
}
use riscv_v2f_optimized.Prelude.Outcome.{Outcome, done, aborted}
use riscv_v2f_optimized.Machine.{Riscv, Csr, Stats}
use riscv_v2f_optimized.Isa.Trap.{priv_machine, sr_ip_meip}
use riscv_v2f_optimized.Isa.Csr.{
  csr_mepc, csr_mcause, csr_mstatus, csr_mtvec, csr_mie, csr_mip, csr_mtime, csr_mtimeh,
  csr_mscratch, csr_mideleg, csr_medeleg, csr_sepc, csr_stvec, csr_scause, csr_stval, csr_satp,
  csr_sscratch,
}

abbrev pub registers : ℕ
registers = 32

abbrev pub riscv_regno_gpr31 : ℕ
riscv_regno_gpr31 = 31

abbrev pub riscv_regno_pc : ℕ
riscv_regno_pc = 32

abbrev pub riscv_regno_csr0 : ℕ
riscv_regno_csr0 = 65

abbrev pub riscv_regno_priv : ℕ
riscv_regno_priv = 4161

-- A CPU register that set_register and get_register name by `m_csr_x`.
pub data Field : Type 0 where
  mepc mcause msr mevec mie mip mtime mtimecmp mscratch mideleg medeleg sepc sevec scause stval satp
        sscratch :
      Field

unfoldable pub get_field : Field → Csr → ℕ
get_field mepc c = c.mepc
get_field mcause c = c.mcause
get_field msr c = c.msr
get_field mevec c = c.mevec
get_field mie c = c.mie
get_field mip c = c.mip
get_field mtime c = c.mtime
get_field mtimecmp c = c.mtimecmp
get_field mscratch c = c.mscratch
get_field mideleg c = c.mideleg
get_field medeleg c = c.medeleg
get_field sepc c = c.sepc
get_field sevec c = c.sevec
get_field scause c = c.scause
get_field stval c = c.stval
get_field satp c = c.satp
get_field sscratch c = c.sscratch

unfoldable pub set_field : Field → ℕ → Csr → Csr
set_field mepc v c = record c { mepc = v }
set_field mcause v c = record c { mcause = v }
set_field msr v c = record c { msr = v }
set_field mevec v c = record c { mevec = v }
set_field mie v c = record c { mie = v }
set_field mip v c = record c { mip = v }
set_field mtime v c = record c { mtime = v }
set_field mtimecmp v c = record c { mtimecmp = v }
set_field mscratch v c = record c { mscratch = v }
set_field mideleg v c = record c { mideleg = v }
set_field medeleg v c = record c { medeleg = v }
set_field sepc v c = record c { sepc = v }
set_field sevec v c = record c { sevec = v }
set_field scause v c = record c { scause = v }
set_field stval v c = record c { stval = v }
set_field satp v c = record c { satp = v }
set_field sscratch v c = record c { sscratch = v }

-- The chain of tests behind the general registers and the pc.
unfoldable pub field_of : ℕ → Option Field
field_of r =
    if r == riscv_regno_csr0 + csr_mepc
    then some mepc
    else if r == riscv_regno_csr0 + csr_mcause
    then some mcause
    else if r == riscv_regno_csr0 + csr_mstatus
    then some msr
    else if r == riscv_regno_csr0 + csr_mtvec
    then some mevec
    else if r == riscv_regno_csr0 + csr_mie
    then some mie
    else if r == riscv_regno_csr0 + csr_mip
    then some mip
    else if r == riscv_regno_csr0 + csr_mtime
    then some mtime
    else if r == riscv_regno_csr0 + csr_mtimeh
    then some mtimecmp
    else if r == riscv_regno_csr0 + csr_mscratch
    then some mscratch
    else if r == riscv_regno_csr0 + csr_mideleg
    then some mideleg
    else if r == riscv_regno_csr0 + csr_medeleg
    then some medeleg
    else if r == riscv_regno_csr0 + csr_sepc
    then some sepc
    else if r == riscv_regno_csr0 + csr_stvec
    then some sevec
    else if r == riscv_regno_csr0 + csr_scause
    then some scause
    else if r == riscv_regno_csr0 + csr_stval
    then some stval
    else if r == riscv_regno_csr0 + csr_satp
    then some satp
    else if r == riscv_regno_csr0 + csr_sscratch
    then some sscratch
    else none

unfoldable pub set_register : Riscv → ℕ → ℕ → Riscv
unfolding set_field
set_register cpu r v =
    if leb r riscv_regno_gpr31
    then record cpu { gpr = set cpu.gpr r v }
    else if r == riscv_regno_pc
    then record cpu { pc = v }
    else elim (field_of r) [
      | none ↦
          if r == riscv_regno_priv then record cpu { csr = record cpu.csr { mpriv = v } } else cpu
      | some f ↦ record cpu { csr = set_field f v cpu.csr }
    ]

unfoldable pub get_register : Riscv → ℕ → ℕ
unfolding get_field
get_register cpu r =
    if leb r riscv_regno_gpr31
    then get_or cpu.gpr r 0
    else if r == riscv_regno_pc
    then cpu.pc
    else elim (field_of r) [
      | none ↦ if r == riscv_regno_priv then cpu.csr.mpriv else 0
      | some f ↦ get_field f cpu.csr
    ]

unfoldable pub set_pc : Riscv → ℕ → Riscv
set_pc cpu pc = record cpu { pc = pc; pc_x = pc }

-- assert(irq == 0)
unfoldable pub set_interrupt : Riscv → ℕ → Outcome Riscv
set_interrupt cpu irq =
    if irq == 0
    then done (record cpu { csr = record cpu.csr { mip = bit_or cpu.csr.mip sr_ip_meip } })
    else aborted

abbrev pub zero_stats : Stats
zero_stats = record { instructions = 0; loads = 0; stores = 0; branches = 0 }

unfoldable pub stats_reset : Riscv → Riscv
stats_reset cpu = record cpu { stats = zero_stats }

abbrev pub zero_csr : Csr
zero_csr = record {
  mepc = 0;
  mcause = 0;
  msr = 0;
  mpriv = priv_machine;
  mevec = 0;
  mie = 0;
  mip = 0;
  mtime = 0;
  mtimecmp = 0;
  mscratch = 0;
  mideleg = 0;
  medeleg = 0;
  sepc = 0;
  sevec = 0;
  scause = 0;
  stval = 0;
  satp = 0;
  sscratch = 0;
}

-- The memory, the breakpoints, the console and the queued events stay.
unfoldable pub reset : Riscv → ℕ → Riscv
unfolding stats_reset
reset cpu start_addr = stats_reset (record cpu {
  pc = start_addr;
  pc_x = start_addr;
  gpr = replicate registers 0;
  csr = zero_csr;
  fault = false;
  break = false;
  trace = 0;
})
