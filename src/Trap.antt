-- ===== src/Trap.antt =====
-- riscv.cpp: exceptions, the returns from them (mret, sret) and the choice of an interrupt.
pub mod Status
pub mod Fields
pub mod Return
pub mod Enabled
pub mod Interrupts
use riscv_v2f_optimized.Prelude.{
  ℕ, zero, suc, ◌+◌, ◌-◌, Bool, true, false, ◌&&◌, ◌||◌, ltb, leb, ◌==◌, if◌then◌else◌, Option,
  none, some, bit_and, bit_or,
}
use riscv_v2f_optimized.Prelude.Outcome.{Outcome, done, ◌>>◌}
use riscv_v2f_optimized.Word.{not32, neg32, shl32, shr32, nonzero}
use riscv_v2f_optimized.Memory.{assert}
use riscv_v2f_optimized.Machine.{Riscv, Csr}
use riscv_v2f_optimized.Isa.Trap.{
  priv_user, priv_super, priv_machine, sr_sie, sr_mie, sr_spie, sr_mpie, sr_spp, sr_mpp_shift,
  sr_mpp_mask, sr_mpp, sr_mpp_u, irq_min, irq_max, mcause_interrupt,
}

-- The status word of a trap into supervisor mode, and of one into machine mode.
unfoldable pub enter_super : ℕ → ℕ → ℕ
unfolding not32
enter_super mpriv s =
    let s1 = bit_and s (not32 sr_spie) in
    let s2 = bit_or s1 (if nonzero (bit_and s1 sr_sie) then sr_spie else 0) in
    let s3 = bit_and s2 (not32 sr_sie) in
    let s4 = bit_and s3 (not32 sr_spp) in bit_or s4 (if mpriv == priv_super then sr_spp else 0)

unfoldable pub enter_machine : ℕ → ℕ → ℕ
unfolding not32 shl32
enter_machine mpriv s =
    let s1 = bit_and s (not32 sr_mpie) in
    let s2 = bit_or s1 (if nonzero (bit_and s1 sr_mie) then sr_mpie else 0) in
    let s3 = bit_and s2 (not32 sr_mie) in
    let s4 = bit_and s3 (not32 sr_mpp) in bit_or s4 (shl32 mpriv sr_mpp_shift)

-- `m_csr_mpriv <= PRIV_SUPER && (deleg & bit)`. A cause is below 32, or 2 ^ 31 plus a number
-- below 32.
unfoldable pub is_delegated : Csr → ℕ → Bool
unfolding shl32
is_delegated csr cause =
    leb csr.mpriv priv_super
    && (if leb mcause_interrupt cause
        then nonzero (bit_and csr.mideleg (shl32 1 (cause - mcause_interrupt)))
        else nonzero (bit_and csr.medeleg (shl32 1 cause)))

-- The two branches of exception: delegated to supervisor mode, and machine mode.
unfoldable pub to_super : Riscv → ℕ → ℕ → ℕ → Riscv
to_super cpu cause pc badaddr = record cpu {
  csr = record cpu.csr {
    mpriv = priv_super;
    msr = enter_super cpu.csr.mpriv cpu.csr.msr;
    sepc = pc;
    scause = cause;
    stval = badaddr;
  };
  pc = cpu.csr.sevec;
}

unfoldable pub to_machine : Riscv → ℕ → ℕ → Riscv
to_machine cpu cause pc = record cpu {
  csr = record cpu.csr {
    mpriv = priv_machine;
    msr = enter_machine cpu.csr.mpriv cpu.csr.msr;
    mepc = pc;
    mcause = cause;
  };
  pc = cpu.csr.mevec;
}

unfoldable pub exception : Riscv → ℕ → ℕ → ℕ → Riscv
unfolding to_super to_machine
exception cpu cause pc badaddr =
    if is_delegated cpu.csr cause then to_super cpu cause pc badaddr else to_machine cpu cause pc

-- The status word after mret and after sret.
unfoldable pub leave_machine : ℕ → ℕ
unfolding not32
leave_machine s =
    let s1 = bit_and s (not32 sr_mie) in
    let s2 = bit_or s1 (if nonzero (bit_and s1 sr_mpie) then sr_mie else 0) in
    let s3 = bit_or s2 sr_mpie in let s4 = bit_and s3 (not32 sr_mpp) in bit_or s4 sr_mpp_u

unfoldable pub leave_super : ℕ → ℕ
unfolding not32
leave_super s =
    let s1 = bit_and s (not32 sr_sie) in
    let s2 = bit_or s1 (if nonzero (bit_and s1 sr_spie) then sr_sie else 0) in
    let s3 = bit_or s2 sr_spie in bit_and s3 (not32 sr_spp)

-- SR_GET_MPP
unfoldable pub sr_get_mpp : ℕ → ℕ
unfolding shr32
sr_get_mpp s = bit_and (shr32 s sr_mpp_shift) sr_mpp_mask

-- The branches INST_MRET and INST_SRET: the new state and the new pc.
unfoldable pub mret_return : Riscv → Outcome (Riscv × ℕ)
mret_return cpu = do
  assert (cpu.csr.mpriv == priv_machine)
  done (
    record cpu {
      csr = record cpu.csr { mpriv = sr_get_mpp cpu.csr.msr; msr = leave_machine cpu.csr.msr };
    },
    cpu.csr.mepc,
  )

unfoldable pub sret_return : Riscv → Outcome (Riscv × ℕ)
sret_return cpu = do
  assert (cpu.csr.mpriv == priv_super)
  done (
    record cpu {
      csr = record cpu.csr {
        mpriv = if nonzero (bit_and cpu.csr.msr sr_spp) then priv_super else priv_user;
        msr = leave_super cpu.csr.msr;
      };
    },
    cpu.csr.sepc,
  )

abbrev pub as_int : Bool → ℕ
as_int true = 1
as_int false = 0

-- m_enabled and s_enabled
unfoldable pub m_enabled : Csr → Bool
m_enabled csr =
    ltb csr.mpriv priv_machine || (csr.mpriv == priv_machine && nonzero (bit_and csr.msr sr_mie))

unfoldable pub s_enabled : Csr → Bool
s_enabled csr =
    ltb csr.mpriv priv_super || (csr.mpriv == priv_super && nonzero (bit_and csr.msr sr_sie))

-- The set of interrupts that may be taken now.
unfoldable pub enabled_interrupts : Csr → ℕ
unfolding not32 neg32 m_enabled s_enabled
enabled_interrupts csr =
    let pending_interrupts = bit_and csr.mip csr.mie in
    let m_interrupts =
      bit_and (bit_and pending_interrupts (not32 csr.mideleg)) (neg32 (as_int (m_enabled csr))) in
    let s_interrupts =
      bit_and (bit_and pending_interrupts csr.mideleg) (neg32 (as_int (s_enabled csr))) in
    if nonzero m_interrupts then m_interrupts else s_interrupts

-- `for (i=IRQ_MIN;i<IRQ_MAX;i++)` with `left` rounds to go: the first `i` whose bit is set.
unfoldable pub lowest_irq : ℕ → ℕ → ℕ → Option ℕ
unfolding shl32
lowest_irq zero i interrupts = none
lowest_irq (suc left) i interrupts =
    let rest = lowest_irq left (i + 1) interrupts in
    if nonzero (bit_and interrupts (shl32 1 i)) then some i else rest

-- The loop's body for the interrupt that it finds; without one the instruction retires.
unfoldable pub serve_irq : Riscv → ℕ → Option ℕ → Riscv × Bool
serve_irq cpu pc none = (cpu, false)
serve_irq cpu pc (some i) = (exception cpu (mcause_interrupt + i) pc 0, true)

-- The block `if (!take_exception && (m_csr_mip & m_csr_mie))`: the state, and take_exception.
unfoldable pub take_interrupt : Riscv → ℕ → Bool → Riscv × Bool
unfolding serve_irq
take_interrupt cpu pc true = (cpu, true)
take_interrupt cpu pc false =
    if nonzero (bit_and cpu.csr.mip cpu.csr.mie)
    then (if nonzero (enabled_interrupts cpu.csr)
        then serve_irq cpu pc (lowest_irq (irq_max - irq_min) irq_min (enabled_interrupts cpu.csr))
        else (cpu, false))
    else (cpu, false)
