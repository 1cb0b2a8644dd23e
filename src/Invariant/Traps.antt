-- ===== src/Invariant/Traps.antt =====
-- Traps, returns and interrupts keep the invariant.
use riscv_v2f_optimized.Prelude.{
  ℕ, zero, suc, ◌+◌, ◌^◌, ◌≤◌, ◌<◌, Bool, true, false, ◌==◌, ◌≡◌, inl, inr, refl, Option, none,
  some, bit_and, arith, Bool-cases,
}
use riscv_v2f_optimized.Prelude.Outcome.{Ensures}
use riscv_v2f_optimized.Word.{shl32, shr32, nonzero}
use riscv_v2f_optimized.Word.Bits.{bit_and-lt_right, bit_or-lt}
use riscv_v2f_optimized.Machine.{Riscv}
use riscv_v2f_optimized.Trap.{
  enter_super, enter_machine, leave_machine, leave_super, sr_get_mpp, is_delegated, exception,
  mret_return, sret_return, lowest_irq, serve_irq, take_interrupt, enabled_interrupts,
}
use riscv_v2f_optimized.Isa.Trap.{mcause_interrupt, priv_super, priv_machine}
use riscv_v2f_optimized.Invariant.State.{IsValid}

enter_super-lt : (p s : ℕ) → enter_super p s < 2 ^ 32
unfolding enter_super
enter_super-lt p s =
    bit_or-lt 32 _ _ (bit_and-lt_right 32 _ 0xFFFF_FEFF (omega arith)) (ground arith)

enter_machine-lt : (p s : ℕ) → enter_machine p s < 2 ^ 32
unfolding enter_machine shl32
enter_machine-lt p s =
    bit_or-lt 32 _ _ (bit_and-lt_right 32 _ 0xFFFF_E7FF (omega arith)) (omega arith)

leave_machine-lt : (s : ℕ) → leave_machine s < 2 ^ 32
unfolding leave_machine
leave_machine-lt s =
    bit_or-lt 32 _ _ (bit_and-lt_right 32 _ 0xFFFF_E7FF (omega arith)) (omega arith)

leave_super-lt : (s : ℕ) → leave_super s < 2 ^ 32
unfolding leave_super
leave_super-lt s = bit_and-lt_right 32 _ 0xFFFF_FEFF (omega arith)

sr_get_mpp-le : (s : ℕ) → sr_get_mpp s ≤ 3
unfolding sr_get_mpp
sr_get_mpp-le s = omega (arith, bit_and-lt_right 2 (shr32 s 11) 3)

module _ {cpu : Riscv} (v : IsValid cpu) where
  pub exception-IsValid :
      (cause pc badaddr : ℕ)
      → cause < 2 ^ 32
      → pc < 2 ^ 32
      → badaddr < 2 ^ 32
      → IsValid (exception cpu cause pc badaddr)
  unfolding exception
  exception-IsValid cause pc badaddr hc hp hb = elim (Bool-cases (is_delegated cpu.csr cause)) [
    | inl e ↦ rw e (record {
      gpr = v.gpr;
      pc = v.csr.sevec;
      csr = omega (arith, v.csr, enter_super-lt cpu.csr.mpriv cpu.csr.msr);
      memory = v.memory;
      no_fault = v.no_fault;
    })
    | inr e ↦ rw e (record {
      gpr = v.gpr;
      pc = v.csr.mevec;
      csr = omega (arith, v.csr, enter_machine-lt cpu.csr.mpriv cpu.csr.msr);
      memory = v.memory;
      no_fault = v.no_fault;
    })
  ]

  pub mret_return-IsValid : Ensures (λ r. IsValid r.0 × (r.1 < 2 ^ 32)) (mret_return cpu)
  unfolding mret_return
  mret_return-IsValid = elim (Bool-cases (cpu.csr.mpriv == priv_machine)) [
    | inl e ↦ rw e (
      record {
        gpr = v.gpr;
        pc = v.pc;
        csr = omega (arith, v.csr, leave_machine-lt cpu.csr.msr, sr_get_mpp-le cpu.csr.msr);
        memory = v.memory;
        no_fault = v.no_fault;
      },
      v.csr.mepc,
    )
    | inr e ↦ rw e tt
  ]

  pub sret_return-IsValid : Ensures (λ r. IsValid r.0 × (r.1 < 2 ^ 32)) (sret_return cpu)
  unfolding sret_return
  sret_return-IsValid = elim (Bool-cases (cpu.csr.mpriv == priv_super)) [
    | inl e ↦ rw e (
      record {
        gpr = v.gpr;
        pc = v.pc;
        csr = ground (arith, v.csr, leave_super-lt cpu.csr.msr);
        memory = v.memory;
        no_fault = v.no_fault;
      },
      v.csr.sepc,
    )
    | inr e ↦ rw e tt
  ]

-- The loop finds a number below its end.
pub lowest_irq-lt : (left i x j : ℕ) → lowest_irq left i x ≡ some j → (i ≤ j) × (j < i + left)
unfolding lowest_irq
lowest_irq-lt zero i x j h = cc
lowest_irq-lt (suc left) i x j h = ground (arith, lowest_irq-lt left (i + 1) x j)

module _ {cpu : Riscv} (v : IsValid cpu) where
  serve_irq-IsValid :
      (pc : ℕ) (found : Option ℕ)
      → pc < 2 ^ 32
      → lowest_irq 11 1 (enabled_interrupts cpu.csr) ≡ found
      → IsValid (serve_irq cpu pc found).0
  unfolding serve_irq
  serve_irq-IsValid pc none hp e = v
  serve_irq-IsValid pc (some i) hp e =
      exception-IsValid v (mcause_interrupt + i) pc 0
        (omega (arith, lowest_irq-lt 11 1 (enabled_interrupts cpu.csr) i e)) hp (omega arith)

  pub take_interrupt-IsValid :
      (pc : ℕ) (taken : Bool) → pc < 2 ^ 32 → IsValid (take_interrupt cpu pc taken).0
  unfolding take_interrupt
  take_interrupt-IsValid pc true hp = v
  take_interrupt-IsValid pc false hp =
      elim (Bool-cases (nonzero (bit_and cpu.csr.mip cpu.csr.mie))) [
        | inl e ↦ elim (Bool-cases (nonzero (enabled_interrupts cpu.csr))) [
          | inl e' ↦ rw (e, e') (serve_irq-IsValid pc _ hp refl)
          | inr e' ↦ rw (e, e') v
        ]
        | inr e ↦ rw e v
      ]
