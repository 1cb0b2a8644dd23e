-- ===== src/CsrAccess.antt =====
-- riscv.cpp: Riscv::access_csr.
pub mod Bits
use riscv_v2f_optimized.Prelude.{
  ℕ, zero, suc, Bool, true, false, ◌&&◌, ◌==◌, if◌then◌else◌, List, [], ◌∷◌, ◌++◌, Option, none,
  some, get_or, bit_and, bit_or,
}
use riscv_v2f_optimized.Prelude.Outcome.{Outcome, done, exited, undefined, ◌>>=◌}
use riscv_v2f_optimized.Word.{u32, add32, shr32, not32, nonzero}
use riscv_v2f_optimized.Machine.{Riscv, Csr, console_char, stderr_char, formatted}
use riscv_v2f_optimized.Regions.{error, read}
use riscv_v2f_optimized.Mmu.{mmu_walk, page_address}
use riscv_v2f_optimized.Registers.{
  Field, mepc, mcause, msr, mevec, mie, mip, mscratch, mideleg, medeleg, sepc, sevec, scause, stval,
  satp, sscratch, get_field, set_field,
}
use riscv_v2f_optimized.Isa.Trap.{sr_ip_stip, sr_ip_mtip}
use riscv_v2f_optimized.Isa.Csr.{
  csr_dscratch, csr_sim_ctrl, csr_mstatus, csr_mstatus_mask, csr_misa, csr_medeleg,
  csr_medeleg_mask, csr_mideleg, csr_mideleg_mask, csr_mie, csr_mie_mask, csr_mtvec, csr_mtvec_mask,
  csr_mscratch, csr_mscratch_mask, csr_mepc, csr_mepc_mask, csr_mcause, csr_mcause_mask, csr_mip,
  csr_mip_mask, csr_mtime, csr_mtime_mask, csr_mtimeh, csr_mhartid, csr_pmpcfg0, csr_pmpcfg1,
  csr_pmpcfg2, csr_pmpaddr0, csr_sstatus, csr_sstatus_mask, csr_sie, csr_sie_mask, csr_stvec,
  csr_stvec_mask, csr_sscratch, csr_sscratch_mask, csr_sepc, csr_sepc_mask, csr_scause,
  csr_scause_mask, csr_stval, csr_stval_mask, csr_sip, csr_sip_mask, csr_satp, csr_satp_mask,
  csr_sim_ctrl_exit, csr_sim_ctrl_putc, csr_sim_ctrl_getc, csr_sim_ctrl_trace, csr_sim_printf,
  mhartid_value, misa_value,
}

-- The labels of `switch (address & 0xFFF)`: CSR_STD(name, variable) with its mask, CSR_CONST, and
-- the special ones.
pub data CsrCase : Type 0 where
  simulation : CsrCase
  std : Field → ℕ → CsrCase
  const : ℕ → CsrCase
  time timeh unsupported : CsrCase

pub record Label : Type 0 where
  pub number : ℕ
  pub case : CsrCase

abbrev pub label : ℕ → CsrCase → Label
label a c = record { number = a; case = c }

abbrev pub control_labels : List Label
control_labels = label csr_dscratch simulation ∷ label csr_sim_ctrl simulation ∷ []

abbrev pub machine_labels : List Label
machine_labels =
    label csr_mepc (std mepc csr_mepc_mask)
    ∷ label csr_mtvec (std mevec csr_mtvec_mask)
    ∷ label csr_mcause (std mcause csr_mcause_mask)
    ∷ label csr_mstatus (std msr csr_mstatus_mask)
    ∷ label csr_mip (std mip csr_mip_mask)
    ∷ label csr_mie (std mie csr_mie_mask)
    ∷ label csr_misa (const misa_value)
    ∷ label csr_mideleg (std mideleg csr_mideleg_mask)
    ∷ label csr_medeleg (std medeleg csr_medeleg_mask)
    ∷ label csr_mscratch (std mscratch csr_mscratch_mask)
    ∷ label csr_mhartid (const mhartid_value)
    ∷ []

abbrev pub super_labels : List Label
super_labels =
    label csr_sepc (std sepc csr_sepc_mask)
    ∷ label csr_stvec (std sevec csr_stvec_mask)
    ∷ label csr_scause (std scause csr_scause_mask)
    ∷ label csr_sip (std mip csr_sip_mask)
    ∷ label csr_sie (std mie csr_sie_mask)
    ∷ label csr_satp (std satp csr_satp_mask)
    ∷ label csr_stval (std stval csr_stval_mask)
    ∷ label csr_sscratch (std sscratch csr_sscratch_mask)
    ∷ label csr_sstatus (std msr csr_sstatus_mask)
    ∷ []

abbrev pub extension_labels : List Label
extension_labels =
    label csr_pmpcfg0 (const 0)
    ∷ label csr_pmpcfg1 (const 0)
    ∷ label csr_pmpcfg2 (const 0)
    ∷ label csr_pmpaddr0 (const 0)
    ∷ label csr_mtime time
    ∷ label csr_mtimeh timeh
    ∷ []

unfoldable pub find_label : List Label → ℕ → CsrCase
find_label [] a = unsupported
find_label (l ∷ ls) a = if a == l.number then l.case else find_label ls a

abbrev pub csr_labels : List Label
csr_labels = control_labels ++ (machine_labels ++ (super_labels ++ extension_labels))

unfoldable pub csr_case : ℕ → CsrCase
unfolding find_label
csr_case a = find_label csr_labels a

-- The macro CSR_STD: the new value of the variable.
unfoldable pub csr_std : ℕ → ℕ → ℕ → Bool → Bool → ℕ
unfolding not32
csr_std var mask operand set clr =
    let masked = bit_and operand mask in
    if set && clr
    then masked
    else if set
    then bit_or var masked
    else if clr
    then bit_and var (not32 masked)
    else var

-- The loop that copies the format string, with `left` bytes of the buffer left; none if no zero
-- byte came.
unfoldable pub read_format : Riscv → ℕ → ℕ → Outcome (Option (List ℕ))
unfolding add32
read_format cpu zero addr = done none
read_format cpu (suc left) addr = do
  c ← read cpu addr
  elim (c == 0) [
    | true ↦ done (some [])
    | false ↦ do
      rest ← read_format cpu left (add32 addr 1)
      done (elim rest [ none ↦ none | some cs ↦ some (c ∷ cs) ])
  ]

-- CSR_SIM_PRINTF. Without a zero byte among the first 1023 the C library reads on behind the
-- buffer's written part.
unfoldable pub sim_printf : Riscv → Outcome Riscv
sim_printf cpu = do
  let fmt_addr = get_or cpu.gpr 10 0
  pte ← mmu_walk cpu fmt_addr
  fmt ← read_format cpu 1023 (if nonzero pte then page_address pte fmt_addr else fmt_addr)
  elim fmt [
    | none ↦ undefined
    | some cs ↦ done (record cpu {
      output =
          cpu.output
          ++ formatted cs (get_or cpu.gpr 11 0) (get_or cpu.gpr 12 0) (get_or cpu.gpr 13 0)
              (get_or cpu.gpr 14 0)
            ∷ [];
    })
  ]

unfoldable pub sim_putc : Riscv → ℕ → Riscv
sim_putc cpu c = elim cpu.console [
  | some getchar ↦ record cpu { output = cpu.output ++ console_char c ∷ [] }
  | none ↦ record cpu { output = cpu.output ++ stderr_char c ∷ [] }
]

unfoldable pub sim_getc : Riscv → Riscv × ℕ
unfolding u32
sim_getc cpu = elim cpu.console [
  | some getchar ↦ (record cpu { reads = suc cpu.reads }, u32 (getchar cpu.reads))
  | none ↦ (cpu, 0)
]

-- `switch (data & 0xFF000000)`
unfoldable pub sim_control : Riscv → ℕ → Outcome (Riscv × ℕ)
unfolding sim_putc sim_getc
sim_control cpu d =
    let command = bit_and d 0xFF00_0000 in
    let low = bit_and d 0xFF in
    if command == csr_sim_ctrl_exit
    then exited low
    else if command == csr_sim_ctrl_putc
    then done (sim_putc cpu low, 0)
    else if command == csr_sim_ctrl_getc
    then done (sim_getc cpu)
    else if command == csr_sim_ctrl_trace
    then done (record cpu { trace = low }, 0)
    else if command == csr_sim_printf
    then (do cpu' ← sim_printf cpu; done (cpu', 0))
    else done (cpu, 0)

abbrev pub timer_bit : Csr → ℕ
timer_bit csr = if nonzero (bit_and csr.mideleg sr_ip_stip) then sr_ip_stip else sr_ip_mtip

-- A write to CSR_MTIME sets the threshold of the next timer interrupt and clears a pending one.
unfoldable pub access_time : Riscv → ℕ → Bool → Riscv × ℕ
unfolding not32 u32
access_time cpu operand set =
    let d = bit_and operand csr_mtime_mask in
    (
      if set && nonzero d
          then record cpu {
            csr = record cpu.csr {
              mtimecmp = d;
              mip = bit_and cpu.csr.mip (not32 (timer_bit cpu.csr));
            };
          }
          else cpu,
      u32 cpu.csr.mtime,
    )

unfoldable pub access_case : Riscv → CsrCase → ℕ → Bool → Bool → Outcome (Riscv × ℕ)
unfolding csr_std get_field set_field access_time shr32 u32
access_case cpu simulation d set clr = sim_control cpu d
access_case cpu (std f mask) d set clr =
    let var = get_field f cpu.csr in
    done (record cpu { csr = set_field f (csr_std var mask d set clr) cpu.csr }, bit_and var mask)
access_case cpu (const v) d set clr = done (cpu, v)
access_case cpu time d set clr = done (access_time cpu d set)
access_case cpu timeh d set clr = done (cpu, u32 (shr32 cpu.csr.mtime 32))
access_case cpu unsupported d set clr = error

unfoldable pub access_csr : Riscv → ℕ → ℕ → Bool → Bool → Outcome (Riscv × ℕ)
unfolding access_case csr_case
access_csr cpu address d set clr = access_case cpu (csr_case (bit_and address 0xFFF)) d set clr
