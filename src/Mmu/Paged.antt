-- ===== src/Mmu/Paged.antt =====
-- Translation with Sv32 on: instructions and data reach the page that the tables map, as far as the
-- entry lets the privilege level, and else the access is a page fault.
use riscv_v2f_optimized.Prelude.{
  ℕ, ◌+◌, ◌*◌, ◌/◌, ◌%◌, ◌^◌, ◌<◌, ◌≤◌, Bool, true, false, ◌==◌, if◌then◌else◌, ◌≡◌, refl, arith,
  bit_and, none, some, Option, ltb,
}
use riscv_v2f_optimized.Prelude.Outcome.{Outcome, done, ◌>>=◌, >>=-done}
use riscv_v2f_optimized.Word.{add32, shl32, shr32, nonzero}
use riscv_v2f_optimized.Word.Bits.{bit_and_mask}
use riscv_v2f_optimized.Machine.{Riscv}
use riscv_v2f_optimized.Regions.{error}
use riscv_v2f_optimized.Trap.{exception}
use riscv_v2f_optimized.Isa.Trap.{
  mcause_page_fault_inst, mcause_page_fault_load, mcause_page_fault_store, sr_sum,
}
use riscv_v2f_optimized.Mmu.{
  mmu_walk, is_reserved, page_address, i_page_fault, d_page_fault, mmu_i_translate, mmu_d_translate,
}
use riscv_v2f_optimized.Mmu.Sv32.{
  Holds, IsMapped, IsUnmapped, Verdict, granted, refused, fatal, fetch_verdict, data_verdict,
}
use riscv_v2f_optimized.Mmu.Flags.{outcome_of, d_page_fault-walked, i_page_fault-walked}
use riscv_v2f_optimized.Mmu.Walk.{walked, mmu_walk-IsMapped, mmu_walk-IsUnmapped}

-- What a translation returns: the physical address, or the exception.
abbrev pub translated : Riscv → ℕ → ℕ → ℕ → ℕ → Verdict → Outcome (Riscv × Option ℕ)
translated cpu cause pc va pa granted = done (cpu, some pa)
translated cpu cause pc va pa refused = done (exception cpu cause pc va, none)
translated cpu cause pc va pa fatal = error

abbrev pub data_cause : Bool → ℕ
data_cause is_write = if is_write then mcause_page_fault_store else mcause_page_fault_load

settle :
    (cpu : Riscv) (cause pc va pa : ℕ) (v : Verdict) (m : Outcome Bool) (p : ℕ)
    → p ≡ pa
    → m ≡ outcome_of v
    → (m >>= λ page_fault.
        done (if page_fault then (exception cpu cause pc va, none) else (cpu, some p)))
      ≡ translated cpu cause pc va pa v
unfolding outcome_of
settle cpu cause pc va pa granted m p e h = rw (h, e) refl
settle cpu cause pc va pa refused m p e h = rw h refl
settle cpu cause pc va pa fatal m p e h = rw h refl

page_address-walked :
    (e ppn va : ℕ) → ppn < 2 ^ 20 → page_address (walked e ppn) va ≡ ppn * 4096 + va % 4096
unfolding page_address add32 shl32 shr32
page_address-walked e ppn va h = omega (arith, bit_and_mask 12 va)

i_page_fault-zero : (cpu : Riscv) → i_page_fault cpu 0 ≡ outcome_of refused
unfolding i_page_fault is_reserved outcome_of
i_page_fault-zero cpu = ground arith

d_page_fault-zero :
    (cpu : Riscv) (is_write : Bool) → d_page_fault cpu 0 is_write ≡ outcome_of refused
unfolding d_page_fault is_reserved outcome_of
d_page_fault-zero cpu true = ground arith
d_page_fault-zero cpu false = ground arith

not_machine : (p : ℕ) → p ≤ 1 → ltb 1 p ≡ false
not_machine p h = ground arith

module _ (cpu : Riscv) (pc va : ℕ) (is_write : Bool) (small : va < 2 ^ 32)
    (on : cpu.csr.satp / 2 ^ 31 ≡ 1) (low : cpu.csr.mpriv ≤ 1) where
  -- With Sv32 on, in supervisor and user mode: where the tables map an address to a page that lies in a
  -- memory, a fetch and a load or store get the address in that page as far as the entry allows it, and
  -- else raise the page fault; supervisor mode on a page of user mode without SUM, or a fetch from it,
  -- ends the simulation.
  pub mmu_translate-IsMapped :
      (e ppn w : ℕ)
      → IsMapped cpu va e ppn
      → ppn < 2 ^ 20
      → Holds cpu (ppn * 4096) w
      → (mmu_i_translate cpu va
          ≡ translated cpu mcause_page_fault_inst va va
              (ppn * 4096 + va % 4096)
              (fetch_verdict (cpu.csr.mpriv == 1) e))
        × (mmu_d_translate cpu pc va is_write
            ≡ translated cpu (data_cause is_write) pc va (ppn * 4096 + va % 4096) (
                data_verdict
                  (cpu.csr.mpriv == 1)
                  (nonzero (bit_and cpu.csr.msr sr_sum))
                  is_write
                  e))
  unfolding mmu_i_translate mmu_d_translate
  mmu_translate-IsMapped e ppn w m fits there = (
    rw (not_machine cpu.csr.mpriv low) (
        >>=-done _ walk (
          settle cpu mcause_page_fault_inst va va (ppn * 4096 + va % 4096) _ _ _ address
            (i_page_fault-walked cpu e ppn))),
    rw (not_machine cpu.csr.mpriv low) (
        >>=-done _ walk (
          settle cpu (data_cause is_write) pc va (ppn * 4096 + va % 4096) _ _ _ address
            (d_page_fault-walked cpu e ppn is_write))),
  )
    where
      walk : mmu_walk cpu va ≡ done (walked e ppn)
      walk = mmu_walk-IsMapped cpu va small on e ppn w m fits there

      address : page_address (walked e ppn) va ≡ ppn * 4096 + va % 4096
      address = page_address-walked e ppn va fits

  -- With Sv32 on, in supervisor and user mode: where the tables have no entry for an address, fetches,
  -- loads and stores raise their page faults.
  pub mmu_translate-IsUnmapped :
      IsUnmapped cpu va
      → (mmu_i_translate cpu va ≡ done (exception cpu mcause_page_fault_inst va va, none))
        × (mmu_d_translate cpu pc va is_write
            ≡ done (exception cpu (data_cause is_write) pc va, none))
  unfolding mmu_i_translate mmu_d_translate
  mmu_translate-IsUnmapped u = (
    rw (not_machine cpu.csr.mpriv low) (
        >>=-done _ walk (
          settle cpu mcause_page_fault_inst va va (page_address 0 va) refused _ _ refl
            (i_page_fault-zero cpu))),
    rw (not_machine cpu.csr.mpriv low) (
        >>=-done _ walk (
          settle cpu (data_cause is_write) pc va (page_address 0 va) refused _ _ refl
            (d_page_fault-zero cpu is_write))),
  )
    where
      walk : mmu_walk cpu va ≡ done 0
      walk = mmu_walk-IsUnmapped cpu va small on u
