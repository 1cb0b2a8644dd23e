-- ===== src/Mmu.antt =====
-- riscv.cpp under CONFIG_MMU, the default of the makefile: the page table walk and the two
-- translations.
pub mod Bare
pub mod Sv32
pub mod Walk
pub mod Flags
pub mod Paged
use riscv_v2f_optimized.Prelude.{
  ℕ, zero, suc, ◌+◌, ◌-◌, ◌*◌, ◌/◌, ◌^◌, Bool, true, false, not, ◌&&◌, ◌||◌, ltb, ◌==◌,
  if◌then◌else◌, Option, none, some, bit_and, bit_or,
}
use riscv_v2f_optimized.Prelude.Outcome.{Outcome, done, undefined, ◌>>=◌, ◌>>◌}
use riscv_v2f_optimized.Word.{u32, add32, shl32, shr32, asr32, nonzero}
use riscv_v2f_optimized.Memory.{assert}
use riscv_v2f_optimized.Machine.{Riscv}
use riscv_v2f_optimized.Regions.{load_regions, error}
use riscv_v2f_optimized.Trap.{exception}
use riscv_v2f_optimized.Isa.Trap.{
  priv_super, sr_sum, mcause_page_fault_inst, mcause_page_fault_load, mcause_page_fault_store,
}
use riscv_v2f_optimized.Isa.Paging.{
  satp_ppn_shift, satp_ppn_mask, satp_mode, mmu_levels, mmu_ptidxbits, mmu_ptesize, mmu_pgshift,
  mmu_pgsize, mmu_va_bits, page_present, page_read, page_write, page_exec, page_user, page_flags,
  page_pfn_shift, page_size,
}

unfoldable pub mmu_read_word : Riscv → ℕ → Outcome (Option ℕ)
mmu_read_word cpu address = load_regions cpu.regions address 4 false

-- The end of that branch: the value fits 32 bits, and the page can be read.
unfoldable pub mmu_page : Riscv → ℕ → Outcome ℕ
unfolding shr32 shl32
mmu_page cpu value = do
  assert (value / 2 ^ 32 == 0)
  found ← mmu_read_word cpu (shl32 (shr32 value mmu_pgshift) mmu_pgshift)
  elim found [ none ↦ error | some w ↦ done value ]

-- The branch for the actual PTE, found at the level whose index lies at `ptshift`. The value is a
-- uint64_t.
unfoldable pub mmu_leaf : Riscv → ℕ → ℕ → ℕ → Outcome ℕ
unfolding shr32 mmu_page
mmu_leaf cpu addr ptshift entry =
    let vpn = shr32 addr mmu_pgshift in
    let frame = bit_or (shr32 entry page_pfn_shift) (bit_and vpn (2 ^ ptshift - 1)) in
    mmu_page cpu (bit_or (frame * 2 ^ mmu_pgshift) (bit_and entry page_flags))

-- One round of the loop over the levels: the entry is missing or not present, points to the next
-- table, or is a leaf.
unfoldable pub mmu_round : Riscv → ℕ → ℕ → ℕ → (ℕ → Outcome ℕ) → (ℕ → Outcome ℕ) → Outcome ℕ
unfolding shr32 add32 shl32
mmu_round cpu addr base shift leaf next =
    let idx = bit_and (shr32 addr shift) (2 ^ mmu_ptidxbits - 1) in
    do
      found ← mmu_read_word cpu (add32 base (idx * mmu_ptesize))
      elim found [
        | none ↦ done 0
        | some entry ↦
            if not (nonzero (bit_and entry page_present))
            then done 0
            else if not (nonzero (bit_and entry (page_read + page_write + page_exec)))
            then next (shl32 (shr32 entry page_pfn_shift) mmu_pgshift)
            else leaf entry
      ]

-- `for (i=MMU_LEVELS-1; i >= 0; i--)` with an unsigned `i`, which is never negative: behind level
-- 0 it is 0xFFFFFFFF, ptshift is -10 and the index is taken at bit 12 - 10. A leaf found there
-- shifts by -10, and one round more would shift the address by -8.
unfoldable pub mmu_overrun : Riscv → ℕ → ℕ → Outcome ℕ
unfolding mmu_round
mmu_overrun cpu addr base =
    mmu_round cpu addr base (mmu_pgshift - mmu_ptidxbits) (λ _. undefined) (λ _. undefined)

unfoldable pub mmu_levels_from : Riscv → ℕ → ℕ → ℕ → Outcome ℕ
unfolding mmu_round mmu_overrun mmu_leaf
mmu_levels_from cpu addr zero base =
    mmu_round cpu addr base mmu_pgshift (mmu_leaf cpu addr 0) (mmu_overrun cpu addr)
mmu_levels_from cpu addr (suc i) base =
    mmu_round cpu addr base (mmu_pgshift + suc i * mmu_ptidxbits)
      (mmu_leaf cpu addr (suc i * mmu_ptidxbits)) (mmu_levels_from cpu addr i)

-- ((int32_t)addr << shift >> shift) != (int32_t)addr, with shift = 32 - MMU_VA_BITS
unfoldable pub is_canonical : ℕ → Bool
unfolding asr32 shl32
is_canonical addr = asr32 (shl32 addr (32 - mmu_va_bits)) (32 - mmu_va_bits) == addr

unfoldable pub mmu_walk : Riscv → ℕ → Outcome ℕ
unfolding is_canonical shr32 shl32 u32
mmu_walk cpu addr =
    if not (is_canonical addr)
    then error
    else if bit_and cpu.csr.satp satp_mode == 0
    then done (
        bit_or (page_present + page_read + page_write + page_exec)
          (shl32 (shr32 addr mmu_pgshift) mmu_pgshift))
    else mmu_levels_from cpu addr (mmu_levels - 1)
        (u32 (bit_and (shr32 cpu.csr.satp satp_ppn_shift) satp_ppn_mask * page_size))

-- Writable without being readable, executable or not.
unfoldable pub is_reserved : ℕ → Bool
is_reserved pte =
    bit_and pte (page_exec + page_read + page_write) == page_write
    || bit_and pte (page_exec + page_read + page_write) == page_exec + page_write

unfoldable pub page_address : ℕ → ℕ → ℕ
unfolding add32 shl32 shr32
page_address pte addr =
    add32 (shl32 (shr32 pte mmu_pgshift) mmu_pgshift) (bit_and addr (mmu_pgsize - 1))

abbrev pub all_of : ℕ → ℕ → Bool
all_of pte flags = bit_and pte flags == flags

-- page_fault of mmu_i_translate
unfoldable pub i_page_fault : Riscv → ℕ → Outcome Bool
unfolding is_reserved
i_page_fault cpu pte =
    if is_reserved pte
    then done true
    else if cpu.csr.mpriv == priv_super
    then (if nonzero (bit_and pte page_user) then error else done (not (all_of pte page_exec)))
    else done (not (all_of pte (page_exec + page_user)))

-- The second part is *physical, none where the function returns 0.
unfoldable pub mmu_i_translate : Riscv → ℕ → Outcome (Riscv × Option ℕ)
mmu_i_translate cpu addr = if ltb priv_super cpu.csr.mpriv then done (cpu, some addr) else do
  pte ← mmu_walk cpu addr
  page_fault ← i_page_fault cpu pte
  done (
      if page_fault
      then (exception cpu mcause_page_fault_inst addr addr, none)
      else (cpu, some (page_address pte addr)))

-- page_fault of mmu_d_translate
unfoldable pub d_page_fault : Riscv → ℕ → Bool → Outcome Bool
unfolding is_reserved
d_page_fault cpu pte is_write =
    if is_reserved pte
    then done true
    else if cpu.csr.mpriv == priv_super
    then (if nonzero (bit_and pte page_user) && not (nonzero (bit_and cpu.csr.msr sr_sum))
        then error
        else done (
            (is_write && not (all_of pte page_write))
            || (not is_write && not (all_of pte page_read))))
    else done (
        (is_write && not (all_of pte (page_write + page_user)))
        || (not is_write && not (all_of pte (page_read + page_user))))

unfoldable pub mmu_d_translate : Riscv → ℕ → ℕ → Bool → Outcome (Riscv × Option ℕ)
mmu_d_translate cpu pc addr is_write =
    if ltb priv_super cpu.csr.mpriv then done (cpu, some addr) else do
      pte ← mmu_walk cpu addr
      page_fault ← d_page_fault cpu pte is_write
      done (
          if page_fault
          then (
            exception cpu (if is_write then mcause_page_fault_store else mcause_page_fault_load) pc
                addr,
            none,
          )
          else (cpu, some (page_address pte addr)))
