-- ===== src/Examples/Paging.antt =====
-- A page table of two entries that maps the page in which it lies itself.
use riscv_v2f_optimized.Prelude.{true, false, ◌≡◌, refl, arith, [], ◌∷◌, none}
use riscv_v2f_optimized.Prelude.Outcome.{done}
use riscv_v2f_optimized.Memory.{load_memory, word_at}
use riscv_v2f_optimized.Machine.{Riscv}
use riscv_v2f_optimized.Regions.{load_regions, in_region}
use riscv_v2f_optimized.Registers.{zero_csr}
use riscv_v2f_optimized.Isa.Trap.{mcause_page_fault_inst, mcause_page_fault_load}
use riscv_v2f_optimized.Trap.{exception}
use riscv_v2f_optimized.Mmu.{mmu_read_word, mmu_i_translate, mmu_d_translate}
use riscv_v2f_optimized.Mmu.Sv32.{
  Holds, IsMapped, page, IsUnmapped, no_table, fetch_verdict, data_verdict,
}
use riscv_v2f_optimized.Mmu.Paged.{translated, mmu_translate-IsMapped, mmu_translate-IsUnmapped}
use riscv_v2f_optimized.Examples.{machine_with}

-- The root table lies at 0x1000; its first entry points to 0x1000 again, its second maps a page there.
abbrev paged : Riscv
paged = record (machine_with (record zero_csr { mpriv = 1; satp = 0x8000_0001 })) {
  regions =
      record { base = 0x1000; size = 8; mem = record { words = 0x401 ∷ 0x40F ∷ []; size = 8 } }
      ∷ [];
}

first_entry : Holds paged 0x1000 0x401
unfolding mmu_read_word load_regions in_region load_memory word_at
first_entry = refl

second_entry : Holds paged 0x1004 0x40F
unfolding mmu_read_word load_regions in_region load_memory word_at
second_entry = refl

no_third_entry : mmu_read_word paged 0x1008 ≡ done none
unfolding mmu_read_word load_regions in_region load_memory word_at
no_third_entry = refl

mapped : IsMapped paged 0x1234 0x40F 1
mapped = page 0x401 first_entry (refl, refl) second_entry (refl, omega arith) refl

unmapped : IsUnmapped paged 0x2000
unmapped = no_table 0x401 first_entry (refl, refl) no_third_entry

mmu_translate-IsMapped_example :
    (mmu_i_translate paged 0x1234
      ≡ translated paged mcause_page_fault_inst 0x1234 0x1234 0x1234 (fetch_verdict true 0x40F))
    × (mmu_d_translate paged 0x1000 0x1234 false
        ≡ translated paged mcause_page_fault_load 0x1000 0x1234 0x1234
            (data_verdict true false false 0x40F))
mmu_translate-IsMapped_example =
    mmu_translate-IsMapped paged 0x1000 0x1234 false (omega arith) refl (omega arith) 0x40F 1 0x401
      mapped (omega arith) first_entry

mmu_translate-IsUnmapped_example :
    (mmu_i_translate paged 0x2000
      ≡ done (exception paged mcause_page_fault_inst 0x2000 0x2000, none))
    × (mmu_d_translate paged 0x1000 0x2000 false
        ≡ done (exception paged mcause_page_fault_load 0x1000 0x2000, none))
mmu_translate-IsUnmapped_example =
    mmu_translate-IsUnmapped paged 0x1000 0x2000 false (omega arith) refl (omega arith) unmapped
