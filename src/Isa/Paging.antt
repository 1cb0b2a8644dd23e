-- ===== src/Isa/Paging.antt =====
-- riscv_isa.h: the satp register, page sizes and the flags of a page table entry.
use riscv_v2f_optimized.Prelude.{ℕ}

abbrev pub satp_ppn_shift : ℕ
satp_ppn_shift = 0

abbrev pub satp_ppn_mask : ℕ
satp_ppn_mask = 0x3F_FFFF

abbrev pub satp_mode : ℕ
satp_mode = 0x8000_0000

abbrev pub mmu_levels : ℕ
mmu_levels = 2

abbrev pub mmu_ptidxbits : ℕ
mmu_ptidxbits = 10

abbrev pub mmu_ptesize : ℕ
mmu_ptesize = 4

abbrev pub mmu_pgshift : ℕ
mmu_pgshift = 12

abbrev pub mmu_pgsize : ℕ
mmu_pgsize = 0x1000

abbrev pub mmu_va_bits : ℕ
mmu_va_bits = 32

abbrev pub page_present : ℕ
page_present = 0x1

abbrev pub page_read : ℕ
page_read = 0x2

abbrev pub page_write : ℕ
page_write = 0x4

abbrev pub page_exec : ℕ
page_exec = 0x8

abbrev pub page_user : ℕ
page_user = 0x10

abbrev pub page_flags : ℕ
page_flags = 0x3FF

abbrev pub page_pfn_shift : ℕ
page_pfn_shift = 10

abbrev pub page_size : ℕ
page_size = 4096
