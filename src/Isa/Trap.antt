-- ===== src/Isa/Trap.antt =====
-- riscv_isa.h: privilege levels, the bits of the status register, interrupt numbers and causes.
use riscv_v2f_optimized.Prelude.{ℕ}

abbrev pub priv_user : ℕ
priv_user = 0

abbrev pub priv_super : ℕ
priv_super = 1

abbrev pub priv_machine : ℕ
priv_machine = 3

abbrev pub sr_sie : ℕ
sr_sie = 0x2

abbrev pub sr_mie : ℕ
sr_mie = 0x8

abbrev pub sr_spie : ℕ
sr_spie = 0x20

abbrev pub sr_mpie : ℕ
sr_mpie = 0x80

abbrev pub sr_spp : ℕ
sr_spp = 0x100

abbrev pub sr_mpp_shift : ℕ
sr_mpp_shift = 11

abbrev pub sr_mpp_mask : ℕ
sr_mpp_mask = 0x3

abbrev pub sr_mpp : ℕ
sr_mpp = 0x1800

abbrev pub sr_mpp_u : ℕ
sr_mpp_u = 0

abbrev pub sr_sum : ℕ
sr_sum = 0x4_0000

-- SR_UIE | SR_SIE | SR_UPIE | SR_SPIE | SR_SPP | SR_SUM
abbrev pub sr_smode_mask : ℕ
sr_smode_mask = 0x4_0133

abbrev pub irq_min : ℕ
irq_min = 1

abbrev pub irq_max : ℕ
irq_max = 12

-- The six interrupts 1, 3, 5, 7, 9 and 11.
abbrev pub irq_mask : ℕ
irq_mask = 0xAAA

abbrev pub sr_ip_mtip : ℕ
sr_ip_mtip = 0x80

abbrev pub sr_ip_meip : ℕ
sr_ip_meip = 0x800

abbrev pub sr_ip_stip : ℕ
sr_ip_stip = 0x20

abbrev pub mcause_illegal_instruction : ℕ
mcause_illegal_instruction = 2

abbrev pub mcause_breakpoint : ℕ
mcause_breakpoint = 3

abbrev pub mcause_ecall_u : ℕ
mcause_ecall_u = 8

abbrev pub mcause_page_fault_inst : ℕ
mcause_page_fault_inst = 12

abbrev pub mcause_page_fault_load : ℕ
mcause_page_fault_load = 13

abbrev pub mcause_page_fault_store : ℕ
mcause_page_fault_store = 15

abbrev pub mcause_interrupt : ℕ
mcause_interrupt = 0x8000_0000
