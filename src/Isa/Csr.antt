-- ===== src/Isa/Csr.antt =====
-- riscv_isa.h: the numbers of the control registers and the masks of their writable bits.
use riscv_v2f_optimized.Prelude.{ℕ}
use riscv_v2f_optimized.Isa.Trap.{irq_mask, sr_smode_mask}

abbrev pub csr_dscratch : ℕ
csr_dscratch = 0x7b2

abbrev pub csr_sim_ctrl : ℕ
csr_sim_ctrl = 0x8b2

abbrev pub csr_mstatus : ℕ
csr_mstatus = 0x300

abbrev pub csr_mstatus_mask : ℕ
csr_mstatus_mask = 0xFFFF_FFFF

abbrev pub csr_misa : ℕ
csr_misa = 0x301

abbrev pub csr_medeleg : ℕ
csr_medeleg = 0x302

abbrev pub csr_medeleg_mask : ℕ
csr_medeleg_mask = 0xFFFF_FFFF

abbrev pub csr_mideleg : ℕ
csr_mideleg = 0x303

abbrev pub csr_mideleg_mask : ℕ
csr_mideleg_mask = 0xFFFF_FFFF

abbrev pub csr_mie : ℕ
csr_mie = 0x304

abbrev pub csr_mie_mask : ℕ
csr_mie_mask = irq_mask

abbrev pub csr_mtvec : ℕ
csr_mtvec = 0x305

abbrev pub csr_mtvec_mask : ℕ
csr_mtvec_mask = 0xFFFF_FFFF

abbrev pub csr_mscratch : ℕ
csr_mscratch = 0x340

abbrev pub csr_mscratch_mask : ℕ
csr_mscratch_mask = 0xFFFF_FFFF

abbrev pub csr_mepc : ℕ
csr_mepc = 0x341

abbrev pub csr_mepc_mask : ℕ
csr_mepc_mask = 0xFFFF_FFFF

abbrev pub csr_mcause : ℕ
csr_mcause = 0x342

abbrev pub csr_mcause_mask : ℕ
csr_mcause_mask = 0x8000_000F

abbrev pub csr_mip : ℕ
csr_mip = 0x344

abbrev pub csr_mip_mask : ℕ
csr_mip_mask = irq_mask

abbrev pub csr_mtime : ℕ
csr_mtime = 0xc01

abbrev pub csr_mtime_mask : ℕ
csr_mtime_mask = 0xFFFF_FFFF

abbrev pub csr_mtimeh : ℕ
csr_mtimeh = 0xc81

abbrev pub csr_mhartid : ℕ
csr_mhartid = 0xF14

abbrev pub csr_pmpcfg0 : ℕ
csr_pmpcfg0 = 0x3a0

abbrev pub csr_pmpcfg1 : ℕ
csr_pmpcfg1 = 0x3a1

abbrev pub csr_pmpcfg2 : ℕ
csr_pmpcfg2 = 0x3a2

abbrev pub csr_pmpaddr0 : ℕ
csr_pmpaddr0 = 0x3b0

abbrev pub csr_sstatus : ℕ
csr_sstatus = 0x100

abbrev pub csr_sstatus_mask : ℕ
csr_sstatus_mask = sr_smode_mask

abbrev pub csr_sie : ℕ
csr_sie = 0x104

abbrev pub csr_sie_mask : ℕ
csr_sie_mask = 0x222

abbrev pub csr_stvec : ℕ
csr_stvec = 0x105

abbrev pub csr_stvec_mask : ℕ
csr_stvec_mask = 0xFFFF_FFFF

abbrev pub csr_sscratch : ℕ
csr_sscratch = 0x140

abbrev pub csr_sscratch_mask : ℕ
csr_sscratch_mask = 0xFFFF_FFFF

abbrev pub csr_sepc : ℕ
csr_sepc = 0x141

abbrev pub csr_sepc_mask : ℕ
csr_sepc_mask = 0xFFFF_FFFF

abbrev pub csr_scause : ℕ
csr_scause = 0x142

abbrev pub csr_scause_mask : ℕ
csr_scause_mask = 0x8000_000F

abbrev pub csr_stval : ℕ
csr_stval = 0x143

abbrev pub csr_stval_mask : ℕ
csr_stval_mask = 0xFFFF_FFFF

abbrev pub csr_sip : ℕ
csr_sip = 0x144

abbrev pub csr_sip_mask : ℕ
csr_sip_mask = 0x222

abbrev pub csr_satp : ℕ
csr_satp = 0x180

abbrev pub csr_satp_mask : ℕ
csr_satp_mask = 0xFFFF_FFFF

abbrev pub csr_sim_ctrl_exit : ℕ
csr_sim_ctrl_exit = 0

abbrev pub csr_sim_ctrl_putc : ℕ
csr_sim_ctrl_putc = 0x100_0000

abbrev pub csr_sim_ctrl_getc : ℕ
csr_sim_ctrl_getc = 0x200_0000

abbrev pub csr_sim_ctrl_trace : ℕ
csr_sim_ctrl_trace = 0x400_0000

abbrev pub csr_sim_printf : ℕ
csr_sim_printf = 0x500_0000

abbrev pub mhartid_value : ℕ
mhartid_value = 0

-- MISA_RV32 | MISA_RVI | MISA_RVM | MISA_RVS | MISA_RVU
abbrev pub misa_value : ℕ
misa_value = 0x4014_1100
