-- ===== src/Isa.antt =====
-- riscv_isa.h: the constants of the instruction set, one module for each part.
pub mod Opcodes
pub mod Trap
pub mod Paging
pub mod Csr
pub mod Fields
