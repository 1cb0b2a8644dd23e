-- ===== src/Invariant.antt =====
-- The state invariant of the simulator: every register and every memory word is a uint32_t, there
-- are 32 general registers and the first reads 0, the privilege level is at most 3.
pub mod State
pub mod Memory
pub mod Traps
pub mod Translate
pub mod Access
pub mod Csrs
pub mod Operands
pub mod Branches
pub mod Step
