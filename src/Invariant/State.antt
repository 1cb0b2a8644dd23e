-- ===== src/Invariant/State.antt =====
-- The invariant on the state of Riscv.
use riscv_v2f_optimized.Prelude.{ℕ, ◌^◌, ◌≤◌, ◌<◌, false, ◌≡◌, List, [], ◌∷◌, length, get_or}
use riscv_v2f_optimized.Machine.{Riscv, Csr, Region}

abbrev pub IsWord : ℕ → Type 0
IsWord a = a < 2 ^ 32

abbrev pub AreWords : List ℕ → Type 0
AreWords ws = (i : ℕ) → get_or ws i 0 < 2 ^ 32

abbrev pub AreRegions : List Region → Type 0
AreRegions [] = Unit {0}
AreRegions (r ∷ rs) = AreWords r.mem.words × AreRegions rs

pub record IsGpr (gpr : List ℕ) : Type 0 where
  pub count : length gpr ≡ 32
  pub words : AreWords gpr
  pub x0 : get_or gpr 0 0 ≡ 0

pub record IsCsr (c : Csr) : Type 0 where
  pub mepc : c.mepc < 2 ^ 32
  pub mcause : c.mcause < 2 ^ 32
  pub msr : c.msr < 2 ^ 32
  pub mpriv : c.mpriv ≤ 3
  pub mevec : c.mevec < 2 ^ 32
  pub mie : c.mie < 2 ^ 32
  pub mip : c.mip < 2 ^ 32
  pub mtime : c.mtime < 2 ^ 32
  pub mtimecmp : c.mtimecmp < 2 ^ 32
  pub mscratch : c.mscratch < 2 ^ 32
  pub mideleg : c.mideleg < 2 ^ 32
  pub medeleg : c.medeleg < 2 ^ 32
  pub sepc : c.sepc < 2 ^ 32
  pub sevec : c.sevec < 2 ^ 32
  pub scause : c.scause < 2 ^ 32
  pub stval : c.stval < 2 ^ 32
  pub satp : c.satp < 2 ^ 32
  pub sscratch : c.sscratch < 2 ^ 32

pub record IsValid (cpu : Riscv) : Type 0 where
  pub gpr : IsGpr cpu.gpr
  pub pc : cpu.pc < 2 ^ 32
  pub csr : IsCsr cpu.csr
  pub memory : AreRegions cpu.regions
  pub no_fault : cpu.fault ≡ false
