-- ===== src/Invariant/Translate.antt =====
-- The page table walk gives a word; translations, loads and stores keep the invariant.
use riscv_v2f_optimized.Prelude.{
  ℕ, zero, suc, ◌+◌, ◌*◌, ◌/◌, ◌^◌, ◌<◌, Bool, true, false, ltb, ◌==◌, if◌then◌else◌, inl, inr,
  Option, none, some, bit_and, arith, Bool-cases, not,
}
use riscv_v2f_optimized.Prelude.Outcome.{
  Outcome, done, exited, aborted, undefined, Ensures, Ensures-bind, Ensures-if,
}
use riscv_v2f_optimized.Word.{shl32, shr32, add32, nonzero}
use riscv_v2f_optimized.Word.Bits.{bit_or-lt}
use riscv_v2f_optimized.Machine.{Riscv}
use riscv_v2f_optimized.Regions.{error, load_regions}
use riscv_v2f_optimized.Mmu.{
  mmu_read_word, mmu_page, mmu_leaf, mmu_round, mmu_overrun, mmu_levels_from, mmu_walk,
  is_canonical, page_address, i_page_fault, d_page_fault, mmu_i_translate, mmu_d_translate,
}
use riscv_v2f_optimized.Trap.{exception}
use riscv_v2f_optimized.Isa.Trap.{
  mcause_page_fault_inst, mcause_page_fault_load, mcause_page_fault_store, priv_super,
}
use riscv_v2f_optimized.Isa.Paging.{
  satp_mode, page_present, page_read, page_write, page_exec, page_pfn_shift, mmu_pgshift,
}
use riscv_v2f_optimized.Invariant.State.{IsWord, AreRegions, IsValid}
use riscv_v2f_optimized.Invariant.Memory.{IsFound, load_regions-IsFound}
use riscv_v2f_optimized.Invariant.Traps.{exception-IsValid}

-- The walk asserts that the value of a leaf fits 32 bits.
mmu_page-IsWord : (cpu : Riscv) (value : ℕ) → Ensures IsWord (mmu_page cpu value)
unfolding mmu_page
mmu_page-IsWord cpu value = elim (Bool-cases (value / 2 ^ 32 == 0)) [
  | inl e ↦ rw e (
      Ensures-bind (λ _. Unit {0}) IsWord _ _ (always _)
        λ found _. found_value found (ground arith))
  | inr e ↦ rw e tt
]
  where
    always : (m : Outcome (Option ℕ)) → Ensures (λ _. Unit {0}) m
    always (done a) = tt
    always (exited c) = tt
    always aborted = tt
    always undefined = tt

    found_value :
        (found : Option ℕ)
        → value < 2 ^ 32
        → Ensures IsWord (elim found [ none ↦ error | some w ↦ done value ])
    found_value none h = tt
    found_value (some w) h = h

mmu_round-IsWord :
    (cpu : Riscv) (addr base s : ℕ) (leaf next : ℕ → Outcome ℕ)
    → ((e : ℕ) → Ensures IsWord (leaf e))
    → ((b : ℕ) → Ensures IsWord (next b))
    → AreRegions cpu.regions
    → Ensures IsWord (mmu_round cpu addr base s leaf next)
unfolding mmu_round mmu_read_word
mmu_round-IsWord cpu addr base s leaf next hl hn hr =
    Ensures-bind IsFound IsWord (load_regions cpu.regions _ 4 false) _
      (load_regions-IsFound cpu.regions _ 4 false hr) entry
  where
    entry :
        (found : Option ℕ)
        → IsFound found
        → Ensures IsWord (elim found [
          | none ↦ done 0
          | some entry ↦
              if not (nonzero (bit_and entry page_present))
              then done 0
              else if not (nonzero (bit_and entry (page_read + page_write + page_exec)))
              then next (shl32 (shr32 entry page_pfn_shift) mmu_pgshift)
              else leaf entry
        ])
    entry none h = omega arith
    entry (some e) h =
        Ensures-if IsWord (not (nonzero (bit_and e page_present))) _ _ (omega arith) (
          Ensures-if IsWord (not (nonzero (bit_and e (page_read + page_write + page_exec)))) _ _
            (hn _) (hl e))

mmu_leaf-IsWord : (cpu : Riscv) (addr s e : ℕ) → Ensures IsWord (mmu_leaf cpu addr s e)
unfolding mmu_leaf
mmu_leaf-IsWord cpu addr s e = mmu_page-IsWord cpu _

mmu_overrun-IsWord :
    (cpu : Riscv) (addr base : ℕ)
    → AreRegions cpu.regions
    → Ensures IsWord (mmu_overrun cpu addr base)
unfolding mmu_overrun
mmu_overrun-IsWord cpu addr base hr =
    mmu_round-IsWord cpu addr base 2 (λ _. undefined) (λ _. undefined) (λ _. tt) (λ _. tt) hr

mmu_levels_from-IsWord :
    (cpu : Riscv) (addr i base : ℕ)
    → AreRegions cpu.regions
    → Ensures IsWord (mmu_levels_from cpu addr i base)
unfolding mmu_levels_from
mmu_levels_from-IsWord cpu addr zero base hr =
    mmu_round-IsWord cpu addr base 12 (mmu_leaf cpu addr 0) (mmu_overrun cpu addr)
      (mmu_leaf-IsWord cpu addr 0) (λ b. mmu_overrun-IsWord cpu addr b hr) hr
mmu_levels_from-IsWord cpu addr (suc i) base hr =
    mmu_round-IsWord cpu addr base (12 + suc i * 10) (mmu_leaf cpu addr (suc i * 10))
      (mmu_levels_from cpu addr i) (mmu_leaf-IsWord cpu addr (suc i * 10))
      (λ b. mmu_levels_from-IsWord cpu addr i b hr) hr

mmu_walk-IsWord :
    (cpu : Riscv) (addr : ℕ) → AreRegions cpu.regions → Ensures IsWord (mmu_walk cpu addr)
unfolding mmu_walk shl32
mmu_walk-IsWord cpu addr hr = Ensures-if IsWord (not (is_canonical addr)) _ _ tt (
    Ensures-if IsWord (bit_and cpu.csr.satp satp_mode == 0) _ _
      (bit_or-lt 32 _ _ (omega arith) (omega arith)) (mmu_levels_from-IsWord cpu addr 1 _ hr))

page_address-IsWord : (pte addr : ℕ) → page_address pte addr < 2 ^ 32
unfolding page_address add32
page_address-IsWord pte addr = omega arith

pub always {ℓ} : {A : Type ℓ} (m : Outcome A) → Ensures (λ _. Unit {0}) m
always (done a) = tt
always (exited c) = tt
always aborted = tt
always undefined = tt

-- A state, and an address if there is one.
abbrev pub IsTranslated : Riscv × Option ℕ → Type 0
IsTranslated (cpu, found) = IsValid cpu × IsFound found

module _ {cpu : Riscv} (v : IsValid cpu) where
  pub mmu_i_translate-IsTranslated :
      (addr : ℕ) → addr < 2 ^ 32 → Ensures IsTranslated (mmu_i_translate cpu addr)
  unfolding mmu_i_translate
  mmu_i_translate-IsTranslated addr ha =
      Ensures-if IsTranslated (ltb priv_super cpu.csr.mpriv) _ _ (v, ha)
        (Ensures-bind IsWord IsTranslated (mmu_walk cpu addr) _ (mmu_walk-IsWord cpu addr v.memory)
          λ pte hp.
            Ensures-bind (λ _. Unit {0}) IsTranslated (i_page_fault cpu pte) _ (always _)
              λ fault _. result pte fault)
    where
      result :
          (pte : ℕ) (fault : Bool)
          → IsTranslated (
              if fault
              then (exception cpu mcause_page_fault_inst addr addr, none)
              else (cpu, some (page_address pte addr)))
      result pte true =
          (exception-IsValid v mcause_page_fault_inst addr addr (omega arith) ha ha, tt)
      result pte false = (v, page_address-IsWord pte addr)

  pub mmu_d_translate-IsTranslated :
      (pc addr : ℕ) (w : Bool)
      → pc < 2 ^ 32
      → addr < 2 ^ 32
      → Ensures IsTranslated (mmu_d_translate cpu pc addr w)
  unfolding mmu_d_translate
  mmu_d_translate-IsTranslated pc addr w hp ha =
      Ensures-if IsTranslated (ltb priv_super cpu.csr.mpriv) _ _ (v, ha)
        (Ensures-bind IsWord IsTranslated (mmu_walk cpu addr) _ (mmu_walk-IsWord cpu addr v.memory)
          λ pte _.
            Ensures-bind (λ _. Unit {0}) IsTranslated (d_page_fault cpu pte w) _ (always _)
              λ fault _. result pte fault)
    where
      cause-lt :
          (b : Bool) → (if b then mcause_page_fault_store else mcause_page_fault_load) < 2 ^ 32
      cause-lt true = omega arith
      cause-lt false = omega arith

      result :
          (pte : ℕ) (fault : Bool)
          → IsTranslated (
              if fault
              then (
                exception cpu
                    (if w then mcause_page_fault_store else mcause_page_fault_load)
                    pc
                    addr,
                none,
              )
              else (cpu, some (page_address pte addr)))
      result pte true = (exception-IsValid v _ pc addr (cause-lt w) hp ha, tt)
      result pte false = (v, page_address-IsWord pte addr)
