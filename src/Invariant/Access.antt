-- ===== src/Invariant/Access.antt =====
-- Loads and stores keep the invariant, and a load gives a word.
use riscv_v2f_optimized.Prelude.{ℕ, ◌^◌, ◌<◌, Bool, true, false, Option, none, some, bit_and, List}
use riscv_v2f_optimized.Prelude.Outcome.{done, Ensures, Ensures-bind}
use riscv_v2f_optimized.Word.{not32}
use riscv_v2f_optimized.Machine.{Riscv, Region}
use riscv_v2f_optimized.Regions.{error, load_regions, store_regions}
use riscv_v2f_optimized.Mmu.{mmu_d_translate}
use riscv_v2f_optimized.LoadStore.{
  event, store_event, load_physical, load, store_physical, store, push_load, push_load_result,
  push_store, count_load, count_store,
}
use riscv_v2f_optimized.Invariant.State.{IsValid}
use riscv_v2f_optimized.Invariant.Memory.{
  IsFound, IsStored, load_regions-IsFound, store_regions-IsStored,
}
use riscv_v2f_optimized.Invariant.Translate.{IsTranslated, mmu_d_translate-IsTranslated}

abbrev pub KeepsValid : Riscv × Bool → Type 0
KeepsValid (cpu, ok) = IsValid cpu

module _ {cpu : Riscv} (v : IsValid cpu) where
  load_physical-IsTranslated :
      (p width : ℕ) (b : Bool) → Ensures IsTranslated (load_physical cpu p width b)
  unfolding load_physical
  load_physical-IsTranslated p width b =
      Ensures-bind IsFound IsTranslated (load_regions cpu.regions p width b) _
        (load_regions-IsFound cpu.regions p width b v.memory) result
    where
      cpu' : Riscv
      cpu' = count_load (push_load cpu (event (bit_and p (not32 3)) 0))

      result :
          (found : Option ℕ)
          → IsFound found
          → Ensures IsTranslated (elim found [
            | none ↦ error
            | some x ↦ done (push_load_result cpu' (event x 0), some x)
          ])
      result none h = tt
      result (some x) h = (v', h)
        where
          v' : IsValid (push_load_result cpu' (event x 0))
          v' = record {
            gpr = v.gpr;
            pc = v.pc;
            csr = v.csr;
            memory = v.memory;
            no_fault = v.no_fault;
          }

  store_physical-IsValid :
      (p d width : ℕ) → d < 2 ^ 32 → Ensures KeepsValid (store_physical cpu p d width)
  unfolding store_physical
  store_physical-IsValid p d width hd =
      Ensures-bind IsStored KeepsValid (store_regions cpu.regions p d width) _
        (store_regions-IsStored cpu.regions p d width v.memory hd) result
    where
      cpu' : Riscv
      cpu' = push_store (count_store cpu) (store_event p d width)

      result :
          (stored : Option (List Region))
          → IsStored stored
          → Ensures KeepsValid
              (elim stored [ none ↦ error | some rs ↦ done (record cpu' { regions = rs }, true) ])
      result none h = tt
      result (some rs) h = record {
        gpr = v.gpr;
        pc = v.pc;
        csr = v.csr;
        memory = h;
        no_fault = v.no_fault;
      }

load_after :
    {c : Riscv} (width : ℕ) (b : Bool) (physical : Option ℕ)
    → IsValid c
    → Ensures IsTranslated
        (elim physical [ none ↦ done (c, none) | some p ↦ load_physical c p width b ])
load_after width b none h = (h, tt)
load_after width b (some p) h = load_physical-IsTranslated h p width b

store_after :
    {c : Riscv} (d width : ℕ) (physical : Option ℕ)
    → IsValid c
    → d < 2 ^ 32
    → Ensures KeepsValid
        (elim physical [ none ↦ done (c, false) | some p ↦ store_physical c p d width ])
store_after d width none h hd = h
store_after d width (some p) h hd = store_physical-IsValid h p d width hd

module _ {cpu : Riscv} (v : IsValid cpu) where
  pub load-IsTranslated :
      (pc addr width : ℕ) (b : Bool)
      → pc < 2 ^ 32
      → addr < 2 ^ 32
      → Ensures IsTranslated (load cpu pc addr width b)
  unfolding load
  load-IsTranslated pc addr width b hp ha =
      Ensures-bind IsTranslated IsTranslated (mmu_d_translate cpu pc addr false) _
        (mmu_d_translate-IsTranslated v pc addr false hp ha) λ r h. load_after width b r.1 h.0

  pub store-IsValid :
      (pc addr d width : ℕ)
      → pc < 2 ^ 32
      → addr < 2 ^ 32
      → d < 2 ^ 32
      → Ensures KeepsValid (store cpu pc addr d width)
  unfolding store
  store-IsValid pc addr d width hp ha hd =
      Ensures-bind IsTranslated KeepsValid (mmu_d_translate cpu pc addr true) _
        (mmu_d_translate-IsTranslated v pc addr true hp ha) λ r h. store_after d width r.1 h.0 hd
