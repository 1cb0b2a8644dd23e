-- ===== src/Driver/Simulator/Loading.antt =====
-- isa_sim/main.cpp from elf_load on: what the loader leaves in the simulator's memory.
use Prim.Native.String.{String}
use mathlib.Core.Path.{subst}
use riscv_v2f_optimized.Prelude.{
  ℕ, suc, ◌+◌, ◌-◌, ◌/◌, ◌^◌, ◌<◌, ◌≤◌, Bool, true, ltb, List, [], ◌∷◌, ◌++◌, length, Option, none,
  some, ◌≡◌, refl, ap, sym, ◌∙◌, arith, map, Bool-cases, inl, inr,
}
use riscv_v2f_optimized.Prelude.Outcome.{Outcome, done, ◌>>=◌, >>=-done, done-injective}
use riscv_v2f_optimized.Word.{add32}
use riscv_v2f_optimized.Machine.{Riscv, Region}
use riscv_v2f_optimized.Memory.{reset_memory}
use riscv_v2f_optimized.Invariant.State.{AreWords}
use riscv_v2f_optimized.Regions.{
  in_region, create_memory, attach_memory, max_mem_regions, write, read, or_zero,
}
use riscv_v2f_optimized.Regions.Bytes.{Holds}
use riscv_v2f_optimized.Regions.Whole.{
  AreWhole, AreWhole-Holds, AreWhole-++, valid_addr_loop-last, Holds-++, load_regions-++,
  new-IsWhole, in_region-new, store_regions-AreWhole,
}
use riscv_v2f_optimized.Cosim.{Cosim, MemItem, CpuItem}
use riscv_v2f_optimized.Cosim.Bus.{in_item, bus_read}
use riscv_v2f_optimized.ElfLoad.{Section, load_sections}
use riscv_v2f_optimized.ElfLoad.Bytes.{LoaderLaws}
use riscv_v2f_optimized.ElfLoad.Image.{image, AreSound, load_sections-image}
use riscv_v2f_optimized.Driver.{mem_create, mem_load}
use riscv_v2f_optimized.Driver.Simulator.{riscv_cpu, riscv_mem, main_world, one_cpu}
use riscv_v2f_optimized.Driver.Simulator.Laws.{riscv_laws}

-- `k` more regions fit, and the regions that there are hold all their addresses.
abbrev pub IsReady : ℕ → Riscv → Type 0
IsReady k s = (length s.regions + k ≤ max_mem_regions) × AreWhole s.regions

length-++ : (rs : List Region) (r : Region) → length (rs ++ r ∷ []) ≡ length rs + 1
length-++ [] r = refl
length-++ (q ∷ rs) r = omega (arith, length-++ rs r)

-- The last byte of the address space is in no region.
Holds-below : (rs : List Region) (b : ℕ) → Holds rs b 1 → b < 2 ^ 32 - 1
Holds-below [] b h = elim h [ ]
Holds-below (r ∷ rs) b h = elim (Bool-cases (in_region b r)) [
  | inl e ↦ inside e
  | inr e ↦ Holds-below rs b (rw (Holds, e) at h)
]
  where
    inside : in_region b r ≡ true → b < 2 ^ 32 - 1
    inside e = unfold in_region in unfold add32 in ground arith

abbrev pub sim_item : MemItem
sim_item = record { name = "sim"; mem = 0; base = 0; size = 2 ^ 32 - 1 }

abbrev pub sim_cpus : List CpuItem
sim_cpus = record { name = "sim"; cpu = 0 } ∷ []

pub in_sim_item : (s : Riscv) (b : ℕ) → Holds s.regions b 1 → in_item b sim_item ≡ true
unfolding in_item add32
in_sim_item s b h = ground (arith, Holds-below s.regions b h)

-- `new` hands out as many words as it is asked for.
module _ (alloc : ℕ → List ℕ)
    (allocates : (n : ℕ) → (length (alloc n) ≡ n) × AreWords (alloc n)) where
  pub riscv_create :
      (k : ℕ) (s : Riscv) (a n : ℕ)
      → IsReady (suc k) s
      → (a + n < 2 ^ 32) × (n < 2 ^ 31 - 3)
      → (s' : Riscv) × (create_memory s a n (alloc ((n + 3) / 4)) ≡ done (s', true))
        × ((b : ℕ) → a ≤ b → b < a + n → Holds s'.regions b 1)
        × ((b : ℕ) → Holds s.regions b 1 → Holds s'.regions b 1)
        × ((b : ℕ) → Holds s.regions b 1 → read s' b ≡ read s b)
        × IsReady k s'
  unfolding create_memory attach_memory read
  riscv_create k s a n (count, whole) (fits, small) = (
    record s { regions = s.regions ++ new ∷ [] },
    rw (short, few) refl,
    λ b lo hi.
        AreWhole-Holds (s.regions ++ new ∷ []) b all_whole
          (valid_addr_loop-last s.regions new b (in_region-new b new fits lo hi)),
    λ b h. Holds-++ s.regions (new ∷ []) b h,
    λ b h. ap (λ m. m >>= λ found. done (or_zero found)) (load_regions-++ s.regions (new ∷ []) b h),
    (omega (arith, length-++ s.regions new, count), all_whole),
  )
    where
      new : Region
      new = record {
        base = a;
        size = n;
        mem = reset_memory (record { words = alloc ((n + 3) / 4); size = n });
      }

      all_whole : AreWhole (s.regions ++ new ∷ [])
      all_whole = AreWhole-++ s.regions (new ∷ []) whole (
        new-IsWhole a n (alloc ((n + 3) / 4)) fits (allocates ((n + 3) / 4)).0
            (allocates ((n + 3) / 4)).1,
        tt,
      )

      short : ltb n (2 ^ 31 - 3) ≡ true
      short = ground arith

      few : ltb (length s.regions) max_mem_regions ≡ true
      few = ground arith

  pub riscv_steady :
      (k : ℕ) (s s' : Riscv) (a d : ℕ)
      → d < 2 ^ 8
      → Holds s.regions a 1
      → write s a d ≡ done s'
      → IsReady k s
      → IsReady k s'
  unfolding write
  riscv_steady k s s' a d hd g w (count, whole) =
      let (rs, stored, whole', same) = store_regions-AreWhole s.regions a d (omega arith) g whole in
      subst (IsReady k) (done-injective (sym (>>=-done _ stored refl) ∙ w))
        (omega (arith, same, count), whole')

  abbrev pub riscv_loader : LoaderLaws (riscv_mem alloc)
  riscv_loader = record {
    memory = riscv_laws alloc;
    IsRoom = λ a n. (a + n < 2 ^ 32) × (n < 2 ^ 31 - 3);
    IsReady = IsReady;
    fewer = λ k s r. (omega (arith, r.0), r.1);
    create = riscv_create;
    steady = riscv_steady;
  }

  -- The loader with riscv_main's callbacks, and what a file has for an address.
  module _ (is_output : String → Bool) (shf_alloc sht_progbits : ℕ) where
    abbrev pub sim_load_sections :
        List (Option Section) → Cosim Riscv → Outcome (Cosim Riscv × Bool)
    sim_load_sections =
        load_sections (mem_create (one_cpu riscv_cpu (riscv_mem alloc) is_output 0))
          (mem_load (one_cpu riscv_cpu (riscv_mem alloc) is_output 0)) shf_alloc sht_progbits

    abbrev pub SimSound : List Section → Type 0
    SimSound =
        AreSound riscv_cpu (riscv_mem alloc) riscv_loader is_output sim_cpus sim_item none
          in_sim_item shf_alloc sht_progbits

    abbrev pub sim_image : List Section → ℕ → Option ℕ
    sim_image =
        image riscv_cpu (riscv_mem alloc) riscv_loader is_output sim_cpus sim_item none in_sim_item
          shf_alloc sht_progbits

    -- In the world of main, a simulator that is ready for as many regions as a file has sections is loaded
    -- without fail with sections that end below 2 ^ 32 and have their bytes: afterwards a read finds at
    -- each address the byte that the last section there put, and at the other addresses that a region had
    -- what it found before.
    pub sim_load_sections-image :
        (sim : Riscv) (xs : List Section)
        → IsReady (length xs) sim
        → SimSound xs
        → (w : Cosim Riscv) × (sim_load_sections (map some xs) (main_world sim) ≡ done (w, true))
          × ((b v : ℕ) → sim_image xs b ≡ some v → bus_read (riscv_mem alloc) w b ≡ done v)
          × ((b : ℕ)
              → Holds sim.regions b 1
              → sim_image xs b ≡ none
              → bus_read (riscv_mem alloc) w b ≡ bus_read (riscv_mem alloc) (main_world sim) b)
    unfolding main_world mem_create mem_load
    sim_load_sections-image sim xs ready h =
        let (os, loaded, placed, others) =
          load_sections-image riscv_cpu (riscv_mem alloc) riscv_loader is_output sim_cpus sim_item
            none in_sim_item shf_alloc sht_progbits xs (sim ∷ []) sim refl ready h in
        (
          record { objects = os; m_cpu = sim_cpus; m_mem = sim_item ∷ []; m_dump = none },
          loaded,
          placed,
          others,
        )
