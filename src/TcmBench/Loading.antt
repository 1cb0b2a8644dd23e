-- ===== src/TcmBench/Loading.antt =====
-- What the loader leaves in the tightly coupled memory.
use Prim.Native.String.{String}
use riscv_v2f_optimized.Prelude.{
  ℕ, ◌+◌, ◌-◌, ◌*◌, ◌%◌, ◌^◌, ◌<◌, ◌≤◌, Bool, true, ltb, List, [], ◌∷◌, Option, none, some, ◌≡◌,
  ◌≢◌, refl, ap, arith, map,
}
use riscv_v2f_optimized.Prelude.Outcome.{Outcome, done}
use riscv_v2f_optimized.Word.{add32}
use riscv_v2f_optimized.Cosim.{Cosim, MemItem, CpuItem}
use riscv_v2f_optimized.Cosim.Bus.{in_item, bus_read}
use riscv_v2f_optimized.Driver.{mem_create, mem_load}
use riscv_v2f_optimized.Driver.Simulator.{all_cpus}
use riscv_v2f_optimized.ElfLoad.{Section, load_sections}
use riscv_v2f_optimized.ElfLoad.Bytes.{LoaderLaws}
use riscv_v2f_optimized.ElfLoad.Image.{image, AreSound, load_sections-image}
use riscv_v2f_optimized.TcmBench.{
  TcmCore, TcmTestbench, tcm_cpu, tcm_mem, tcm_create_memory, tcm_write, tcm_read, tcm_world,
}

-- What write and read of tcm_mem.v do within the 64 KiB of the memory.
pub record TcmLaws {C : Type 0} (rtl : TcmCore C) : Type 0 where
  pub same : (c : C) (a d : ℕ) → a < 2 ^ 16 → d < 2 ^ 8 → rtl.read (rtl.write c a d) a ≡ d
  pub other :
      (c : C) (a b d : ℕ)
      → a < 2 ^ 16
      → b < 2 ^ 16
      → a ≢ b
      → rtl.read (rtl.write c a d) b ≡ rtl.read c b

module _ {C : Type 0} (rtl : TcmCore C) (laws : TcmLaws rtl) where
  pub tcm_store :
      (t : TcmTestbench C) (a d : ℕ)
      → d < 2 ^ 8
      → a < 2 ^ 16
      → (t' : TcmTestbench C) × (tcm_write rtl t a d ≡ done t')
        × (tcm_read rtl t' a ≡ done d)
        × ((b : ℕ) → b < 2 ^ 16 → a ≢ b → tcm_read rtl t' b ≡ tcm_read rtl t b)
        × ((b : ℕ) → b < 2 ^ 16 → b < 2 ^ 16)
  unfolding tcm_write tcm_read
  tcm_store t a d hd ha = (
    record t { core = rtl.write t.core a d },
    refl,
    ap done (laws.same t.core a d ha hd),
    λ b hb n. ap done (laws.other t.core a b d ha hb n),
    λ b hb. hb,
  )

  pub tcm_create :
      (k : ℕ) (t : TcmTestbench C) (a n : ℕ)
      → Unit {0}
      → a + n < 2 ^ 16
      → (t' : TcmTestbench C) × (tcm_create_memory rtl t a n none ≡ done (t', true))
        × ((b : ℕ) → a ≤ b → b < a + n → b < 2 ^ 16)
        × ((b : ℕ) → b < 2 ^ 16 → b < 2 ^ 16)
        × ((b : ℕ) → b < 2 ^ 16 → tcm_read rtl t' b ≡ tcm_read rtl t b)
        × Unit {0}
  unfolding tcm_create_memory add32
  tcm_create k t a n ready h = (t, rw fits refl, λ b p q. omega arith, λ b g. g, λ b g. refl, tt)
    where
      fits : ltb ((a + n) % 2 ^ 32) (64 * 1024) ≡ true
      fits = ground arith

  abbrev pub tcm_laws : LoaderLaws (tcm_mem rtl)
  tcm_laws = record {
    memory = record { IsGood = λ t a. a < 2 ^ 16; store = tcm_store };
    IsRoom = λ a n. a + n < 2 ^ 16;
    IsReady = λ k t. Unit {0};
    fewer = λ k t r. tt;
    create = tcm_create;
    steady = λ k t t' a d hd g w r. tt;
  }

  abbrev pub tcm_item : MemItem
  tcm_item = record { name = "rtl"; mem = 0; base = 0; size = 2 ^ 32 - 1 }

  abbrev pub tcm_cpus : List CpuItem
  tcm_cpus = record { name = "rtl"; cpu = 0 } ∷ []

  pub in_tcm_item : (t : TcmTestbench C) (b : ℕ) → b < 2 ^ 16 → in_item b tcm_item ≡ true
  unfolding in_item add32
  in_tcm_item t b h = ground arith

  -- The loader with the callbacks of this testbench, and what a file has for an address.
  module _ (is_output : String → Bool) (shf_alloc sht_progbits : ℕ) where
    abbrev pub tcm_load_sections :
        List (Option Section) → Cosim (TcmTestbench C) → Outcome (Cosim (TcmTestbench C) × Bool)
    tcm_load_sections =
        load_sections (mem_create (all_cpus (tcm_cpu rtl) (tcm_mem rtl) is_output))
          (mem_load (all_cpus (tcm_cpu rtl) (tcm_mem rtl) is_output)) shf_alloc sht_progbits

    abbrev pub TcmSound : List Section → Type 0
    TcmSound =
        AreSound (tcm_cpu rtl) (tcm_mem rtl) tcm_laws is_output tcm_cpus tcm_item none in_tcm_item
          shf_alloc sht_progbits

    abbrev pub tcm_image : List Section → ℕ → Option ℕ
    tcm_image =
        image (tcm_cpu rtl) (tcm_mem rtl) tcm_laws is_output tcm_cpus tcm_item none in_tcm_item
          shf_alloc sht_progbits

    -- A file whose sections end below 64 KiB and have their bytes is loaded without fail into the
    -- tightly coupled memory: each address then holds the byte that the last section there put, and the
    -- others what they held.
    pub tcm_load_sections-image :
        (t : TcmTestbench C) (xs : List Section)
        → TcmSound xs
        → (w : Cosim (TcmTestbench C)) × (tcm_load_sections (map some xs) (tcm_world t)
            ≡ done (w, true))
          × ((b v : ℕ) → tcm_image xs b ≡ some v → bus_read (tcm_mem rtl) w b ≡ done v)
          × ((b : ℕ)
              → b < 2 ^ 16
              → tcm_image xs b ≡ none
              → bus_read (tcm_mem rtl) w b ≡ bus_read (tcm_mem rtl) (tcm_world t) b)
    unfolding tcm_world
    tcm_load_sections-image t xs h =
        let (os, loaded, placed, others) =
          load_sections-image (tcm_cpu rtl) (tcm_mem rtl) tcm_laws is_output tcm_cpus tcm_item none
            in_tcm_item shf_alloc sht_progbits xs (t ∷ []) t refl tt h in
        (
          record { objects = os; m_cpu = tcm_cpus; m_mem = tcm_item ∷ []; m_dump = none },
          loaded,
          placed,
          others,
        )
