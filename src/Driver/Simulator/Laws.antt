-- ===== src/Driver/Simulator/Laws.antt =====
-- The simulator as a memory of cosim keeps what cosim relies on.
use riscv_v2f_optimized.Prelude.{
  ℕ, ◌*◌, ◌%◌, ◌^◌, ◌<◌, ◌≡◌, ◌≢◌, ◌∙◌, refl, ap, arith, false, inl, List, some,
}
use riscv_v2f_optimized.Prelude.Outcome.{done, ◌>>=◌, >>=-done}
use riscv_v2f_optimized.Machine.{Riscv, Region}
use riscv_v2f_optimized.Regions.{write, read, store_regions, load_regions, or_zero}
use riscv_v2f_optimized.Regions.Bytes.{Holds, load_regions-store_regions}
use riscv_v2f_optimized.Regions.Frames.{store_regions-others}
use riscv_v2f_optimized.Cosim.Words.{MemLaws}
use riscv_v2f_optimized.Driver.Simulator.{riscv_mem}

-- A byte written to the simulator at an address whose region has it in its array reads back; every
-- other address reads as before, and no address loses its place in an array.
pub write-read :
    (s : Riscv) (a d : ℕ)
    → d < 2 ^ 8
    → Holds s.regions a 1
    → (s' : Riscv) × (write s a d ≡ done s')
      × (read s' a ≡ done d)
      × ((b : ℕ) → a ≢ b → read s' b ≡ read s b)
      × ((b : ℕ) → Holds s.regions b 1 → Holds s'.regions b 1)
unfolding write read
write-read s a d h g =
    let (rs, stored, others, keeps) = store_regions-others s.regions a d (omega arith) g in
    let (rs2, stored2, loaded) =
      load_regions-store_regions s.regions a d 1 (inl refl) (omega arith) g in
    (
      record s { regions = rs },
      >>=-done _ stored refl,
      >>=-done _ (ap (λ x. load_regions x a 1 false) (same rs rs2 stored stored2) ∙ loaded)
          (ap done (small h)),
      λ b n. ap (λ m. m >>= λ f. done (or_zero f)) (others b n),
      keeps,
    )
  where
    same :
        (rs rs2 : List Region)
        → store_regions s.regions a d 1 ≡ done (some rs)
        → store_regions s.regions a d 1 ≡ done (some rs2)
        → rs ≡ rs2
    same rs rs2 e k = cc

    small : d < 2 ^ 8 → d % 2 ^ (8 * 1) ≡ d
    small h = omega arith

pub riscv_store :
    (s : Riscv) (a d : ℕ)
    → d < 2 ^ 8
    → Holds s.regions a 1
    → (s' : Riscv) × (write s a d ≡ done s')
      × (read s' a ≡ done d)
      × ((b : ℕ) → Holds s.regions b 1 → a ≢ b → read s' b ≡ read s b)
      × ((b : ℕ) → Holds s.regions b 1 → Holds s'.regions b 1)
riscv_store s a d h g =
    let (s', w, r, others, keeps) = write-read s a d h g in (s', w, r, λ b hb n. others b n, keeps)

abbrev pub riscv_laws : (alloc : ℕ → List ℕ) → MemLaws (riscv_mem alloc)
riscv_laws alloc = record { IsGood = λ s a. Holds s.regions a 1; store = riscv_store }
