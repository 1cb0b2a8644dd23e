-- ===== src/Examples/Loading.antt =====
-- A file of two sections loaded into an empty simulator, and into a tightly coupled memory.
use Prim.Native.String.{String}
use riscv_v2f_optimized.Prelude.{
  ℕ, zero, suc, ◌^◌, ◌<◌, Bool, true, false, ◌==◌, ◌≡◌, refl, ap, arith, List, [], ◌∷◌, length,
  none, some, map, get_or, replicate, if◌then◌else◌,
}
use riscv_v2f_optimized.Prelude.Outcome.{done}
use riscv_v2f_optimized.Machine.{Riscv}
use riscv_v2f_optimized.Regions.Bytes.{Holds}
use riscv_v2f_optimized.Invariant.State.{AreWords}
use riscv_v2f_optimized.Cosim.{Cosim}
use riscv_v2f_optimized.Cosim.Bus.{bus_read}
use riscv_v2f_optimized.ElfLoad.{Section}
use riscv_v2f_optimized.Driver.Simulator.{riscv_mem, main_world}
use riscv_v2f_optimized.Driver.Simulator.Loading.{
  SimSound, sim_image, sim_load_sections, sim_load_sections-image,
}
use riscv_v2f_optimized.TcmBench.{TcmCore, TcmTestbench, tcm_mem, tcm_world}
use riscv_v2f_optimized.TcmBench.Loading.{
  TcmLaws, TcmSound, tcm_image, tcm_load_sections, tcm_load_sections-image,
}
use riscv_v2f_optimized.Examples.{machine}

-- Memory from `new` that happens to be zero.
abbrev fresh : ℕ → List ℕ
fresh n = replicate n 0

fresh-allocates : (n : ℕ) → (length (fresh n) ≡ n) × AreWords (fresh n)
fresh-allocates n = (count n, words n)
  where
    count : (n : ℕ) → length (fresh n) ≡ n
    count zero = refl
    count (suc n) = ap suc (count n)

    words : (n i : ℕ) → get_or (fresh n) i 0 < 2 ^ 32
    words zero i = omega arith
    words (suc n) zero = omega arith
    words (suc n) (suc i) = words n i

abbrev text_file : String → Bool
text_file name = false

-- Two bytes of code at 0x1000, four bytes without data at 0x1008.
abbrev file : List Section
file =
    record { sh_flags = 6; sh_type = 1; sh_addr = 0x1000; sh_size = 2; d_buf = 0x13 ∷ 0x05 ∷ [] }
    ∷ record { sh_flags = 3; sh_type = 8; sh_addr = 0x1008; sh_size = 4; d_buf = [] }
    ∷ []

abbrev blank : Riscv
blank = record machine { regions = [] }

file-SimSound : SimSound fresh fresh-allocates text_file 2 1 file
file-SimSound = (
  record {
    room = λ e. (omega arith, omega arith);
    copy = λ e. omega arith;
    bytes = (omega arith, (omega arith, tt));
    fits = omega arith;
  },
  (
    record {
      room = λ e. (omega arith, omega arith);
      copy = λ e. absurd cc;
      bytes = tt;
      fits = omega arith;
    },
    tt,
  ),
)

sim_load_sections-image_example :
    (w : Cosim Riscv) × (sim_load_sections fresh fresh-allocates text_file 2 1
        (map some file)
        (main_world blank)
      ≡ done (w, true))
    × ((b v : ℕ)
        → sim_image fresh fresh-allocates text_file 2 1 file b ≡ some v
        → bus_read (riscv_mem fresh) w b ≡ done v)
    × ((b : ℕ)
        → Holds [] b 1
        → sim_image fresh fresh-allocates text_file 2 1 file b ≡ none
        → bus_read (riscv_mem fresh) w b ≡ bus_read (riscv_mem fresh) (main_world blank) b)
sim_load_sections-image_example =
    sim_load_sections-image fresh fresh-allocates text_file 2 1 blank file (omega arith, tt)
      file-SimSound

-- A core that is nothing but its memory.
abbrev plain_core : TcmCore (ℕ → ℕ)
plain_core = record {
  clock = λ held c. done c;
  write = λ c a d b. if a == b then d else c b;
  read = λ c a. c a;
}

plain_core-TcmLaws : TcmLaws plain_core
plain_core-TcmLaws = record {
  same = λ c a d ha hd. ground arith;
  other = λ c a b d ha hb n. ground arith;
}

abbrev bench : TcmTestbench (ℕ → ℕ)
bench = record { core = λ a. 0; rst_cpu_in = false; events = machine.events }

file-TcmSound : TcmSound plain_core plain_core-TcmLaws text_file 2 1 file
file-TcmSound = (
  record {
    room = λ e. omega arith;
    copy = λ e. omega arith;
    bytes = (omega arith, (omega arith, tt));
    fits = omega arith;
  },
  (record { room = λ e. omega arith; copy = λ e. absurd cc; bytes = tt; fits = omega arith }, tt),
)

tcm_load_sections-image_example :
    (w : Cosim (TcmTestbench (ℕ → ℕ))) × (tcm_load_sections plain_core plain_core-TcmLaws text_file
        2 1
        (map some file)
        (tcm_world bench)
      ≡ done (w, true))
    × ((b v : ℕ)
        → tcm_image plain_core plain_core-TcmLaws text_file 2 1 file b ≡ some v
        → bus_read (tcm_mem plain_core) w b ≡ done v)
    × ((b : ℕ)
        → b < 2 ^ 16
        → tcm_image plain_core plain_core-TcmLaws text_file 2 1 file b ≡ none
        → bus_read (tcm_mem plain_core) w b ≡ bus_read (tcm_mem plain_core) (tcm_world bench) b)
tcm_load_sections-image_example =
    tcm_load_sections-image plain_core plain_core-TcmLaws text_file 2 1 bench file file-TcmSound
