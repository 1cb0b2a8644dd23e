-- ===== src/Regions.antt =====
-- riscv.cpp: the memory regions of the simulator and its physical accesses.
-- `m_mem_base[j] + m_mem_size[j]` is a sum of uint32_t, and wraps.
pub mod Bounds
pub mod Bytes
pub mod Frames
pub mod Whole
use riscv_v2f_optimized.Prelude.{
  ℕ, ◌-◌, ◌^◌, Bool, true, false, ◌&&◌, ltb, leb, if◌then◌else◌, List, [], ◌∷◌, ◌++◌, length,
  Option, none, some,
}
use riscv_v2f_optimized.Prelude.Outcome.{Outcome, done, exited, undefined, ◌>>=◌}
use riscv_v2f_optimized.Word.{add32}
use riscv_v2f_optimized.Memory.{SimpleMemory, load_memory, store_memory, reset_memory}
use riscv_v2f_optimized.Machine.{Riscv, Region}

-- Riscv::error prints and leaves by exit(-1), whatever `terminal` says.
abbrev pub error {ℓ} : {A : Type ℓ} → Outcome A
error = exited 255

abbrev pub max_mem_regions : ℕ
max_mem_regions = 16

unfoldable pub in_region : ℕ → Region → Bool
unfolding add32
in_region address r = leb r.base address && ltb address (add32 r.base r.size)

unfoldable pub valid_addr_loop : List Region → ℕ → Bool
valid_addr_loop [] address = false
valid_addr_loop (r ∷ rs) address = if in_region address r then true else valid_addr_loop rs address

unfoldable pub valid_addr : Riscv → ℕ → Bool
unfolding valid_addr_loop in_region
valid_addr cpu address = valid_addr_loop cpu.regions address

-- The loop over the regions of read, read32, mmu_read_word and load: the first region that holds
-- the address answers; `none` if there is none.
unfoldable pub load_regions : List Region → ℕ → ℕ → Bool → Outcome (Option ℕ)
load_regions [] address width signed_load = done none
load_regions (r ∷ rs) address width signed_load =
    if in_region address r
    then (do v ← load_memory r.mem (address - r.base) width signed_load; done (some v))
    else load_regions rs address width signed_load

-- The same loop in write, write32 and store.
unfoldable pub store_regions : List Region → ℕ → ℕ → ℕ → Outcome (Option (List Region))
store_regions [] address d width = done none
store_regions (r ∷ rs) address d width =
    let rest = store_regions rs address d width in
    if in_region address r
    then (do
      m ← store_memory r.mem (address - r.base) d width
      done (some (record r { mem = m } ∷ rs)))
    else (do found ← rest; done (elim found [ none ↦ none | some rs' ↦ some (r ∷ rs') ]))

abbrev pub or_zero : Option ℕ → ℕ
or_zero none = 0
or_zero (some v) = v

unfoldable pub read : Riscv → ℕ → Outcome ℕ
read cpu address = do found ← load_regions cpu.regions address 1 false; done (or_zero found)

unfoldable pub read32 : Riscv → ℕ → Outcome ℕ
read32 cpu address = do found ← load_regions cpu.regions address 4 false; done (or_zero found)

unfoldable pub get_opcode : Riscv → ℕ → Outcome ℕ
unfolding read32
get_opcode cpu address = read32 cpu address

abbrev pub or_error : Riscv → Option (List Region) → Outcome Riscv
or_error cpu none = error
or_error cpu (some rs) = done (record cpu { regions = rs })

unfoldable pub write : Riscv → ℕ → ℕ → Outcome Riscv
write cpu address d = do stored ← store_regions cpu.regions address d 1; or_error cpu stored

unfoldable pub write32 : Riscv → ℕ → ℕ → Outcome Riscv
write32 cpu address d = do stored ← store_regions cpu.regions address d 4; or_error cpu stored

-- attach_memory; the new memory is reset.
unfoldable pub attach_memory : Riscv → SimpleMemory → ℕ → ℕ → Riscv × Bool
attach_memory cpu memory base len =
    if ltb (length cpu.regions) max_mem_regions
    then (
      record cpu {
        regions = cpu.regions ++ record { base = base; size = len; mem = reset_memory memory } ∷ [];
      },
      true,
    )
    else (cpu, false)

-- create_memory: a caller's buffer, or `new uint32_t[(len + 3) / 4]` with whatever words the
-- allocator hands out. The length goes through an `int`: from 2 ^ 31 - 3 on `size + 3` overflows
-- or the array's length is negative.
unfoldable pub create_memory : Riscv → ℕ → ℕ → List ℕ → Outcome (Riscv × Bool)
unfolding attach_memory
create_memory cpu base len words =
    if ltb len (2 ^ 31 - 3)
    then done (attach_memory cpu (record { words = words; size = len }) base len)
    else undefined
