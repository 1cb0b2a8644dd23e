-- ===== src/TbMemory.antt =====
-- top_cache_axi/tb/tb_memory.h: the byte memory of the testbench. A region points to an array, and
-- two memories may point to one; the arrays stand in a store, and a pointer is an index into it.
-- The time that a record of an access holds, and the trace's printf, are left out. sc_assert(0) ends
-- the simulation. The slots m_mem[i] fill in order and stay, so that they are a list.
pub mod Backed
use riscv_v2f_optimized.Prelude.{
  ℕ, zero, suc, ◌+◌, ◌-◌, Bool, true, false, not, ◌&&◌, ◌||◌, ltb, leb, if◌then◌else◌, List, [],
  ◌∷◌, ◌++◌, length, Option, none, some, get_elem?, set,
}
use riscv_v2f_optimized.Prelude.Outcome.{Outcome, done, aborted, undefined, ◌>>=◌}
use riscv_v2f_optimized.Word.{add32, sub32}

abbrev pub Arrays : Type 0
Arrays = List (List ℕ)

-- tb_mem_region
pub record TbRegion : Type 0 where
  pub base : ℕ
  pub size : ℕ
  pub array : ℕ
  pub traced : Bool

-- tb_mem_record
pub record TbRecord : Type 0 where
  pub is_write : Bool
  pub addr : ℕ
  pub value : ℕ

-- tb_memory
pub record TbMemory : Type 0 where
  pub slots : List TbRegion
  pub record_accesses : Bool
  pub accesses : List TbRecord

abbrev pub tb_mem_max_regions : ℕ
tb_mem_max_regions = 10

abbrev pub new_memory : TbMemory
new_memory = record { slots = []; record_accesses = false; accesses = [] }

unfoldable pub region_matches : TbRegion → ℕ → Bool
unfolding add32
region_matches r addr = leb r.base addr && ltb addr (add32 r.base r.size)

-- `m_mem[i]`, out of the array's bounds undefined.
abbrev pub element : List ℕ → ℕ → Outcome ℕ
element a i = elim (get_elem? a i) [ none ↦ undefined | some d ↦ done d ]

abbrev pub put : List ℕ → ℕ → ℕ → Outcome (List ℕ)
put a i d = if ltb i (length a) then done (set a i d) else undefined

abbrev pub array_at : Arrays → ℕ → Outcome (List ℕ)
array_at st p = elim (get_elem? st p) [ none ↦ undefined | some a ↦ done a ]

-- tb_mem_region::write and read
unfoldable pub region_write : Arrays → TbRegion → ℕ → ℕ → Outcome Arrays
unfolding region_matches
region_write st r addr d =
    if region_matches r addr
    then (do a ← array_at st r.array; a' ← put a (addr - r.base) d; done (set st r.array a'))
    else done st

unfoldable pub region_read : Arrays → TbRegion → ℕ → Outcome ℕ
unfolding region_matches
region_read st r addr =
    if region_matches r addr
    then (do a ← array_at st r.array; element a (addr - r.base))
    else done 0

-- Whether add_region's loop finds a free slot before a region that overlaps, with `left` slots left.
unfoldable pub finds_slot : ℕ → List TbRegion → ℕ → ℕ → Bool
unfolding region_matches add32 sub32
finds_slot zero rs base size = false
finds_slot (suc left) [] base size = true
finds_slot (suc left) (r ∷ rs) base size =
    if region_matches r base || region_matches r (sub32 (add32 base size) 1)
    then false
    else finds_slot left rs base size

-- Both add_region functions: `mem` is none for the one that makes an array; `fresh` is what `new`
-- hands out.
unfoldable pub add_region : List ℕ → Arrays → TbMemory → Option ℕ → ℕ → ℕ → Arrays × TbMemory × Bool
unfolding finds_slot
add_region fresh st m mem base size =
    if finds_slot tb_mem_max_regions m.slots base size
    then elim mem [
      | none ↦ (
        st ++ fresh ∷ [],
        record m {
          slots =
              m.slots
              ++ record { base = base; size = size; array = length st; traced = false } ∷ [];
        },
        true,
      )
      | some p ↦ (
        st,
        record m {
          slots = m.slots ++ record { base = base; size = size; array = p; traced = false } ∷ [];
        },
        true,
      )
    ]
    else (st, m, false)

-- The first region that holds the address.
unfoldable pub find_region : List TbRegion → ℕ → Option TbRegion
unfolding region_matches
find_region [] addr = none
find_region (r ∷ rs) addr = if region_matches r addr then some r else find_region rs addr

unfoldable pub tb_valid_addr : TbMemory → ℕ → Bool
unfolding find_region
tb_valid_addr m addr = elim (find_region m.slots addr) [ none ↦ false | some r ↦ true ]

unfoldable pub trace_slots : List TbRegion → ℕ → Bool → List TbRegion
unfolding region_matches
trace_slots [] addr en = []
trace_slots (r ∷ rs) addr en =
    (if region_matches r addr then record r { traced = en } else r) ∷ trace_slots rs addr en

unfoldable pub trace_access : TbMemory → ℕ → Bool → TbMemory
unfolding trace_slots
trace_access m addr en = record m { slots = trace_slots m.slots addr en }

abbrev pub recorded : TbMemory → Bool → ℕ → ℕ → TbMemory
recorded m w addr d =
    if m.record_accesses
    then record m { accesses = m.accesses ++ record { is_write = w; addr = addr; value = d } ∷ [] }
    else m

-- tb_memory::write and read
unfoldable pub tb_write : Arrays → TbMemory → ℕ → ℕ → Outcome (Arrays × TbMemory)
unfolding find_region region_write
tb_write st m addr d = elim (find_region m.slots addr) [
  | none ↦ aborted
  | some r ↦ do st' ← region_write st r addr d; done (st', recorded m true addr d)
]

unfoldable pub tb_read : Arrays → TbMemory → ℕ → Outcome (TbMemory × ℕ)
unfolding find_region region_read
tb_read st m addr = elim (find_region m.slots addr) [
  | none ↦ aborted
  | some r ↦ do d ← region_read st r addr; done (recorded m false addr d, d)
]

unfoldable pub get_array : TbMemory → ℕ → Outcome ℕ
unfolding find_region
get_array m addr = elim (find_region m.slots addr) [ none ↦ aborted | some r ↦ done r.array ]

unfoldable pub records_enable : TbMemory → Bool → TbMemory
records_enable m enable = record m { record_accesses = enable }

unfoldable pub records_available : TbMemory → Bool
records_available m = ltb 0 (length m.accesses)

-- front() and pop() of an empty queue are undefined.
unfoldable pub records_pop : TbMemory → Outcome (TbMemory × TbRecord)
records_pop m = elim m.accesses [ [] ↦ undefined | e ∷ es ↦ done (record m { accesses = es }, e) ]
