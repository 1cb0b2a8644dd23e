-- ===== src/LoadStore.antt =====
-- riscv.cpp: Riscv::load and Riscv::store, with the events that they queue for the cosimulation.
use riscv_v2f_optimized.Prelude.{
  ℕ, Bool, true, false, ◌==◌, if◌then◌else◌, [], ◌∷◌, ◌++◌, Option, none, some, bit_and,
}
use riscv_v2f_optimized.Prelude.Outcome.{Outcome, done, ◌>>=◌}
use riscv_v2f_optimized.Word.{add32, not32}
use riscv_v2f_optimized.Machine.{Riscv, Event}
use riscv_v2f_optimized.Regions.{load_regions, store_regions, error}
use riscv_v2f_optimized.Mmu.{mmu_d_translate}

abbrev pub event : ℕ → ℕ → Event
event a b = record { arg1 = a; arg2 = b }

-- event_push, one function for each queue.
unfoldable pub push_load : Riscv → Event → Riscv
push_load cpu e = record cpu {
  events = record cpu.events { load_events = cpu.events.load_events ++ e ∷ [] };
}

unfoldable pub push_load_result : Riscv → Event → Riscv
push_load_result cpu e = record cpu {
  events = record cpu.events { load_result_events = cpu.events.load_result_events ++ e ∷ [] };
}

unfoldable pub push_store : Riscv → Event → Riscv
push_store cpu e = record cpu {
  events = record cpu.events { store_events = cpu.events.store_events ++ e ∷ [] };
}

unfoldable pub count_load : Riscv → Riscv
unfolding add32
count_load cpu = record cpu { stats = record cpu.stats { loads = add32 cpu.stats.loads 1 } }

unfoldable pub count_store : Riscv → Riscv
unfolding add32
count_store cpu = record cpu { stats = record cpu.stats { stores = add32 cpu.stats.stores 1 } }

-- The part of load behind the translation.
unfoldable pub load_physical : Riscv → ℕ → ℕ → Bool → Outcome (Riscv × Option ℕ)
unfolding not32 push_load push_load_result count_load
load_physical cpu physical width signed_load = do
  let cpu' = count_load (push_load cpu (event (bit_and physical (not32 3)) 0))
  found ← load_regions cpu'.regions physical width signed_load
  elim found [ none ↦ error | some v ↦ done (push_load_result cpu' (event v 0), some v) ]

-- `none` where load returns 0: the access raised a page fault.
unfoldable pub load : Riscv → ℕ → ℕ → ℕ → Bool → Outcome (Riscv × Option ℕ)
load cpu pc address width signed_load = do
  (cpu', physical) ← mmu_d_translate cpu pc address false
  elim physical [ none ↦ done (cpu', none) | some p ↦ load_physical cpu' p width signed_load ]

unfoldable pub store_event : ℕ → ℕ → ℕ → Event
unfolding not32
store_event physical d width =
    if width == 1
    then event (bit_and physical (not32 3)) (bit_and d 0xFF)
    else if width == 2
    then event (bit_and physical (not32 3)) (bit_and d 0xFFFF)
    else event physical d

unfoldable pub store_physical : Riscv → ℕ → ℕ → ℕ → Outcome (Riscv × Bool)
unfolding push_store count_store
store_physical cpu physical d width = do
  let cpu' = push_store (count_store cpu) (store_event physical d width)
  stored ← store_regions cpu'.regions physical d width
  elim stored [ none ↦ error | some rs ↦ done (record cpu' { regions = rs }, true) ]

-- The second part is the function's result, false on a page fault.
unfoldable pub store : Riscv → ℕ → ℕ → ℕ → ℕ → Outcome (Riscv × Bool)
store cpu pc address d width = do
  (cpu', physical) ← mmu_d_translate cpu pc address true
  elim physical [ none ↦ done (cpu', false) | some p ↦ store_physical cpu' p d width ]
