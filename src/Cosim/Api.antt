-- ===== src/Cosim/Api.antt =====
-- cosim_api.h: the two abstract classes, as records of operations on the state of an object.
-- A call that may end the process returns an Outcome; a query leaves the object as it is.
use riscv_v2f_optimized.Prelude.{ℕ, Bool, true, false, not, List, [], ◌∷◌, ◌++◌, Option}
use riscv_v2f_optimized.Prelude.Outcome.{Outcome, done, undefined}
use riscv_v2f_optimized.Machine.{Event}

-- t_cosim_event
pub data Kind : Type 0 where
  load_event load_result_event store_event : Kind

-- cosim_cpu_api. The event queues are members of the class: `queue` reads one, `set_queue` puts
-- another in its place. create_memory's third argument is its buffer, none for NULL.
pub record CpuApi (S : Type 0) : Type 0 where
  pub reset : S → ℕ → Outcome S
  pub get_fault : S → Bool
  pub get_stopped : S → Bool
  pub step : S → Outcome S
  pub get_opcode : S → Outcome ℕ
  pub get_pc : S → Outcome ℕ
  pub get_reg_valid : S → ℕ → Bool
  pub get_register : S → ℕ → Outcome ℕ
  pub get_num_reg : S → Outcome ℕ
  pub set_register : S → ℕ → ℕ → Outcome S
  pub set_interrupt : S → ℕ → Outcome S
  pub enable_trace : S → ℕ → Outcome S
  pub queue : Kind → S → List Event
  pub set_queue : Kind → List Event → S → S

-- cosim_mem_api
pub record MemApi (S : Type 0) : Type 0 where
  pub create_memory : S → ℕ → ℕ → Option (List ℕ) → Outcome (S × Bool)
  pub valid_addr : S → ℕ → Outcome Bool
  pub write : S → ℕ → ℕ → Outcome S
  pub read : S → ℕ → Outcome ℕ

module _ {S : Type 0} (api : CpuApi S) where
  abbrev pub is_nil : List Event → Bool
  is_nil [] = true
  is_nil (e ∷ es) = false

  unfoldable pub event_push : Kind → Event → S → S
  event_push k e s = api.set_queue k (api.queue k s ++ e ∷ []) s

  unfoldable pub event_ready : Kind → S → Bool
  event_ready k s = not (is_nil (api.queue k s))

  -- front() and pop() of an empty queue are undefined.
  unfoldable pub event_pop : Kind → S → Outcome (S × Event)
  event_pop k s = elim (api.queue k s) [ [] ↦ undefined | e ∷ es ↦ done (api.set_queue k es s, e) ]
