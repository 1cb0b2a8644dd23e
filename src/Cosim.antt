-- ===== src/Cosim.antt =====
-- cosim_api.cpp: class cosim, which drives several models of the processor in lockstep.
-- The objects that it points to live in a store, and a pointer is an index into it; an object may
-- be attached more than once, as a processor and as a memory.
pub mod Api
pub mod Lockstep
pub mod Twins
pub mod Bus
pub mod Words
pub mod Exit
use Prim.Native.String.{String}
use riscv_v2f_optimized.Prelude.{
  ℕ, zero, suc, ◌+◌, ◌*◌, ◌%◌, ◌^◌, Bool, true, false, not, ◌&&◌, ◌||◌, ◌==◌, ltb, leb,
  if◌then◌else◌, List, [], ◌∷◌, ◌++◌, Option, none, some, get_elem?, set, bit_or,
}
use riscv_v2f_optimized.Prelude.Outcome.{Outcome, done, undefined, exited, ◌>>=◌, ◌>>◌}
use riscv_v2f_optimized.Word.{add32, shl32, shr32}
use riscv_v2f_optimized.Machine.{Event}
use Api.{CpuApi, MemApi, Kind, load_event, load_result_event, store_event, event_ready, event_pop}

-- cosim_cpu_item
pub record CpuItem : Type 0 where
  pub name : String
  pub cpu : ℕ

-- cosim_mem_item
pub record MemItem : Type 0 where
  pub name : String
  pub mem : ℕ
  pub base : ℕ
  pub size : ℕ

-- m_dump_file, m_dump_start and m_dump_end.
pub record Dump : Type 0 where
  pub file : String
  pub start : ℕ
  pub end : ℕ

-- The members of class cosim, and the objects; m_dump is none while m_dump_file is NULL.
pub record Cosim (S : Type 0) : Type 0 where
  pub objects : List S
  pub m_cpu : List CpuItem
  pub m_mem : List MemItem
  pub m_dump : Option Dump

module _ {S : Type 0} where
  unfoldable pub attach_cpu : Cosim S → String → ℕ → Cosim S
  attach_cpu w name p = record w { m_cpu = w.m_cpu ++ record { name = name; cpu = p } ∷ [] }

  unfoldable pub attach_mem : Cosim S → String → ℕ → ℕ → ℕ → Cosim S
  attach_mem w name p base size = record w {
    m_mem = w.m_mem ++ record { name = name; mem = p; base = base; size = size } ∷ [];
  }

  unfoldable pub dump_on_exit : Cosim S → String → ℕ → ℕ → Cosim S
  dump_on_exit w file start end = record w {
    m_dump = some (record { file = file; start = start; end = end });
  }

  -- `*p`; a pointer to no object is undefined.
  abbrev pub or_undefined : Option S → Outcome S
  or_undefined none = undefined
  or_undefined (some s) = done s

  abbrev pub deref : List S → ℕ → Outcome S
  deref os p = or_undefined (get_elem? os p)

  -- `p->f()` for a method that changes the object.
  unfoldable pub call : (S → Outcome S) → ℕ → List S → Outcome (List S)
  call f p os = do s ← deref os p; s' ← f s; done (set os p s')

  -- `for (it = m_cpu.begin(); …) it->cpu->f();`
  unfoldable pub for_each : (S → Outcome S) → List CpuItem → List S → Outcome (List S)
  for_each f [] os = done os
  for_each f (it ∷ its) os = do os' ← call f it.cpu os; for_each f its os'

  -- m_cpu.front().cpu
  abbrev pub front : List CpuItem → List S → Outcome S
  front [] os = undefined
  front (it ∷ its) os = deref os it.cpu

  -- `for (it = m_cpu.begin(); …) result |= it->cpu->f();`
  unfoldable pub any_of : (S → Bool) → List CpuItem → List S → Outcome Bool
  any_of f [] os = done false
  any_of f (it ∷ its) os = do s ← deref os it.cpu; rest ← any_of f its os; done (f s || rest)

module _ {S : Type 0} (api : CpuApi S) where
  abbrev pub each_cpu : (S → Outcome S) → Cosim S → Outcome (Cosim S)
  each_cpu f w = do os ← for_each f w.m_cpu w.objects; done (record w { objects = os })

  unfoldable pub reset_all : Cosim S → ℕ → Outcome (Cosim S)
  reset_all w pc = each_cpu (λ s. api.reset s pc) w

  unfoldable pub any_fault : Cosim S → Outcome Bool
  any_fault w = any_of api.get_fault w.m_cpu w.objects

  unfoldable pub any_stopped : Cosim S → Outcome Bool
  any_stopped w = any_of api.get_stopped w.m_cpu w.objects

  unfoldable pub set_registers : Cosim S → ℕ → ℕ → Outcome (Cosim S)
  set_registers w r v = each_cpu (λ s. api.set_register s r v) w

  unfoldable pub set_interrupts : Cosim S → ℕ → Outcome (Cosim S)
  set_interrupts w irq = each_cpu (λ s. api.set_interrupt s irq) w

  unfoldable pub enable_traces : Cosim S → ℕ → Outcome (Cosim S)
  enable_traces w mask = each_cpu (λ s. api.enable_trace s mask) w

  unfoldable pub front_opcode : Cosim S → Outcome ℕ
  front_opcode w = do s ← front w.m_cpu w.objects; api.get_opcode s

  unfoldable pub front_pc : Cosim S → Outcome ℕ
  front_pc w = do s ← front w.m_cpu w.objects; api.get_pc s

  unfoldable pub front_reg_valid : Cosim S → ℕ → Outcome Bool
  front_reg_valid w r = do s ← front w.m_cpu w.objects; done (api.get_reg_valid s r)

  unfoldable pub front_register : Cosim S → ℕ → Outcome ℕ
  front_register w r = do s ← front w.m_cpu w.objects; api.get_register s r

  unfoldable pub front_num_reg : Cosim S → Outcome ℕ
  front_num_reg w = do s ← front w.m_cpu w.objects; api.get_num_reg s

  -- cosim::step. The first loop finds out whether every queue of the kind holds an event.
  unfoldable pub all_ready : Kind → List CpuItem → List S → Outcome Bool
  unfolding event_ready
  all_ready k [] os = done true
  all_ready k (it ∷ its) os = do
    s ← deref os it.cpu
    rest ← all_ready k its os
    done (event_ready api k s && rest)

  abbrev pub same_event : Event → Event → Bool
  same_event a b = a.arg1 == b.arg1 && a.arg2 == b.arg2

  -- What the loop over the events has for `last`, none while `first` is true.
  abbrev pub agrees : Option Event → Event → Bool
  agrees none e = true
  agrees (some last) e = same_event e last

  unfoldable pub compare_events : Kind → List CpuItem → Option Event → List S → Outcome (List S)
  unfolding event_pop
  compare_events k [] last os = done os
  compare_events k (it ∷ its) last os = do
    s ← deref os it.cpu
    (s', e) ← event_pop api k s
    elim (agrees last e) [
      | true ↦ compare_events k its (some e) (set os it.cpu s')
      | false ↦ exited 255
    ]

  unfoldable pub check_events : Kind → List CpuItem → List S → Outcome (List S)
  unfolding all_ready compare_events
  check_events k its os = do
    ready ← all_ready k its os
    elim ready [ true ↦ compare_events k its none os | false ↦ done os ]

  -- The loop that compares the pcs with the first one's.
  unfoldable pub compare_pcs : S → List CpuItem → List S → Outcome (Unit {0})
  compare_pcs first [] os = done tt
  compare_pcs first (it ∷ its) os = do
    s ← deref os it.cpu
    a ← api.get_pc first
    b ← api.get_pc s
    elim (a == b) [ true ↦ compare_pcs first its os | false ↦ exited 255 ]

  -- The loop over the processors for register `r`.
  unfoldable pub compare_register : ℕ → S → List CpuItem → List S → Outcome (Unit {0})
  compare_register r first [] os = done tt
  compare_register r first (it ∷ its) os = do
    s ← deref os it.cpu
    elim (api.get_reg_valid first r && api.get_reg_valid s r) [
      | false ↦ compare_register r first its os
      | true ↦ do
        a ← api.get_register first r
        b ← api.get_register s r
        elim (a == b) [ true ↦ compare_register r first its os | false ↦ exited 255 ]
    ]

  -- The loop over the registers, with `left` of them to go.
  unfoldable pub compare_registers : ℕ → ℕ → S → List CpuItem → List S → Outcome (Unit {0})
  unfolding compare_register
  compare_registers zero i first its os = done tt
  compare_registers (suc left) i first its os = do
    compare_register i first its os
    compare_registers left (i + 1) first its os

  abbrev pub compare_all : List CpuItem → List S → Outcome (Unit {0})
  unfolding compare_pcs compare_registers
  compare_all [] os = undefined
  compare_all (it ∷ its) os = do
    first ← deref os it.cpu
    compare_pcs first (it ∷ its) os
    n ← api.get_num_reg first
    compare_registers n 0 first (it ∷ its) os

  unfoldable pub step_all : Cosim S → Outcome (Cosim S)
  unfolding check_events compare_all
  step_all w = do
    os1 ← check_events load_event w.m_cpu w.objects
    os2 ← check_events load_result_event w.m_cpu os1
    os3 ← check_events store_event w.m_cpu os2
    os4 ← for_each api.step w.m_cpu os3
    compare_all w.m_cpu os4
    done (record w { objects = os4 })
