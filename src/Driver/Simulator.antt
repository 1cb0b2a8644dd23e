-- ===== src/Driver/Simulator.antt =====
-- isa_sim/main.cpp and the methods of class Riscv that the two abstract classes name: riscv_main
-- runs on one processor behind a pointer (main.cpp), or on cosim itself (the testbenches).
pub mod Status
pub mod Laws
pub mod Loading
use Prim.Native.String.{String}
use riscv_v2f_optimized.Prelude.{
  ℕ, zero, suc, ◌+◌, ◌*◌, ◌/◌, ◌-◌, ◌^◌, Bool, true, false, List, [], ◌∷◌, Option, none, some,
}
use riscv_v2f_optimized.Prelude.Outcome.{Outcome, done, ◌>>=◌}
use riscv_v2f_optimized.Machine.{Riscv, Event, Events}
use riscv_v2f_optimized.Registers.{reset, set_register, get_register, set_interrupt, registers}
use riscv_v2f_optimized.Regions.{get_opcode, create_memory, valid_addr, write, read}
use riscv_v2f_optimized.Exec.{step}
use riscv_v2f_optimized.Cosim.Api.{CpuApi, MemApi, Kind, load_event, load_result_event, store_event}
use riscv_v2f_optimized.Cosim.{
  Cosim, call, deref, attach_cpu, attach_mem, dump_on_exit, reset_all, any_fault, any_stopped,
  front_pc, step_all, enable_traces,
}
use riscv_v2f_optimized.Cosim.Bus.{create_memories, bus_write, bus_valid_addr}
use riscv_v2f_optimized.Cosim.Exit.{buffer_word, at_exit}
use riscv_v2f_optimized.Driver.{Target}

abbrev pub queue_of : Kind → Events → List Event
queue_of load_event q = q.load_events
queue_of load_result_event q = q.load_result_events
queue_of store_event q = q.store_events

abbrev pub with_queue : Kind → List Event → Events → Events
with_queue load_event es q = record q { load_events = es }
with_queue load_result_event es q = record q { load_result_events = es }
with_queue store_event es q = record q { store_events = es }

abbrev pub riscv_cpu : CpuApi Riscv
riscv_cpu = record {
  reset = λ s pc. done (reset s pc);
  get_fault = λ s. s.fault;
  get_stopped = λ s. s.break;
  step = step;
  get_opcode = λ s. get_opcode s s.pc_x;
  get_pc = λ s. done s.pc_x;
  get_reg_valid = λ s r. true;
  get_register = λ s r. done (get_register s r);
  get_num_reg = λ s. done registers;
  set_register = λ s r v. done (set_register s r v);
  set_interrupt = set_interrupt;
  enable_trace = λ s mask. done (record s { trace = mask });
  queue = λ k s. queue_of k s.events;
  set_queue = λ k es s. record s { events = with_queue k es s.events };
}

-- A caller's buffer, as the words that a little-endian host finds in it.
unfoldable pub words_of : ℕ → ℕ → List ℕ → List ℕ
unfolding buffer_word
words_of zero i bytes = []
words_of (suc left) i bytes = buffer_word bytes (i * 4) ∷ words_of left (i + 1) bytes

-- `alloc` gives the words that `new` hands out, for their number.
abbrev pub riscv_mem : (ℕ → List ℕ) → MemApi Riscv
riscv_mem alloc = record {
  create_memory = λ s base len buffer. create_memory s base len (elim buffer [
    | none ↦ alloc ((len + 3) / 4)
    | some bytes ↦ words_of ((len + 3) / 4) 0 bytes
  ]);
  valid_addr = λ s a. done (valid_addr s a);
  write = write;
  read = read;
}

module _ {S : Type 0} (api : CpuApi S) (mem : MemApi S) (is_output : String → Bool) where
  -- A method of the object behind `p`.
  abbrev pub method : ℕ → (S → Outcome S) → Cosim S → Outcome (Cosim S)
  method p f w = do os ← call f p w.objects; done (record w { objects = os })

  -- riscv_main(p, …)
  abbrev pub one_cpu : ℕ → Target (Cosim S)
  one_cpu p = record {
    reset = λ w pc. method p (λ s. api.reset s pc) w;
    get_fault = λ w. (do s ← deref w.objects p; done (api.get_fault s));
    get_stopped = λ w. (do s ← deref w.objects p; done (api.get_stopped s));
    get_pc = λ w. (do s ← deref w.objects p; api.get_pc s);
    step = λ w. method p api.step w;
    enable_trace = λ w mask. method p (λ s. api.enable_trace s mask) w;
    create_memory = λ w base size. create_memories mem w base size none;
    write = bus_write mem;
    valid_addr = bus_valid_addr mem;
    dump_on_exit = dump_on_exit;
    at_exit = at_exit mem is_output;
  }

  -- riscv_main(cosim::instance(), …)
  abbrev pub all_cpus : Target (Cosim S)
  all_cpus = record {
    reset = reset_all api;
    get_fault = any_fault api;
    get_stopped = any_stopped api;
    get_pc = front_pc api;
    step = step_all api;
    enable_trace = enable_traces api;
    create_memory = λ w base size. create_memories mem w base size none;
    write = bus_write mem;
    valid_addr = bus_valid_addr mem;
    dump_on_exit = dump_on_exit;
    at_exit = at_exit mem is_output;
  }

-- main's world before it calls riscv_main: one simulator, attached as a processor and as a memory.
unfoldable pub main_world : Riscv → Cosim Riscv
unfolding attach_cpu attach_mem
main_world sim =
    attach_mem
      (attach_cpu (record { objects = sim ∷ []; m_cpu = []; m_mem = []; m_dump = none }) "sim" 0)
      "sim" 0 0 (2 ^ 32 - 1)
