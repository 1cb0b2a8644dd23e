-- ===== src/TcmBench.antt =====
-- top_tcm_axi/tb/testbench.h: the testbench of the core with a tightly coupled memory, as a processor
-- and as a memory of cosim. The class that Verilator makes of the core is not in the repository: a
-- clock edge and the two functions that tcm_mem.v makes public are parameters.
pub mod Loading
use riscv_v2f_optimized.Prelude.{
  ℕ, ◌+◌, ◌*◌, ◌-◌, ◌^◌, Bool, true, false, ltb, List, [], ◌∷◌, Option, none, if◌then◌else◌,
}
use riscv_v2f_optimized.Prelude.Outcome.{Outcome, done, aborted, undefined, ◌>>=◌}
use riscv_v2f_optimized.Word.{add32}
use riscv_v2f_optimized.Machine.{Events}
use riscv_v2f_optimized.Cosim.Api.{CpuApi, MemApi}
use riscv_v2f_optimized.Cosim.{Cosim, attach_cpu, attach_mem}
use riscv_v2f_optimized.Driver.Simulator.{queue_of, with_queue}

-- `clock held core` is what happens up to the next edge of the clock while rst_cpu_i is `held`; the
-- core may end the simulation. u_tcm.write and u_tcm.read are without delay.
pub record TcmCore (C : Type 0) : Type 0 where
  pub clock : Bool → C → Outcome C
  pub write : C → ℕ → ℕ → C
  pub read : C → ℕ → ℕ

-- The core, the signal rst_cpu_in, and the event queues of the class.
pub record TcmTestbench (C : Type 0) : Type 0 where
  pub core : C
  pub rst_cpu_in : Bool
  pub events : Events

module _ {C : Type 0} (rtl : TcmCore C) where
  -- wait()
  unfoldable pub tcm_wait : TcmTestbench C → Outcome (TcmTestbench C)
  tcm_wait t = do c ← rtl.clock t.rst_cpu_in t.core; done (record t { core = c })

  -- reset(addr): the address is not used.
  unfoldable pub tcm_reset : TcmTestbench C → ℕ → Outcome (TcmTestbench C)
  unfolding tcm_wait
  tcm_reset t addr = do
    t' ← tcm_wait (record t { rst_cpu_in = true })
    done (record t' { rst_cpu_in = false })

  -- get_opcode has no return statement.
  abbrev pub tcm_cpu : CpuApi (TcmTestbench C)
  tcm_cpu = record {
    reset = tcm_reset;
    get_fault = λ t. false;
    get_stopped = λ t. false;
    step = tcm_wait;
    get_opcode = λ t. undefined;
    get_pc = λ t. done 0;
    get_reg_valid = λ t r. false;
    get_register = λ t r. done 0;
    get_num_reg = λ t. done 32;
    set_register = λ t r v. done t;
    set_interrupt = λ t irq. done t;
    enable_trace = λ t mask. done t;
    queue = λ k t. queue_of k t.events;
    set_queue = λ k es t. record t { events = with_queue k es t.events };
  }

  -- `sc_assert(base >= 0 && base + size < 64 * 1024)`, a sum of uint32_t; it returns true.
  unfoldable pub tcm_create_memory :
      TcmTestbench C → ℕ → ℕ → Option (List ℕ) → Outcome (TcmTestbench C × Bool)
  unfolding add32
  tcm_create_memory t base size mem =
      if ltb (add32 base size) (64 * 1024) then done (t, true) else aborted

  unfoldable pub tcm_write : TcmTestbench C → ℕ → ℕ → Outcome (TcmTestbench C)
  tcm_write t addr d = done (record t { core = rtl.write t.core addr d })

  unfoldable pub tcm_read : TcmTestbench C → ℕ → Outcome ℕ
  tcm_read t addr = done (rtl.read t.core addr)

  abbrev pub tcm_mem : MemApi (TcmTestbench C)
  tcm_mem = record {
    create_memory = tcm_create_memory;
    valid_addr = λ t addr. done true;
    write = tcm_write;
    read = tcm_read;
  }

-- The world that process() attaches itself to, as a processor and as a memory.
unfoldable pub tcm_world : {C : Type 0} → TcmTestbench C → Cosim (TcmTestbench C)
unfolding attach_cpu attach_mem
tcm_world t =
    attach_mem
      (attach_cpu (record { objects = t ∷ []; m_cpu = []; m_mem = []; m_dump = none }) "rtl" 0)
      "rtl" 0 0 (2 ^ 32 - 1)
