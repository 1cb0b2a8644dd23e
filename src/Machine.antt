-- ===== src/Machine.antt =====
-- isa_sim/riscv.h: the state of class Riscv. The members m_csr_x stand in a record of their own,
-- as do the counters and the event queues that the class inherits from cosim_cpu_api.
-- m_mem, m_mem_base and m_mem_size are one list, whose length is m_mem_regions.
use riscv_v2f_optimized.Prelude.{ℕ, Bool, List, Option}
use riscv_v2f_optimized.Memory.{SimpleMemory}

pub record Region : Type 0 where
  pub base : ℕ
  pub size : ℕ
  pub mem : SimpleMemory

pub record Csr : Type 0 where
  pub mepc : ℕ
  pub mcause : ℕ
  pub msr : ℕ
  pub mpriv : ℕ
  pub mevec : ℕ
  pub mie : ℕ
  pub mip : ℕ
  pub mtime : ℕ
  pub mtimecmp : ℕ
  pub mscratch : ℕ
  pub mideleg : ℕ
  pub medeleg : ℕ
  pub sepc : ℕ
  pub sevec : ℕ
  pub scause : ℕ
  pub stval : ℕ
  pub satp : ℕ
  pub sscratch : ℕ

-- m_stats, indexed by enum eStats.
pub record Stats : Type 0 where
  pub instructions : ℕ
  pub loads : ℕ
  pub stores : ℕ
  pub branches : ℕ

-- One cosim_event; its type is the queue that it stands in.
pub record Event : Type 0 where
  pub arg1 : ℕ
  pub arg2 : ℕ

-- event_q, oldest first.
pub record Events : Type 0 where
  pub load_events : List Event
  pub load_result_events : List Event
  pub store_events : List Event

-- What the program under simulation writes: through the console, to stderr, or by printf with a
-- format string and its four arguments, which the C library renders.
pub data Output : Type 0 where
  console_char : ℕ → Output
  stderr_char : ℕ → Output
  formatted : List ℕ → ℕ → ℕ → ℕ → ℕ → Output

-- `console` is m_console: none for NULL, else the values that its getchar() returns, in turn;
-- `reads` counts the calls made.
pub record Riscv : Type 0 where
  pub gpr : List ℕ
  pub pc : ℕ
  pub pc_x : ℕ
  pub csr : Csr
  pub regions : List Region
  pub fault : Bool
  pub break : Bool
  pub trace : ℕ
  pub has_breakpoints : Bool
  pub breakpoints : List ℕ
  pub stats : Stats
  pub events : Events
  pub console : Option (ℕ → ℕ)
  pub reads : ℕ
  pub output : List Output
