-- ===== src/Waves.antt =====
-- Trace files of the testbenches: top_cache_axi/tb/testbench_vbase.h (the copy in top_tcm_axi/tb is the
-- same), the trace_enable methods of riscv_top.cpp, and trace_enable and trace_rtl of
-- top_tcm_axi/tb/riscv_tcm_top_rtl.cpp, all under VM_TRACE; the ways to leave of
-- top_cache_axi/tb/main.cpp. getenv and strtoul are the C library's. Times count in nanoseconds, the
-- resolution that sc_main sets.
pub mod Closing
pub mod Delay
use Prim.Native.String.{String}
use text.Mathlib.Text.{◌==◌}
use riscv_v2f_optimized.Prelude.{
  ℕ, ◌+◌, ◌*◌, ◌%◌, ◌^◌, Bool, true, false, not, ltb, List, [], ◌∷◌, ◌++◌, Option, none, some,
  if◌then◌else◌,
}
use riscv_v2f_optimized.Prelude.Outcome.{Outcome, done, undefined, ◌>>=◌}

unfoldable pub waves_enabled : (String → Option String) → Bool
waves_enabled getenv = elim (getenv "ENABLE_WAVES") [ none ↦ true | some s ↦ not (s == "no") ]

-- The delay in microseconds, if there is one.
unfoldable pub waves_delayed : (String → Option String) → (String → ℕ) → Option ℕ
waves_delayed getenv strtoul = elim (getenv "WAVES_DELAY_US") [
  | none ↦ none
  | some s ↦ some (strtoul s % 2 ^ 32)
]

unfoldable pub getenv_str : (String → Option String) → String → String → String
getenv_str getenv name defval = elim (getenv name) [
  | none ↦ defval
  | some s ↦ if s == "" then defval else s
]

-- m_vcd (is it set?), m_delay_waves and m_waves_start of a wrapper, whether its core was told to trace,
-- and the times that were dumped to the file.
pub record Trace : Type 0 where
  pub vcd : Bool
  pub delay_waves : Bool
  pub waves_start : ℕ
  pub core_traces : Bool
  pub dumps : List ℕ

-- The end of the two constructors.
abbrev pub new_trace : Trace
new_trace = record {
  vcd = false;
  delay_waves = false;
  waves_start = 0;
  core_traces = false;
  dumps = [];
}

-- riscv_top::trace_enable, with a start time or without: with one, the call of m_rtl->trace is
-- commented out.
unfoldable pub top_trace_enable : Option ℕ → Trace → Trace
top_trace_enable none t = record t { vcd = true; core_traces = true }
top_trace_enable (some start) t = record t { vcd = true; delay_waves = true; waves_start = start }

-- riscv_tcm_top_rtl::trace_enable
unfoldable pub tcm_trace_enable : Option ℕ → Trace → Trace
tcm_trace_enable none t = record t { vcd = true; core_traces = true }
tcm_trace_enable (some start) t = record t {
  vcd = true;
  delay_waves = true;
  waves_start = start;
  core_traces = true;
}

-- riscv_tcm_top_rtl::trace_rtl at the time `now`. The cast of a double that is no int is undefined.
unfoldable pub trace_rtl : ℕ → Trace → Outcome Trace
trace_rtl now t =
    if t.delay_waves
    then done (if ltb t.waves_start now then record t { delay_waves = false } else t)
    else if t.vcd
    then (if ltb now (2 ^ 31) then done (record t { dumps = t.dumps ++ now ∷ [] }) else undefined)
    else done t

-- The process runs at each change of the clock.
unfoldable pub trace_edges : List ℕ → Trace → Outcome Trace
trace_edges [] t = done t
trace_edges (now ∷ more) t = do t' ← trace_rtl now t; trace_edges more t'

-- m_verilate_vcd, which the constructors leave as it is unless waves are on, and how often its file was
-- closed.
pub data VcdPointer : Type 0 where
  uninitialised null opened : VcdPointer

pub record Vbase : Type 0 where
  pub verilate_vcd : VcdPointer
  pub closed : ℕ

-- verilator_trace_enable in a constructor; `enable` is the trace_enable of the wrapper.
unfoldable pub verilator_trace_enable :
    (String → Option String) → (String → ℕ) → (Option ℕ → Trace → Trace) → Trace → Vbase × Trace
unfolding waves_enabled waves_delayed
verilator_trace_enable getenv strtoul enable t =
    if waves_enabled getenv
    then (
      record { verilate_vcd = opened; closed = 0 },
      enable (elim (waves_delayed getenv strtoul) [ none ↦ none | some us ↦ some (us * 1000) ]) t,
    )
    else (record { verilate_vcd = uninitialised; closed = 0 }, t)

-- testbench_vbase::abort
unfoldable pub abort : Vbase → Outcome Vbase
abort b = elim b.verilate_vcd [
  | uninitialised ↦ undefined
  | null ↦ done b
  | opened ↦ done (record b { verilate_vcd = null; closed = b.closed + 1 })
]

-- exit_override, with the global `tb`.
unfoldable pub exit_override : Option Vbase → Outcome (Option Vbase)
unfolding abort
exit_override none = done none
exit_override (some b) = do b' ← abort b; done (some b')

-- How the process is left: $finish in the core, SIGINT, an assert of SystemC that aborts, and exit in
-- testbench::process with riscv_main's answer.
pub data Leaving : Type 0 where
  vl_finish sigint_handler assert_handler : Leaving
  process_exit : ℕ → Leaving

-- exit runs what atexit registered, abort does not. The status is none for an abort.
unfoldable pub leave : Leaving → Option Vbase → Outcome (Option Vbase × Option ℕ)
unfolding exit_override
leave vl_finish tb = do tb1 ← exit_override tb; done (tb1, some 0)
leave sigint_handler tb = do tb1 ← exit_override tb; tb2 ← exit_override tb1; done (tb2, some 1)
leave assert_handler tb = do tb1 ← exit_override tb; done (tb1, none)
leave (process_exit status) tb = do tb1 ← exit_override tb; done (tb1, some status)
