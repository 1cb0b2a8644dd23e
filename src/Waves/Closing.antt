-- ===== src/Waves/Closing.antt =====
-- The trace file is closed once, however the process is left.
use Prim.Native.String.{String}
use riscv_v2f_optimized.Prelude.{
  ℕ, Option, none, some, if◌then◌else◌, ◌≡◌, refl, Bool-cases, inl, inr,
}
use riscv_v2f_optimized.Prelude.Outcome.{done, undefined}
use riscv_v2f_optimized.Waves.{
  waves_enabled, Trace, null, opened, uninitialised, verilator_trace_enable, abort, exit_override,
  Leaving, vl_finish, sigint_handler, assert_handler, process_exit, leave,
}

abbrev pub status_of : Leaving → Option ℕ
status_of vl_finish = some 0
status_of sigint_handler = some 1
status_of assert_handler = none
status_of (process_exit status) = some status

leave-opened :
    (e : Leaving)
    → leave e (some (record { verilate_vcd = opened; closed = 0 }))
      ≡ done (some (record { verilate_vcd = null; closed = 1 }), status_of e)
unfolding leave exit_override abort
leave-opened vl_finish = refl
leave-opened sigint_handler = refl
leave-opened assert_handler = refl
leave-opened (process_exit status) = refl

leave-uninitialised :
    (e : Leaving) → leave e (some (record { verilate_vcd = uninitialised; closed = 0 })) ≡ undefined
unfolding leave exit_override abort
leave-uninitialised vl_finish = refl
leave-uninitialised sigint_handler = refl
leave-uninitialised assert_handler = refl
leave-uninitialised (process_exit status) = refl

-- A testbench made while waves are on closes its trace file exactly once, however the process is left
-- and with the status of that way; one made while they are off reads a pointer that nothing has set,
-- whichever way the process is left.
pub leave-verilator_trace_enable :
    (getenv : String → Option String) (strtoul : String → ℕ) (enable : Option ℕ → Trace → Trace)
    (t : Trace) (e : Leaving)
    → leave e (some (verilator_trace_enable getenv strtoul enable t).0) ≡ (
        if waves_enabled getenv
        then done (some (record { verilate_vcd = null; closed = 1 }), status_of e)
        else undefined)
unfolding verilator_trace_enable
leave-verilator_trace_enable getenv strtoul enable t e = elim (Bool-cases (waves_enabled getenv)) [
  | inl on ↦ rw on (leave-opened e)
  | inr off ↦ rw off (leave-uninitialised e)
]
