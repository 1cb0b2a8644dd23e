-- ===== src/Driver/Simulator/Status.antt =====
-- The status that riscv_main leaves with when it runs the simulator.
use Prim.Native.String.{String}
use riscv_v2f_optimized.Prelude.{
  if◌then◌else◌, ℕ, zero, suc, ◌<◌, ◌^◌, Bool, true, false, ◌==◌, List, Option, none, some,
  get_elem?, set, get_elem?-set_self, ◌≡◌, refl, Bool-cases, inl, inr,
}
use riscv_v2f_optimized.Prelude.Outcome.{
  Outcome, done, exited, aborted, undefined, >>=-ensured, Ensures, Ensures-bind, Ensures-step,
  Ensures-test, ◌>>=◌,
}
use riscv_v2f_optimized.Word.{add32}
use riscv_v2f_optimized.Machine.{Riscv}
use riscv_v2f_optimized.Exec.{step}
use riscv_v2f_optimized.Registers.{reset}
use riscv_v2f_optimized.Invariant.State.{IsValid, AreRegions}
use riscv_v2f_optimized.Invariant.Step.{step-IsValid, reset-IsValid}
use riscv_v2f_optimized.Cosim.{Cosim, call}
use riscv_v2f_optimized.Driver.{Target, Options, goes_on, at_limit, trace_from, run, simulate}
use riscv_v2f_optimized.Driver.Simulator.{riscv_cpu, riscv_mem, method, one_cpu}

module _ (alloc : ℕ → List ℕ) (is_output : String → Bool) (p : ℕ) where
  -- riscv_main's `sim`, for main.cpp.
  abbrev pub sim : Target (Cosim Riscv)
  sim = one_cpu riscv_cpu (riscv_mem alloc) is_output p

  -- The pointer leads to a simulator in a valid state.
  abbrev pub IsSimulated : Cosim Riscv → Type 0
  IsSimulated w = (s : Riscv) × (get_elem? w.objects p ≡ some s) × IsValid s

  abbrev pub EndsSimulated : Option (Cosim Riscv) → Type 0
  EndsSimulated none = Unit {0}
  EndsSimulated (some w) = IsSimulated w

  method-IsSimulated :
      (f : Riscv → Outcome Riscv) (w : Cosim Riscv) (s : Riscv)
      → get_elem? w.objects p ≡ some s
      → Ensures IsValid (f s)
      → Ensures IsSimulated (method riscv_cpu (riscv_mem alloc) is_output p f w)
  unfolding call
  method-IsSimulated f w s e h = rw e (over (f s) h)
    where
      over :
          (m : Outcome Riscv)
          → Ensures IsValid m
          → Ensures IsSimulated
              ((m >>= λ s'. done (set w.objects p s')) >>= λ os. done (record w { objects = os }))
      over (done t) h = (t, get_elem?-set_self w.objects p t e, h)
      over (exited c) h = tt
      over aborted h = tt
      over undefined h = tt

  traced-IsSimulated :
      (mask : ℕ) (w : Cosim Riscv) → IsSimulated w → Ensures IsSimulated (sim.enable_trace w mask)
  traced-IsSimulated mask w (s, e, v) =
      method-IsSimulated (λ s. done (record s { trace = mask })) w s e
        (record { gpr = v.gpr; pc = v.pc; csr = v.csr; memory = v.memory; no_fault = v.no_fault })

  trace_from-IsSimulated :
      (o : Options) (pc : ℕ) (w : Cosim Riscv)
      → IsSimulated w
      → Ensures IsSimulated (trace_from sim o pc w)
  unfolding trace_from
  trace_from-IsSimulated o pc w h = elim (Bool-cases (o.trace_pc == pc)) [
    | inl t ↦ rw t (traced-IsSimulated o.trace_mask w h)
    | inr t ↦ rw t h
  ]

  run-EndsSimulated :
      (fuel : ℕ) (o : Options) (cycles pc : ℕ) (w : Cosim Riscv)
      → IsSimulated w
      → Ensures EndsSimulated (run sim fuel o cycles pc w)
  unfolding run
  run-EndsSimulated zero o cycles pc w h = tt
  run-EndsSimulated (suc fuel) o cycles pc w (s, e, v) =
      Ensures-step _ (goes_on sim o pc w) _ λ on h1.
        Ensures-test EndsSimulated on _ _ (s, e, v)
          (Ensures-step _ (sim.get_pc w) _ λ p' hp.
            Ensures-bind IsSimulated _ (sim.step w) _
              (method-IsSimulated step w s e (step-IsValid v))
              λ w1 v1.
                Ensures-test EndsSimulated (at_limit sim o (add32 cycles 1)) _ _
                  (Ensures-bind IsSimulated _ (trace_from sim o p' w1) _
                    (trace_from-IsSimulated o p' w1 v1)
                    λ w2 v2. run-EndsSimulated fuel o (add32 cycles 1) p' w2 v2)
                  v1)

  -- What follows the loop when at_exit is given 0.
  abbrev pub leave_with_zero : Option (Cosim Riscv) → Outcome (Option (Cosim Riscv))
  leave_with_zero none = done none
  leave_with_zero (some w) = sim.at_exit w 0 >>= λ w'. done (some w')

  -- When riscv_main runs the simulator, from a state whose memories hold words, it always calls
  -- at_exit with 0: the code 1 for a fault is never reached.
  pub simulate-status :
      (fuel : ℕ) (o : Options) (start : ℕ) (w : Cosim Riscv) (s : Riscv)
      → get_elem? w.objects p ≡ some s
      → AreRegions s.regions
      → start < 2 ^ 32
      → simulate sim fuel o start w ≡ (do
        w1 ← sim.reset w start
        w2 ← (if o.trace == 0 then done w1 else sim.enable_trace w1 o.trace_mask)
        ended ← run sim fuel o 0 0 w2
        leave_with_zero ended)
  unfolding simulate
  simulate-status fuel o start w s e h hs =
      >>=-ensured IsSimulated (sim.reset w start) _ _
        (method-IsSimulated (λ s. done (reset s start)) w s e (reset-IsValid s start h hs))
        λ w1 v1.
          >>=-ensured IsSimulated _ _ _ (optional w1 v1 (o.trace == 0))
            λ w2 v2. >>=-ensured EndsSimulated _ _ _ (run-EndsSimulated fuel o 0 0 w2 v2) ended
    where
      optional :
          (w1 : Cosim Riscv)
          → IsSimulated w1
          → (b : Bool)
          → Ensures IsSimulated (if b then done w1 else sim.enable_trace w1 o.trace_mask)
      optional w1 v true = v
      optional w1 v false = traced-IsSimulated o.trace_mask w1 v

      ended :
          (r : Option (Cosim Riscv))
          → EndsSimulated r
          → elim r as (λ _. Outcome (Option (Cosim Riscv))) [
            | none ↦ done none
            | some w3 ↦ sim.get_fault w3 >>= λ fault.
                sim.at_exit w3 (if fault then 1 else 0) >>= λ w4. done (some w4)
          ]
            ≡ leave_with_zero r
      ended none v = refl
      ended (some w3) (t, e, v) = rw (e, v.no_fault) refl
