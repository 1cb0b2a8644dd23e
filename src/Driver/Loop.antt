-- ===== src/Driver/Loop.antt =====
-- The main loop of the driver ends.
use riscv_v2f_optimized.Prelude.{
  ℕ, zero, suc, ◌+◌, ◌<◌, ◌≤◌, ◌^◌, ◌==◌, Option, none, some, ◌≡◌, refl, arith, Bool-cases, inl,
  inr,
}
use riscv_v2f_optimized.Prelude.Outcome.{>>=-agree, test-agree, Ensures, Ensures-test, Ensures-step}
use riscv_v2f_optimized.Word.{add32}
use riscv_v2f_optimized.Driver.{Target, Options, no_limit, goes_on, at_limit, trace_from, run}

-- The loop has come to its end, rather than used up its fuel.
abbrev pub IsEnded : {W : Type 0} → Option W → Type 0
IsEnded none = ⊥
IsEnded (some w) = Unit {0}

module _ {W : Type 0} (sim : Target W) where
  limited :
      (o : Options) (cycles : ℕ)
      → o.max_cycles < no_limit
      → cycles + 1 < 2 ^ 32
      → at_limit sim o (add32 cycles 1) ≡ (o.max_cycles == cycles + 1)
  unfolding add32
  limited o cycles h k = ground arith

  run-IsEnded :
      (fuel : ℕ) (o : Options) (cycles pc : ℕ) (w : W)
      → cycles < o.max_cycles
      → o.max_cycles < no_limit
      → o.max_cycles ≤ cycles + fuel
      → Ensures IsEnded (run sim fuel o cycles pc w)
  unfolding run
  run-IsEnded zero o cycles pc w h k l = absurd (omega arith)
  run-IsEnded (suc fuel) o cycles pc w h k l = Ensures-step _ (goes_on sim o pc w) _ λ on h1.
      Ensures-test IsEnded on _ _ tt (
        Ensures-step _ (sim.get_pc w) _ λ p hp. Ensures-step _ (sim.step w) _ λ w1 hw.
          rw (limited o cycles k (omega arith)) (elim (Bool-cases (o.max_cycles == cycles + 1)) [
            | inl e ↦ rw e tt
            | inr e ↦ rw e (
                Ensures-step _ (trace_from sim o p w1) _ λ w2 ht.
                  run-IsEnded fuel o (add32 cycles 1) p w2 (unfold add32 in ground arith) k
                    (unfold add32 in ground arith))
          ]))

  -- More fuel does not change a run that has ended.
  run-stable :
      (fuel more : ℕ) (o : Options) (cycles pc : ℕ) (w : W)
      → fuel ≤ more
      → Ensures IsEnded (run sim fuel o cycles pc w)
      → run sim more o cycles pc w ≡ run sim fuel o cycles pc w
  unfolding run
  run-stable zero more o cycles pc w l h = absurd h
  run-stable (suc fuel) zero o cycles pc w l h = absurd (omega arith)
  run-stable (suc fuel) (suc more) o cycles pc w l h =
      >>=-agree IsEnded (goes_on sim o pc w) _ _ h λ on h1.
        test-agree IsEnded on _ _ _ _ h1 (λ _. refl)
          λ h2. >>=-agree IsEnded (sim.get_pc w) _ _ h2 λ p h3.
            >>=-agree IsEnded (sim.step w) _ _ h3 λ w1 h4.
              test-agree IsEnded (at_limit sim o (add32 cycles 1)) _ _ _ _ h4
                (λ h5.
                  >>=-agree IsEnded (trace_from sim o p w1) _ _ h5
                    λ w2 h6. run-stable fuel more o (add32 cycles 1) p w2 (omega arith) h6)
                (λ _. refl)

  -- With a limit of at least one cycle, and not the int -1, the main loop ends: within that many
  -- rounds it has returned, or one of the simulator's calls has left the process. More fuel than
  -- that changes nothing.
  pub run-terminates :
      (o : Options) (w : W) (more : ℕ)
      → 0 < o.max_cycles
      → o.max_cycles < no_limit
      → o.max_cycles ≤ more
      → Ensures IsEnded (run sim o.max_cycles o 0 0 w)
        × (run sim more o 0 0 w ≡ run sim o.max_cycles o 0 0 w)
  run-terminates o w more h k l =
      let ended = run-IsEnded o.max_cycles o 0 0 w h k (omega arith) in
      (ended, run-stable o.max_cycles more o 0 0 w l ended)
