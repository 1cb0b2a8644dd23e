-- ===== src/Waves/Delay.antt =====
-- When the waves of the TCM core begin.
use riscv_v2f_optimized.Prelude.{
  ℕ, ◌^◌, ◌≤◌, ◌<◌, true, false, List, [], ◌∷◌, ◌++◌, some, ◌≡◌, refl, arith, ltb, ◌∙◌, ap, sym,
}
use mathlib.Core.List.{append-nil, append_assoc}
use riscv_v2f_optimized.Prelude.Outcome.{done, >>=-done}
use riscv_v2f_optimized.Waves.{Trace, trace_rtl, trace_edges, tcm_trace_enable}

abbrev pub All : (ℕ → Type 0) → List ℕ → Type 0
All P [] = Unit
All P (x ∷ xs) = P x × All P xs

ltb_of_lt : (a b : ℕ) → a < b → ltb a b ≡ true
ltb_of_lt a b h = ground arith

ltb_of_le : (a b : ℕ) → b ≤ a → ltb a b ≡ false
ltb_of_le a b h = ground arith

-- trace_rtl on each of its branches.
dumps_it :
    (x : ℕ) (s : Trace)
    → s.delay_waves ≡ false
    → s.vcd ≡ true
    → x < 2 ^ 31
    → trace_rtl x s ≡ done (record s { dumps = s.dumps ++ x ∷ [] })
unfolding trace_rtl
dumps_it x s d v h = rw (d, v, ltb_of_lt x (2 ^ 31) h) refl

stays : (x : ℕ) (s : Trace) → s.delay_waves ≡ true → x ≤ s.waves_start → trace_rtl x s ≡ done s
unfolding trace_rtl
stays x s d h = simp (d, ltb_of_le s.waves_start x h) refl

starts :
    (now : ℕ) (s : Trace)
    → s.delay_waves ≡ true
    → s.waves_start < now
    → trace_rtl now s ≡ done (record s { delay_waves = false })
unfolding trace_rtl
starts now s d h = simp (d, ltb_of_lt s.waves_start now h) refl

-- No longer delayed: every time is dumped.
trace_edges-on :
    (after : List ℕ) (s : Trace)
    → s.delay_waves ≡ false
    → s.vcd ≡ true
    → All (λ x. x < 2 ^ 31) after
    → trace_edges after s ≡ done (record s { dumps = s.dumps ++ after })
unfolding trace_edges
trace_edges-on [] s d v h = ap (λ l. done (record s { dumps = l })) (sym (append-nil s.dumps))
trace_edges-on (x ∷ more) s d v (h, hs) = >>=-done _ (dumps_it x s d v h) (
    trace_edges-on more (record s { dumps = s.dumps ++ x ∷ [] }) d v hs
    ∙ ap (λ l. done (record s { dumps = l })) (append_assoc s.dumps (x ∷ []) more))

-- Still delayed: nothing changes up to the start.
trace_edges-before :
    (before more : List ℕ) (s : Trace)
    → s.delay_waves ≡ true
    → All (λ x. x ≤ s.waves_start) before
    → trace_edges (before ++ more) s ≡ trace_edges more s
unfolding trace_edges
trace_edges-before [] more s d h = refl
trace_edges-before (x ∷ before) more s d (h, hs) =
    >>=-done _ (stays x s d h) (trace_edges-before before more s d hs)

-- With a delay, the first change of the clock behind the start is noticed and not dumped, and every later
-- one is dumped, if its time is an int.
trace_edges-delayed :
    (t : Trace) (start now : ℕ) (before after : List ℕ)
    → All (λ x. x ≤ start) before
    → start < now
    → All (λ x. x < 2 ^ 31) after
    → trace_edges (before ++ now ∷ after) (tcm_trace_enable (some start) t)
      ≡ done (record t {
        vcd = true;
        delay_waves = false;
        waves_start = start;
        core_traces = true;
        dumps = t.dumps ++ after;
      })
unfolding tcm_trace_enable trace_edges
trace_edges-delayed t start now before after hb hn ha =
    trace_edges-before before (now ∷ after) (tcm_trace_enable (some start) t) refl hb
    ∙ >>=-done _ (starts now (tcm_trace_enable (some start) t) refl hn) (
        trace_edges-on after (record (tcm_trace_enable (some start) t) { delay_waves = false }) refl
          refl ha)
