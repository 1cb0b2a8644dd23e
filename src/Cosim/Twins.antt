-- ===== src/Cosim/Twins.antt =====
-- Two models of the same kind, in the same state: they never drift apart.
use riscv_v2f_optimized.Prelude.{
  ℕ, zero, suc, ◌+◌, Bool, true, false, not, ◌&&◌, ==_refl, List, [], ◌∷◌, Option, Option, some,
  get_elem?, set, get_elem?-set_self, get_elem?-set_ne, ◌≡◌, ◌≢◌, refl, sym, ap, ◌∙◌, Bool-cases,
  inl, inr,
}
use riscv_v2f_optimized.Prelude.Outcome.{Outcome, done, >>=-done}
use riscv_v2f_optimized.Machine.{Event}
use riscv_v2f_optimized.Cosim.Api.{
  CpuApi, Kind, load_event, load_result_event, store_event, event_pop, is_nil,
}
use riscv_v2f_optimized.Cosim.{
  CpuItem, MemItem, Dump, or_undefined, call, for_each, all_ready, same_event, compare_events,
  check_events, compare_pcs, compare_register, compare_registers, compare_all, step_all,
}

module _ {S : Type 0} where
  -- Both pointers lead to the same state.
  abbrev pub AreTwins : CpuItem → CpuItem → S → List S → Type 0
  AreTwins a b s os = (get_elem? os a.cpu ≡ some s) × (get_elem? os b.cpu ≡ some s)

  AreTwins-set :
      (a b : CpuItem) (s t : S) (os : List S)
      → a.cpu ≢ b.cpu
      → AreTwins a b s os
      → AreTwins a b t (set (set os a.cpu t) b.cpu t)
  AreTwins-set a b s t os apart h = (
    get_elem?-set_ne (set os a.cpu t) b.cpu a.cpu t (λ e. apart (sym e))
        ∙ get_elem?-set_self os a.cpu t h.0,
    get_elem?-set_self (set os a.cpu t) b.cpu t (get_elem?-set_ne os a.cpu b.cpu t apart ∙ h.1),
  )

  for_each-twins :
      (a b : CpuItem) (f : S → Outcome S) (s t : S) (os : List S)
      → a.cpu ≢ b.cpu
      → AreTwins a b s os
      → f s ≡ done t
      → for_each f (a ∷ b ∷ []) os ≡ done (set (set os a.cpu t) b.cpu t)
  unfolding for_each call
  for_each-twins a b f s t os apart h e =
      rw (for_each, call, h.0, e, for_each, call, get_elem?-set_ne os a.cpu b.cpu t apart ∙ h.1, e)
        refl

module _ {S : Type 0} (api : CpuApi S) where
  -- The state after the oldest event of a queue was taken, if there is one.
  unfoldable pub drained : Kind → S → S
  drained k s = elim (api.queue k s) [ [] ↦ s | e ∷ es ↦ api.set_queue k es s ]

  same_event_refl : (e : Event) → same_event api e e ≡ true
  same_event_refl e = rw (==_refl e.arg1, ==_refl e.arg2) refl

  all_ready-twins :
      (a b : CpuItem) (k : Kind) (s : S) (os : List S)
      → AreTwins a b s os
      → all_ready api k (a ∷ b ∷ []) os ≡ done (not (is_nil api (api.queue k s)))
  unfolding all_ready
  all_ready-twins a b k s os h =
      >>=-done _ (ap or_undefined h.0) (
        >>=-done _ (>>=-done _ (ap or_undefined h.1) refl)
          (only (not (is_nil api (api.queue k s)))))
    where
      only : (c : Bool) → done (c && (c && true)) ≡ done c
      only true = refl
      only false = refl

  event_pop-some :
      (k : Kind) (s : S) (e : Event) (es : List Event)
      → api.queue k s ≡ e ∷ es
      → event_pop api k s ≡ done (api.set_queue k es s, e)
  unfolding event_pop
  event_pop-some k s e es h = rw (event_pop, h) refl

  -- Both queues hold the event, or neither holds one.
  check_events-twins :
      (a b : CpuItem) (k : Kind) (s : S) (os : List S)
      → a.cpu ≢ b.cpu
      → AreTwins a b s os
      → (os' : List S) × (check_events api k (a ∷ b ∷ []) os ≡ done os')
        × AreTwins a b (drained k s) os'
  unfolding check_events drained compare_events
  check_events-twins a b k s os apart h = over (api.queue k s) refl
    where
      over :
          (q : List Event)
          → api.queue k s ≡ q
          → (os' : List S) × (check_events api k (a ∷ b ∷ []) os ≡ done os')
            × AreTwins a b (elim q as (λ _. S) [ [] ↦ s | e ∷ es ↦ api.set_queue k es s ]) os'
      over [] e = (os, >>=-done _ (all_ready-twins a b k s os h) (rw e refl), h)
      over (ev ∷ es) e = (
        set (set os a.cpu (api.set_queue k es s)) b.cpu (api.set_queue k es s),
        >>=-done _ (all_ready-twins a b k s os h) (
            rw e (
              >>=-done _ (ap or_undefined h.0) (
                >>=-done _ (event_pop-some k s ev es e) (
                  >>=-done _
                    (ap or_undefined
                      (get_elem?-set_ne os a.cpu b.cpu (api.set_queue k es s) apart ∙ h.1))
                    (>>=-done _ (event_pop-some k s ev es e) (rw (same_event_refl ev) refl)))))),
        AreTwins-set a b s (api.set_queue k es s) os apart h,
      )

  compare_pcs-twins :
      (a b : CpuItem) (s : S) (os : List S) (pc : ℕ)
      → AreTwins a b s os
      → api.get_pc s ≡ done pc
      → compare_pcs api s (a ∷ b ∷ []) os ≡ done tt
  unfolding compare_pcs
  compare_pcs-twins a b s os pc h e = >>=-done _ (ap or_undefined h.0) (
      >>=-done _ e (
        >>=-done _ e (
          rw (==_refl pc) (
            >>=-done _ (ap or_undefined h.1)
              (>>=-done _ e (>>=-done _ e (rw (==_refl pc) refl)))))))

  compare_register-twins :
      (a b : CpuItem) (s : S) (os : List S) (r v : ℕ)
      → AreTwins a b s os
      → api.get_register s r ≡ done v
      → compare_register api r s (a ∷ b ∷ []) os ≡ done tt
  unfolding compare_register
  compare_register-twins a b s os r v h e = elim (Bool-cases (api.get_reg_valid s r)) [
    | inl f ↦ >>=-done _ (ap or_undefined h.0) (
        rw f (
          >>=-done _ e (
            >>=-done _ e (
              rw (==_refl v) (
                >>=-done _ (ap or_undefined h.1)
                  (rw f (>>=-done _ e (>>=-done _ e (rw (==_refl v) refl)))))))))
    | inr f ↦ >>=-done _ (ap or_undefined h.0) (rw f (>>=-done _ (ap or_undefined h.1) (rw f refl)))
  ]

  compare_registers-twins :
      (left i : ℕ) (a b : CpuItem) (s : S) (os : List S) (value : ℕ → ℕ)
      → AreTwins a b s os
      → ((r : ℕ) → api.get_register s r ≡ done (value r))
      → compare_registers api left i s (a ∷ b ∷ []) os ≡ done tt
  unfolding compare_registers
  compare_registers-twins zero i a b s os value h e = refl
  compare_registers-twins (suc left) i a b s os value h e =
      >>=-done _ (compare_register-twins a b s os i (value i) h (e i))
        (compare_registers-twins left (i + 1) a b s os value h e)

  -- Two models of one kind that start in one state, at different places in the store, pass every
  -- comparison: cosim::step returns, and both are in the state that one step leads to after the
  -- oldest event of each queue was taken. The model's own step has to return, and it has to have a
  -- pc and a value for each register.
  pub step_all-twins :
      (a b : CpuItem) (os : List S) (ms : List MemItem) (d : Option Dump) (s t : S) (pc n : ℕ)
      (value : ℕ → ℕ)
      → a.cpu ≢ b.cpu
      → AreTwins a b s os
      → api.step (drained store_event (drained load_result_event (drained load_event s))) ≡ done t
      → api.get_pc t ≡ done pc
      → api.get_num_reg t ≡ done n
      → ((r : ℕ) → api.get_register t r ≡ done (value r))
      → (os' : List S) × (step_all api
            (record { objects = os; m_cpu = a ∷ b ∷ []; m_mem = ms; m_dump = d })
          ≡ done (record { objects = os'; m_cpu = a ∷ b ∷ []; m_mem = ms; m_dump = d }))
        × AreTwins a b t os'
  unfolding step_all compare_all
  step_all-twins a b os ms d s t pc n value apart h hs hp hn hv =
      let (os1, e1, h1) = check_events-twins a b load_event s os apart h in
      let (os2, e2, h2) = check_events-twins a b load_result_event _ os1 apart h1 in
      let (os3, e3, h3) = check_events-twins a b store_event _ os2 apart h2 in
      let h4 = AreTwins-set a b _ t os3 apart h3 in
      let os4 = set (set os3 a.cpu t) b.cpu t in
      (
        os4,
        >>=-done _ e1 (
            >>=-done _ e2 (
              >>=-done _ e3 (
                >>=-done _ (for_each-twins a b api.step _ t os3 apart h3 hs) (
                  >>=-done _
                    (>>=-done _ (ap or_undefined h4.0) (
                      >>=-done _ (compare_pcs-twins a b t os4 pc h4 hp)
                        (>>=-done _ hn (compare_registers-twins n 0 a b t os4 value h4 hv))))
                    refl)))),
        h4,
      )
