-- ===== src/Cosim/Lockstep.antt =====
-- What cosim::step establishes, and when it goes on.
use mathlib.Core.Path.{subst}
use riscv_v2f_optimized.Prelude.{
  ℕ, zero, suc, ◌+◌, ◌≤◌, ◌<◌, true, ◌&&◌, ◌==◌, ==_iff, List, [], ◌∷◌, ◌≡◌, refl, sym, ap, ◌∙◌,
  arith, Bool-cases, inl, inr,
}
use riscv_v2f_optimized.Prelude.Outcome.{
  done, Ensures, Ensures-step, Ensures-unless, Ensures-map, Ensures-bind, done-injective,
}
use riscv_v2f_optimized.Cosim.Api.{CpuApi, load_event, load_result_event, store_event}
use riscv_v2f_optimized.Cosim.{
  CpuItem, Cosim, deref, for_each, front, check_events, compare_pcs, compare_register,
  compare_registers, compare_all, step_all,
}

module _ {S : Type 0} (api : CpuApi S) where
  -- Where both models give a value for the register, it is one value.
  abbrev pub SameRegister : S → S → ℕ → Type 0
  SameRegister a b r =
      (api.get_reg_valid a r && api.get_reg_valid b r) ≡ true
      → api.get_register a r ≡ api.get_register b r

  -- The model behind an item stands at the pc of `first`, with the same registers below `n`.
  abbrev pub Follows : S → ℕ → List S → CpuItem → Type 0
  Follows first n os it =
      (s : S) × (deref os it.cpu ≡ done s)
      × (api.get_pc first ≡ api.get_pc s)
      × ((r : ℕ) → r < n → SameRegister first s r)

  abbrev pub AllFollow : S → ℕ → List S → List CpuItem → Type 0
  AllFollow first n os [] = Unit {0}
  AllFollow first n os (it ∷ its) = Follows first n os it × AllFollow first n os its

  abbrev AllAt : S → List S → List CpuItem → Type 0
  AllAt first os [] = Unit {0}
  AllAt first os (it ∷ its) =
      ((s : S) × (deref os it.cpu ≡ done s) × (api.get_pc first ≡ api.get_pc s))
      × AllAt first os its

  compare_pcs-AllAt :
      (first : S) (its : List CpuItem) (os : List S)
      → Ensures (λ _. AllAt first os its) (compare_pcs api first its os)
  unfolding compare_pcs
  compare_pcs-AllAt first [] os = tt
  compare_pcs-AllAt first (it ∷ its) os = Ensures-step _ (deref os it.cpu) _ λ s hs.
      Ensures-step _ (api.get_pc first) _ λ a ha. Ensures-step _ (api.get_pc s) _ λ b hb.
        Ensures-unless _ (a == b) _ 255 λ e.
          Ensures-map (λ _. AllAt first os its) _ (compare_pcs api first its os)
            (compare_pcs-AllAt first its os)
            λ u rest. ((s, hs, ha ∙ ap done ((==_iff a b).0 e) ∙ sym hb), rest)

  -- Register `r` agrees in all items.
  AllHave : ℕ → S → List S → List CpuItem → Type 0
  AllHave r first os [] = Unit {0}
  AllHave r first os (it ∷ its) =
      ((s : S) → deref os it.cpu ≡ done s → SameRegister first s r) × AllHave r first os its

  compare_register-AllHave :
      (r : ℕ) (first : S) (its : List CpuItem) (os : List S)
      → Ensures (λ _. AllHave r first os its) (compare_register api r first its os)
  unfolding compare_register AllHave
  compare_register-AllHave r first [] os = tt
  compare_register-AllHave r first (it ∷ its) os = Ensures-step _ (deref os it.cpu) _ λ s hs.
      elim (Bool-cases (api.get_reg_valid first r && api.get_reg_valid s r)) [
        | inr e ↦ rw e (
            Ensures-map (λ _. AllHave r first os its) _ (compare_register api r first its os)
              (compare_register-AllHave r first its os) λ u rest. (only s r hs (λ v. cc), rest))
        | inl e ↦ rw e (
            Ensures-step _ (api.get_register first r) _ λ a ha.
              Ensures-step _ (api.get_register s r) _ λ b hb. Ensures-unless _ (a == b) _ 255 λ e'.
                Ensures-map (λ _. AllHave r first os its) _ (compare_register api r first its os)
                  (compare_register-AllHave r first its os)
                  λ u rest. (only s r hs (λ v. ha ∙ ap done ((==_iff a b).0 e') ∙ sym hb), rest))
      ]
    where
      only :
          (s : S) (r : ℕ)
          → deref os it.cpu ≡ done s
          → SameRegister first s r
          → (t : S) → deref os it.cpu ≡ done t
          → SameRegister first t r
      only s r hs h t ht = subst (λ x. SameRegister first x r) (done-injective (sym hs ∙ ht)) h

  compare_registers-AllHave :
      (left i : ℕ) (first : S) (its : List CpuItem) (os : List S)
      → Ensures
          (λ _. (r : ℕ) → i ≤ r → r < i + left → AllHave r first os its)
          (compare_registers api left i first its os)
  unfolding compare_registers
  compare_registers-AllHave zero i first its os = λ r h k. absurd (omega arith)
  compare_registers-AllHave (suc left) i first its os =
      Ensures-bind (λ _. AllHave i first os its) _ (compare_register api i first its os) _
        (compare_register-AllHave i first its os)
        λ u now.
          Ensures-map (λ _. (r : ℕ) → i + 1 ≤ r → r < i + 1 + left → AllHave r first os its) _
            (compare_registers api left (i + 1) first its os)
            (compare_registers-AllHave left (i + 1) first its os)
            λ u' rest r h k. elim (Bool-cases (i == r)) [
              | inl e ↦ subst (λ x. AllHave x first os its) ((==_iff i r).0 e) now
              | inr e ↦ rest r (ground arith) (omega arith)
            ]

  AllFollow-of :
      (first : S) (n : ℕ) (its : List CpuItem) (os : List S)
      → AllAt first os its
      → ((r : ℕ) → r < n → AllHave r first os its)
      → AllFollow first n os its
  unfolding AllHave
  AllFollow-of first n [] os h k = tt
  AllFollow-of first n (it ∷ its) os ((s, hs, e), h) k =
      ((s, hs, e, λ r hr. (k r hr).0 s hs), AllFollow-of first n its os h (λ r hr. (k r hr).1))

  -- All models stand at one pc, with the same registers.
  pub record AreTogether (w : Cosim S) : Type 0 where
    pub first : S
    pub count : ℕ
    pub is_first : front w.m_cpu w.objects ≡ done first
    pub counted : api.get_num_reg first ≡ done count
    pub follow : AllFollow first count w.objects w.m_cpu

  compare_all-AreTogether :
      (w : Cosim S) → Ensures (λ _. AreTogether w) (compare_all api w.m_cpu w.objects)
  unfolding compare_all
  compare_all-AreTogether w = over w.m_cpu refl
    where
      over :
          (its : List CpuItem)
          → w.m_cpu ≡ its
          → Ensures (λ _. AreTogether w) (compare_all api its w.objects)
      over [] e = tt
      over (it ∷ its) e = Ensures-step _ (deref w.objects it.cpu) _ λ first hf.
          Ensures-bind (λ _. AllAt first w.objects (it ∷ its)) _
            (compare_pcs api first (it ∷ its) w.objects) _
            (compare_pcs-AllAt first (it ∷ its) w.objects)
            λ u at. Ensures-step _ (api.get_num_reg first) _ λ n hn.
              Ensures-map (λ _. (r : ℕ) → 0 ≤ r → r < 0 + n → AllHave r first w.objects (it ∷ its))
                _ (compare_registers api n 0 first (it ∷ its) w.objects)
                (compare_registers-AllHave n 0 first (it ∷ its) w.objects)
                λ u' have. record {
                  first = first;
                  count = n;
                  is_first = ap (λ l. front l w.objects) e ∙ hf;
                  counted = hn;
                  follow = subst (AllFollow first n w.objects) (sym e) (
                      AllFollow-of first n (it ∷ its) w.objects at
                        (λ r hr. have r (omega arith) (omega arith)));
                }

  -- Whenever cosim::step returns, all attached models stand at the same pc, and every register
  -- that two of them report valid has one value.
  pub step_all-AreTogether : (w : Cosim S) → Ensures AreTogether (step_all api w)
  unfolding step_all
  step_all-AreTogether w =
      Ensures-step _ (check_events api load_event w.m_cpu w.objects) _ λ os1 h1.
        Ensures-step _ (check_events api load_result_event w.m_cpu os1) _ λ os2 h2.
          Ensures-step _ (check_events api store_event w.m_cpu os2) _ λ os3 h3.
            Ensures-step _ (for_each api.step w.m_cpu os3) _ λ os4 h4.
              Ensures-bind (λ _. AreTogether (record w { objects = os4 })) _
                (compare_all api w.m_cpu os4) _
                (compare_all-AreTogether (record w { objects = os4 })) λ u h. h
