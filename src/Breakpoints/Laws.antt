-- ===== src/Breakpoints/Laws.antt =====
-- The breakpoints as a multiset of addresses.
use riscv_v2f_optimized.Prelude.{
  ℕ, suc, ◌+◌, ◌-◌, Bool, true, false, not, ◌==◌, ◌≡◌, ap, sym, ◌∙◌, List, [], ◌∷◌, ◌++◌, Option,
  none, some, arith, Bool-cases, inl, inr, if◌then◌else◌, refl,
}
use riscv_v2f_optimized.Machine.{Riscv}
use riscv_v2f_optimized.Breakpoints.{
  set_breakpoint, clr_breakpoint, check_breakpoint, contains, erase_first, is_empty,
}

-- How often a breakpoint is set.
abbrev pub occurrences : List ℕ → ℕ → ℕ
occurrences [] q = 0
occurrences (b ∷ bs) q = let rest = occurrences bs q in if b == q then suc rest else rest

occurrences-append :
    (bs : List ℕ) (pc q : ℕ)
    → occurrences (bs ++ pc ∷ []) q ≡ occurrences bs q + (if pc == q then 1 else 0)
occurrences-append [] pc q = ground arith
occurrences-append (b ∷ bs) pc q = ground (arith, occurrences-append bs pc q)

contains-occurrences : (bs : List ℕ) (q : ℕ) → contains bs q ≡ not (occurrences bs q == 0)
unfolding contains
contains-occurrences [] q = refl
contains-occurrences (b ∷ bs) q = ground (arith, contains-occurrences bs q)

-- check_breakpoint, the multiset and the flag agree.
pub record AreBreakpoints (cpu : Riscv) (count : ℕ → ℕ) : Type 0 where
  pub counted : (q : ℕ) → occurrences cpu.breakpoints q ≡ count q
  pub flag : cpu.has_breakpoints ≡ not (is_empty cpu.breakpoints)

is_empty-append : (bs : List ℕ) (pc : ℕ) → is_empty (bs ++ pc ∷ []) ≡ false
is_empty-append [] pc = refl
is_empty-append (b ∷ bs) pc = refl

-- One breakpoint at `pc`.
abbrev pub one_at : ℕ → ℕ → ℕ
one_at pc q = if pc == q then 1 else 0

-- The outcomes of the search in clr_breakpoint.
abbrev IsErased : List ℕ → ℕ → Option (List ℕ) → Type 0
IsErased bs pc none = occurrences bs pc ≡ 0
IsErased bs pc (some bs') = (q : ℕ) → occurrences bs q ≡ occurrences bs' q + one_at pc q

erase_first-IsErased : (bs : List ℕ) (pc : ℕ) → IsErased bs pc (erase_first bs pc)
unfolding erase_first
erase_first-IsErased [] pc = refl
erase_first-IsErased (b ∷ bs) pc = elim (Bool-cases (b == pc)) [
  | inl e ↦ rw e λ q. ground arith
  | inr e ↦ rw e (behind e (erase_first bs pc) (erase_first-IsErased bs pc))
]
  where
    behind :
        (b == pc) ≡ false
        → (found : Option (List ℕ)) → IsErased bs pc found
        → IsErased (b ∷ bs) pc (elim found [ none ↦ none | some bs' ↦ some (b ∷ bs') ])
    behind e none h = rw e h
    behind e (some bs') h = λ q. ground (arith, h q)

-- A breakpoint is found exactly where one is set.
check_breakpoint-AreBreakpoints :
    (cpu : Riscv) (count : ℕ → ℕ) (q : ℕ)
    → AreBreakpoints cpu count
    → check_breakpoint cpu q ≡ not (count q == 0)
unfolding check_breakpoint
check_breakpoint-AreBreakpoints cpu count q h =
    contains-occurrences cpu.breakpoints q ∙ ap (λ n. not (n == 0)) (h.counted q)

-- set_breakpoint adds one breakpoint, returns true and keeps the flag right.
set_breakpoint-AreBreakpoints :
    (cpu : Riscv) (count : ℕ → ℕ) (pc : ℕ)
    → AreBreakpoints cpu count
    → ((set_breakpoint cpu pc).1 ≡ true)
      × AreBreakpoints (set_breakpoint cpu pc).0 (λ q. count q + one_at pc q)
unfolding set_breakpoint
set_breakpoint-AreBreakpoints cpu count pc h = (
  refl,
  record {
    counted =
        λ q. occurrences-append cpu.breakpoints pc q ∙ ap (λ n. n + one_at pc q) (h.counted q);
    flag = sym (ap not (is_empty-append cpu.breakpoints pc));
  },
)

-- clr_breakpoint removes one of the breakpoints at an address, keeps the others and the flag, and
-- tells whether there was one.
clr_breakpoint-AreBreakpoints :
    (cpu : Riscv) (count : ℕ → ℕ) (pc : ℕ)
    → AreBreakpoints cpu count
    → ((clr_breakpoint cpu pc).1 ≡ not (count pc == 0))
      × AreBreakpoints (clr_breakpoint cpu pc).0 (λ q. count q - one_at pc q)
unfolding clr_breakpoint
clr_breakpoint-AreBreakpoints cpu count pc h =
    cleared (erase_first cpu.breakpoints pc) (erase_first-IsErased cpu.breakpoints pc)
  where
    cleared :
        (found : Option (List ℕ))
        → IsErased cpu.breakpoints pc found
        → ((elim found as (λ _. Riscv × Bool) [
          | none ↦ (cpu, false)
          | some bs ↦ (record cpu { breakpoints = bs; has_breakpoints = not (is_empty bs) }, true)
        ]).1
            ≡ not (count pc == 0))
          × AreBreakpoints
              (elim found as (λ _. Riscv × Bool) [
                | none ↦ (cpu, false)
                | some bs ↦
                    (record cpu { breakpoints = bs; has_breakpoints = not (is_empty bs) }, true)
              ]).0
              (λ q. count q - one_at pc q)
    cleared none e = (
      ground (arith, h.counted pc),
      record { counted = λ q. h.counted q ∙ absent q; flag = h.flag },
    )
      where
        none_there : count pc ≡ 0
        none_there = sym (h.counted pc) ∙ e

        absent : (q : ℕ) → count q ≡ count q - one_at pc q
        absent q = elim (Bool-cases (pc == q)) [
          | inl u ↦ ground (arith, none_there, ap count (same q u))
          | inr u ↦ ground arith
        ]
          where
            same : (q : ℕ) → (pc == q) ≡ true → pc ≡ q
            same q u = ground arith
    cleared (some bs) e = (
      ground (arith, h.counted pc, e pc),
      record { counted = λ q. ground (arith, h.counted q, e q); flag = refl },
    )

-- The breakpoints are a multiset of addresses: check_breakpoint finds one exactly where one is set,
-- set_breakpoint adds one and returns true, clr_breakpoint removes one of those at the address and
-- tells whether there was one, and both keep the flag right.
pub breakpoints-AreBreakpoints :
    (cpu : Riscv) (count : ℕ → ℕ) (pc : ℕ)
    → AreBreakpoints cpu count
    → (check_breakpoint cpu pc ≡ not (count pc == 0))
      × ((set_breakpoint cpu pc).1 ≡ true)
      × AreBreakpoints (set_breakpoint cpu pc).0 (λ q. count q + one_at pc q)
      × ((clr_breakpoint cpu pc).1 ≡ not (count pc == 0))
      × AreBreakpoints (clr_breakpoint cpu pc).0 (λ q. count q - one_at pc q)
breakpoints-AreBreakpoints cpu count pc h =
    let (added, after_set) = set_breakpoint-AreBreakpoints cpu count pc h in
    let (found, after_clr) = clr_breakpoint-AreBreakpoints cpu count pc h in
    (check_breakpoint-AreBreakpoints cpu count pc h, added, after_set, found, after_clr)
