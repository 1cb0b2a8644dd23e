-- ===== src/Trap/Interrupts.antt =====
-- Which interrupt is taken, if any.
use mathlib.Core.Path.{subst}
use riscv_v2f_optimized.Prelude.{
  ℕ, suc, zero, ◌+◌, ◌^◌, ◌≤◌, ◌<◌, Bool, true, false, ◌==◌, ◌≡◌, ==_iff, ap, ◌∙◌, arith,
  Bool-cases, inl, inr, refl, bit_and, Option, none, some,
}
use riscv_v2f_optimized.Word.{nonzero, shl32}
use riscv_v2f_optimized.Word.Bits.{bit, bit-lt, bit-zero, zero-bit_and, all_bits, all_bits_sound}
use riscv_v2f_optimized.Machine.{Riscv, Csr}
use riscv_v2f_optimized.Trap.Enabled.{IsEnabled, nonzero-bit_and, enabled_interrupts-IsEnabled}
use riscv_v2f_optimized.Trap.{lowest_irq, enabled_interrupts, take_interrupt, serve_irq, exception}
use riscv_v2f_optimized.Isa.Trap.{irq_min, irq_max, mcause_interrupt}

one_shifted : ℕ → Bool
one_shifted i = shl32 1 i == 2 ^ i

one_shifted_table : all_bits 32 one_shifted ≡ true
unfolding all_bits one_shifted shl32
one_shifted_table = refl

shl32-one : (i : ℕ) → i < 32 → shl32 1 i ≡ 2 ^ i
unfolding one_shifted
shl32-one i h = (==_iff _ _).0 (all_bits_sound 32 one_shifted i one_shifted_table h)

nonzero-bit : (x i : ℕ) → i < 32 → nonzero (bit_and x (shl32 1 i)) ≡ (bit x i == 1)
nonzero-bit x i h = ap (λ t. nonzero (bit_and x t)) (shl32-one i h) ∙ nonzero-bit_and x i

-- The result of the search among the numbers from `i` on.
abbrev pub IsLowest : ℕ → ℕ → ℕ → Option ℕ → Type 0
IsLowest left i x none = (k : ℕ) → i ≤ k → k < i + left → bit x k ≡ 0
IsLowest left i x (some j) =
    (i ≤ j) × (j < i + left) × (bit x j ≡ 1) × ((k : ℕ) → i ≤ k → k < j → bit x k ≡ 0)

-- The loop over the interrupt numbers finds the lowest bit that is set, and none only if there is
-- none.
pub lowest_irq-IsLowest : (left i x : ℕ) → i + left ≤ 32 → IsLowest left i x (lowest_irq left i x)
unfolding lowest_irq
lowest_irq-IsLowest zero i x h = λ k a b. absurd (omega arith)
lowest_irq-IsLowest (suc left) i x h = elim (Bool-cases (bit x i == 1)) [
  | inl e ↦
      rw (nonzero-bit x i (omega arith), e)
        (omega arith, omega arith, ground arith, λ k a b. absurd (omega arith))
  | inr e ↦
      rw (nonzero-bit x i (omega arith), e)
        (behind (bit_clear e) (lowest_irq left (i + 1) x)
          (lowest_irq-IsLowest left (i + 1) x (omega arith)))
]
  where
    bit_clear : (bit x i == 1) ≡ false → bit x i ≡ 0
    bit_clear e = ground (arith, bit-lt x i)

    -- A number from `i` on is `i`, or from `i + 1` on.
    from : (P : ℕ → Type 0) (k : ℕ) → i ≤ k → P i → (i + 1 ≤ k → P k) → P k
    from P k a p q = elim (Bool-cases (i == k)) [
      | inl e ↦ subst P ((==_iff i k).0 e) p
      | inr e ↦ q (ground arith)
    ]

    behind : bit x i ≡ 0 → (o : Option ℕ) → IsLowest left (i + 1) x o → IsLowest (suc left) i x o
    behind z none hn = λ k a b. from (λ n. bit x n ≡ 0) k a z (λ a'. hn k a' (omega arith))
    behind z (some j) (h1, h2, h3, h4) =
        (omega arith, omega arith, h3, λ k a b. from (λ n. bit x n ≡ 0) k a z (λ a'. h4 k a' b))

-- The end of an instruction at which the trap is decided.
abbrev pub IsServed : Riscv → ℕ → Riscv × Bool → Type 0
IsServed cpu pc (cpu', true) =
    (j : ℕ) × (irq_min ≤ j)
    × (j < irq_max)
    × IsEnabled cpu.csr j
    × ((k : ℕ) → irq_min ≤ k → k < j → IsEnabled cpu.csr k → ⊥)
    × (cpu' ≡ exception cpu (mcause_interrupt + j) pc 0)
IsServed cpu pc (cpu', false) =
    ((k : ℕ) → irq_min ≤ k → k < irq_max → IsEnabled cpu.csr k → ⊥) × (cpu' ≡ cpu)

enabled_interrupts-none :
    (csr : Csr) → nonzero (bit_and csr.mip csr.mie) ≡ false → enabled_interrupts csr ≡ 0
unfolding enabled_interrupts
enabled_interrupts-none csr h =
    rw (nothing, zero-bit_and, zero-bit_and, zero-bit_and, zero-bit_and) refl
  where
    nothing : bit_and csr.mip csr.mie ≡ 0
    nothing = ground arith

module _ (cpu : Riscv) (pc : ℕ) (hp : cpu.csr.mip < 2 ^ 32) (hd : cpu.csr.mideleg < 2 ^ 32) where
  clear-IsEnabled :
      (k : ℕ) → k < irq_max → bit (enabled_interrupts cpu.csr) k ≡ 0 → IsEnabled cpu.csr k → ⊥
  clear-IsEnabled k lt z f =
      let set = (enabled_interrupts-IsEnabled cpu.csr k hp hd (omega arith)).1 f in omega arith

  IsServed-none : enabled_interrupts cpu.csr ≡ 0 → IsServed cpu pc (cpu, false)
  IsServed-none h = (λ k a b. clear-IsEnabled k b (ap (λ x. bit x k) h ∙ bit-zero k), refl)

  IsServed-found :
      (o : Option ℕ)
      → IsLowest 11 irq_min (enabled_interrupts cpu.csr) o
      → IsServed cpu pc (serve_irq cpu pc o)
  unfolding serve_irq
  IsServed-found none h = (λ k a b. clear-IsEnabled k b (h k a b), refl)
  IsServed-found (some j) (h1, h2, h3, h4) = (
    j,
    h1,
    h2,
    (enabled_interrupts-IsEnabled cpu.csr j hp hd (omega arith)).0 h3,
    λ k a b. clear-IsEnabled k (omega arith) (h4 k a b),
    refl,
  )

  -- With mip and mideleg words, an instruction that raised no exception ends with the lowest of the
  -- interrupts 1 to 11 that may be taken, as an exception with the interrupt bit in its cause; where
  -- none of them may be taken the state stays. An interrupt may be taken if it is pending and switched
  -- on and its level lets it in: machine level, below machine mode or with MIE, if it is not delegated;
  -- and supervisor level, in user mode or with SIE in supervisor mode, if it is delegated and no
  -- interrupt of all 32 is due at machine level.
  pub take_interrupt-IsServed : IsServed cpu pc (take_interrupt cpu pc false)
  unfolding take_interrupt
  take_interrupt-IsServed = elim (Bool-cases (nonzero (bit_and cpu.csr.mip cpu.csr.mie))) [
    | inr p ↦ rw p (IsServed-none (enabled_interrupts-none cpu.csr p))
    | inl p ↦ elim (Bool-cases (nonzero (enabled_interrupts cpu.csr))) [
      | inr q ↦ rw (p, q) (IsServed-none (ground arith))
      | inl q ↦
          rw (p, q)
            (IsServed-found (lowest_irq 11 irq_min (enabled_interrupts cpu.csr))
              (lowest_irq-IsLowest 11 irq_min (enabled_interrupts cpu.csr) (omega arith)))
    ]
  ]
