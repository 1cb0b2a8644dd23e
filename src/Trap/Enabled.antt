-- ===== src/Trap/Enabled.antt =====
-- Which interrupts may be taken, one by one: riscv.cpp's two sets against the bits of mip, mie, mideleg
-- and mstatus.
use native.Mathlib.Nat.{pow-suc}
use riscv_v2f_optimized.Prelude.{
  ℕ, zero, suc, ◌-◌, ◌*◌, ◌/◌, ◌^◌, ◌<◌, Bool, true, false, ◌&&◌, ◌||◌, ◌==◌, ltb, min, ◌≡◌, ◌⊎◌,
  inl, inr, refl, ap, sym, ◌∙◌, arith, Bool-cases, bit_and,
}
use riscv_v2f_optimized.Word.{nonzero, not32, neg32}
use riscv_v2f_optimized.Word.Bits.{
  bit, bit-lt, bit-bit_and, bit-zero, bit_ext, bit_and-lt, bit_and_pow, pow_pos,
}
use riscv_v2f_optimized.Machine.{Csr}
use riscv_v2f_optimized.Trap.{as_int, m_enabled, s_enabled, enabled_interrupts}

-- Interrupt `k` is pending and switched on.
abbrev pub IsWaiting : Csr → ℕ → Type 0
IsWaiting csr k = (bit csr.mip k ≡ 1) × (bit csr.mie k ≡ 1)

-- Machine level lets interrupts in: always below machine mode, and in machine mode if MIE, bit 3 of
-- mstatus, is set.
abbrev pub LetsMachine : Csr → Type 0
LetsMachine csr = (csr.mpriv < 3) ⊎ ((csr.mpriv ≡ 3) × (bit csr.msr 3 ≡ 1))

-- The same for supervisor level with SIE, bit 1.
abbrev pub LetsSuper : Csr → Type 0
LetsSuper csr = (csr.mpriv < 1) ⊎ ((csr.mpriv ≡ 1) × (bit csr.msr 1 ≡ 1))

-- Interrupt `k` is due at a level: at machine level if it is not delegated, else at supervisor level.
abbrev pub IsForMachine : Csr → ℕ → Type 0
IsForMachine csr k = IsWaiting csr k × (bit csr.mideleg k ≡ 0) × LetsMachine csr

abbrev pub IsForSuper : Csr → ℕ → Type 0
IsForSuper csr k = IsWaiting csr k × (bit csr.mideleg k ≡ 1) × LetsSuper csr

-- Interrupt `k` may be taken: those of supervisor level wait for all of machine level.
abbrev pub IsEnabled : Csr → ℕ → Type 0
IsEnabled csr k =
    IsForMachine csr k ⊎ (IsForSuper csr k × ((j : ℕ) → j < 32 → IsForMachine csr j → ⊥))

-- Both directions of a decision.
abbrev Decides : Bool → Type 0 → Type 0
Decides b P = (b ≡ true → P) × (P → b ≡ true)

bit-complement : (n x k : ℕ) → x < 2 ^ n → k < n → bit (2 ^ n - 1 - x) k ≡ 1 - bit x k
unfolding bit
bit-complement zero x k h lt = absurd (omega arith)
bit-complement (suc n) x zero h lt = omega (arith, pow-suc 2 n)
bit-complement (suc n) x (suc k) h lt =
    ap (λ t. bit t k) half ∙ bit-complement n (x / 2) k (omega (arith, pow-suc 2 n)) (omega arith)
  where
    half : (2 ^ suc n - 1 - x) / 2 ≡ 2 ^ n - 1 - x / 2
    half = omega (arith, pow-suc 2 n)

bit-not32 : (x k : ℕ) → x < 2 ^ 32 → k < 32 → bit (not32 x) k ≡ 1 - bit x k
unfolding not32
bit-not32 x k h lt = bit-complement 32 x k h lt

-- `-b` is the word of which every bit is `b`.
bit-spread : (b : Bool) (k : ℕ) → k < 32 → bit (neg32 (as_int b)) k ≡ as_int b
unfolding neg32 as_int
bit-spread true k lt = bit-complement 32 0 k (omega arith) lt ∙ ap (λ t. 1 - t) (bit-zero k)
bit-spread false k lt = bit-zero k

pub nonzero-bit_and : (x k : ℕ) → nonzero (bit_and x (2 ^ k)) ≡ (bit x k == 1)
nonzero-bit_and x k =
    ap nonzero (bit_and_pow k x) ∙ scaled (bit x k) (2 ^ k) (bit-lt x k) (pow_pos k)
  where
    scaled : (b p : ℕ) → b < 2 → 0 < p → nonzero (b * p) ≡ (b == 1)
    scaled zero p hb hp = ground arith
    scaled (suc zero) p hb hp = ground arith
    scaled (suc (suc b)) p hb hp = absurd (omega arith)

-- A level `l` lets interrupts in, decided.
level : (l p b : ℕ) → Decides (ltb p l || (p == l && b == 1)) ((p < l) ⊎ ((p ≡ l) × (b ≡ 1)))
level l p b = (there, back)
  where
    there : (ltb p l || (p == l && b == 1)) ≡ true → (p < l) ⊎ ((p ≡ l) × (b ≡ 1))
    there h = elim (Bool-cases (ltb p l)) [
      | inl e ↦ inl (ground arith)
      | inr e ↦ inr (ground arith, ground arith)
    ]

    back : (p < l) ⊎ ((p ≡ l) × (b ≡ 1)) → (ltb p l || (p == l && b == 1)) ≡ true
    back (inl h) = ground arith
    back (inr (h, k)) = ground arith

m_enabled-LetsMachine : (csr : Csr) → Decides (m_enabled csr) (LetsMachine csr)
unfolding m_enabled
m_enabled-LetsMachine csr = rw (nonzero-bit_and csr.msr 3) (level 3 csr.mpriv (bit csr.msr 3))

s_enabled-LetsSuper : (csr : Csr) → Decides (s_enabled csr) (LetsSuper csr)
unfolding s_enabled
s_enabled-LetsSuper csr = rw (nonzero-bit_and csr.msr 1) (level 1 csr.mpriv (bit csr.msr 1))

-- The two sets of enabled_interrupts.
abbrev machine_set : Csr → ℕ
machine_set csr =
    bit_and (bit_and (bit_and csr.mip csr.mie) (not32 csr.mideleg)) (neg32 (as_int (m_enabled csr)))

abbrev super_set : Csr → ℕ
super_set csr =
    bit_and (bit_and (bit_and csr.mip csr.mie) csr.mideleg) (neg32 (as_int (s_enabled csr)))

-- Bit `k` of the meet of four words, the last of which has one value everywhere.
bit-meet :
    (a b c k : ℕ) (t : Bool)
    → k < 32
    → bit (bit_and (bit_and (bit_and a b) c) (neg32 (as_int t))) k
      ≡ min (min (min (bit a k) (bit b k)) (bit c k)) (as_int t)
bit-meet a b c k t lt =
    bit-bit_and (bit_and (bit_and a b) c) (neg32 (as_int t)) k
    ∙ ap (λ x. min x (bit (neg32 (as_int t)) k))
        (bit-bit_and (bit_and a b) c k ∙ ap (λ x. min x (bit c k)) (bit-bit_and a b k))
    ∙ ap (λ x. min (min (min (bit a k) (bit b k)) (bit c k)) x) (bit-spread t k lt)

-- All four bits are set.
all_set :
    (x y z : ℕ) (t : Bool) (P : Type 0)
    → x < 2
    → y < 2
    → z < 2
    → Decides t P
    → (min (min (min x y) z) (as_int t) ≡ 1 → ((x ≡ 1) × (y ≡ 1)) × (z ≡ 1) × P)
      × (((x ≡ 1) × (y ≡ 1)) × (z ≡ 1) × P → min (min (min x y) z) (as_int t) ≡ 1)
all_set x y z true P hx hy hz (d, e) =
    (λ h. ((omega arith, omega arith), omega arith, d refl), λ ((p, q), r, u). omega arith)
all_set x y z false P hx hy hz (d, e) =
    (λ h. absurd (omega arith), λ ((p, q), r, u). absurd (false-not_true (e u)))
  where
    false-not_true : false ≡ true → ⊥
    false-not_true h = cc

machine_set-IsForMachine :
    (csr : Csr) (k : ℕ)
    → csr.mideleg < 2 ^ 32
    → k < 32
    → (bit (machine_set csr) k ≡ 1 → IsForMachine csr k)
      × (IsForMachine csr k → bit (machine_set csr) k ≡ 1)
machine_set-IsForMachine csr k h lt =
    let meet =
      bit-meet csr.mip csr.mie (not32 csr.mideleg) k (m_enabled csr) lt
      ∙ ap (λ z. min (min (min (bit csr.mip k) (bit csr.mie k)) z) (as_int (m_enabled csr)))
          (bit-not32 csr.mideleg k h lt) in
    let (there, back) =
      all_set (bit csr.mip k) (bit csr.mie k) (1 - bit csr.mideleg k) (m_enabled csr)
        (LetsMachine csr) (bit-lt csr.mip k) (bit-lt csr.mie k) (omega arith)
        (m_enabled-LetsMachine csr) in
    (
      λ e. let (w, d, l) = there (sym meet ∙ e) in (w, omega (arith, bit-lt csr.mideleg k), l),
      λ (w, d, l). meet ∙ back (w, omega arith, l),
    )

super_set-IsForSuper :
    (csr : Csr) (k : ℕ)
    → k < 32
    → (bit (super_set csr) k ≡ 1 → IsForSuper csr k)
      × (IsForSuper csr k → bit (super_set csr) k ≡ 1)
super_set-IsForSuper csr k lt =
    let meet = bit-meet csr.mip csr.mie csr.mideleg k (s_enabled csr) lt in
    let (there, back) =
      all_set (bit csr.mip k) (bit csr.mie k) (bit csr.mideleg k) (s_enabled csr) (LetsSuper csr)
        (bit-lt csr.mip k) (bit-lt csr.mie k) (bit-lt csr.mideleg k) (s_enabled-LetsSuper csr) in
    (λ e. there (sym meet ∙ e), λ f. meet ∙ back f)

-- A word without a bit is zero.
no_bits : (x : ℕ) → x < 2 ^ 32 → ((k : ℕ) → k < 32 → bit x k ≡ 1 → ⊥) → x ≡ 0
no_bits x h none = bit_ext 32 x 0 h (omega arith) λ k lt. bit_clear k (none k lt) ∙ sym (bit-zero k)
  where
    bit_clear : (k : ℕ) → (bit x k ≡ 1 → ⊥) → bit x k ≡ 0
    bit_clear k n = elim (Bool-cases (bit x k == 1)) [
      | inl e ↦ absurd (n (ground arith))
      | inr e ↦ ground (arith, bit-lt x k)
    ]

-- Bit `k` of the set is set exactly if interrupt `k` may be taken.
pub enabled_interrupts-IsEnabled :
    (csr : Csr) (k : ℕ)
    → csr.mip < 2 ^ 32
    → csr.mideleg < 2 ^ 32
    → k < 32
    → (bit (enabled_interrupts csr) k ≡ 1 → IsEnabled csr k)
      × (IsEnabled csr k → bit (enabled_interrupts csr) k ≡ 1)
unfolding enabled_interrupts
enabled_interrupts-IsEnabled csr k hp hd lt =
    let (there, back) = machine_set-IsForMachine csr k hd lt in
    let (there_s, back_s) = super_set-IsForSuper csr k lt in
    elim (Bool-cases (nonzero (machine_set csr))) [
      | inl e ↦ rw e (
        λ h. inl (there h),
        λ f. elim f [
          | inl m ↦ back m
          | inr (m, none) ↦ absurd (
              some_bit e (
                no_bits (machine_set csr) small
                  λ j l h. none j l ((machine_set-IsForMachine csr j hd l).0 h)))
        ],
      )
      | inr e ↦ rw e (
        λ h. inr (there_s h, λ j l m. no_bit e j ((machine_set-IsForMachine csr j hd l).1 m)),
        λ f. elim f [ inl m ↦ absurd (no_bit e k (back m)) | inr (m, none) ↦ back_s m ],
      )
    ]
  where
    small : machine_set csr < 2 ^ 32
    small = bit_and-lt 32 _ _ (bit_and-lt 32 _ _ (bit_and-lt 32 csr.mip csr.mie hp))

    some_bit : nonzero (machine_set csr) ≡ true → machine_set csr ≡ 0 → ⊥
    some_bit e z = ground arith

    no_bit : nonzero (machine_set csr) ≡ false → (j : ℕ) → bit (machine_set csr) j ≡ 1 → ⊥
    no_bit e j h = omega (arith, ap (λ x. bit x j) zero_set, bit-zero j)
      where
        zero_set : machine_set csr ≡ 0
        zero_set = ground arith
