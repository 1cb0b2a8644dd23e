-- ===== src/Exec/Decode.antt =====
-- The chain of tests in execute: its patterns exclude one another, but for WFI behind the others.
use mathlib.Core.Option
use mathlib.Core.Path.{ap₂}
use riscv_v2f_optimized.Prelude.{
  ℕ, zero, suc, ◌^◌, ◌<◌, Bool, true, false, ◌&&◌, ltb, ==_iff, ==_false, ◌≡◌, ◌≢◌, refl, List, [],
  ◌∷◌, inl, inr, Option, none, some, get_elem?, ap, bit_and, bit_xor, arith, Bool-cases,
}
use riscv_v2f_optimized.Word.{nonzero}
use riscv_v2f_optimized.Word.Bits.{
  bit-lt, bit-zero, bit-bit_and, bit-bit_xor, bit_ext, bit_and-lt_right, bit_and-lt, all_bits,
  all_bits_sound,
}
use riscv_v2f_optimized.Isa.Opcodes.{Pattern, patterns}
use riscv_v2f_optimized.Exec.{matches, first_match, decode}

-- Some bit that both patterns test is 1 in one and 0 in the other.
clash : Pattern → Pattern → Bool
clash p q =
    ltb p.mask (2 ^ 32)
    && (ltb q.mask (2 ^ 32) && nonzero (bit_and (bit_xor p.bits q.bits) (bit_and p.mask q.mask)))

common_bits-eq :
    (x p q : ℕ) → p < 2 ^ 32 → bit_and (bit_xor (bit_and x p) (bit_and x q)) (bit_and p q) ≡ 0
common_bits-eq x p q hp =
    bit_ext 32 _ 0 (bit_and-lt_right 32 _ (bit_and p q) (bit_and-lt 32 p q hp)) (omega arith)
      λ k hk. ground (
        arith,
        bit-zero k,
        bit-bit_and (bit_xor (bit_and x p) (bit_and x q)) (bit_and p q) k,
        bit-bit_xor (bit_and x p) (bit_and x q) k,
        bit-bit_and x p k,
        bit-bit_and x q k,
        bit-bit_and p q k,
        bit-lt x k,
        bit-lt p k,
        bit-lt q k,
      )

clash_sound : (p q : Pattern) (x : ℕ) → clash p q ≡ true → matches p x ≡ true → matches q x ≡ false
unfolding clash
clash_sound p q x h e = elim (Bool-cases (matches q x)) [
  | inr miss ↦ miss
  | inl hit ↦ absurd (both ((==_iff _ p.bits).0 e) ((==_iff _ q.bits).0 hit))
]
  where
    both : bit_and x p.mask ≡ p.bits → bit_and x q.mask ≡ q.bits → ⊥
    both e₁ e₂ = ground (
      arith,
      common_bits-eq x p.mask q.mask,
      ap₂ (λ a b. bit_and (bit_xor a b) (bit_and p.mask q.mask)) e₁ e₂,
    )

-- `q` clashes with each of the first `i` patterns.
clashes_before : List Pattern → ℕ → Pattern → Bool
clashes_before [] i q = true
clashes_before (p ∷ ps) zero q = true
clashes_before (p ∷ ps) (suc i) q = clash q p && clashes_before ps i q

first_match-at :
    (ps : List Pattern) (i : ℕ) (q : Pattern) (x : ℕ)
    → get_elem? ps i ≡ some q
    → clashes_before ps i q ≡ true
    → matches q x ≡ true
    → first_match ps x ≡ some q.inst
unfolding first_match clashes_before
first_match-at [] i q x e c h = cc
first_match-at (p ∷ ps) zero q x e c h =
    ground (arith, ap (λ (o : Option Pattern). Option.map (λ (r : Pattern). r.inst) o) e)
first_match-at (p ∷ ps) (suc i) q x e c h =
    ground (arith, clash_sound q p x, first_match-at ps i q x e)

clash_at : ℕ → Bool
clash_at i = elim (get_elem? patterns i) [ none ↦ true | some q ↦ clashes_before patterns i q ]

clash_table : all_bits 59 clash_at ≡ true
unfolding all_bits clash_at clashes_before clash
clash_table = refl

clash_at-lem :
    (i : ℕ) (q : Pattern)
    → i < 59
    → get_elem? patterns i ≡ some q
    → clashes_before patterns i q ≡ true
unfolding clash_at
clash_at-lem i q h e = rw e at (all_bits_sound 59 clash_at i clash_table h)

-- The order of the tests in execute does not matter, but for WFI, the last: an instruction word that
-- matches any other pattern is decoded as that pattern's instruction.
pub decode_any_match :
    (i : ℕ) (q : Pattern) (opcode : ℕ)
    → i < 59
    → get_elem? patterns i ≡ some q
    → opcode ≢ 0
    → matches q opcode ≡ true
    → decode opcode ≡ some q.inst
unfolding decode
decode_any_match i q opcode h e ne m =
    rw (==_false opcode 0 ne) (first_match-at patterns i q opcode e (clash_at-lem i q h e) m)
