-- ===== src/Regions/Whole.antt =====
-- Regions whose arrays hold all their addresses: what create_memory makes and stores keep.
use native.Mathlib.Nat.{div-add-mod'}
use riscv_v2f_optimized.Prelude.{
  ℕ, zero, suc, ◌+◌, ◌-◌, ◌*◌, ◌/◌, ◌^◌, ◌<◌, ◌≤◌, true, false, ◌≡◌, refl, ap, List, [], ◌∷◌, ◌++◌,
  length, get_or, some, arith, Bool-cases, inl, inr,
}
use riscv_v2f_optimized.Prelude.Outcome.{done}
use riscv_v2f_optimized.Word.{add32}
use riscv_v2f_optimized.Machine.{Region}
use riscv_v2f_optimized.Memory.{clear_words, reset_memory}
use riscv_v2f_optimized.Invariant.State.{AreWords}
use riscv_v2f_optimized.Regions.{in_region, load_regions, store_regions, valid_addr_loop}
use riscv_v2f_optimized.Regions.Bytes.{Holds}
use riscv_v2f_optimized.Regions.Frames.{store_memory-others}

pub record IsWhole (r : Region) : Type 0 where
  pub words : AreWords r.mem.words
  pub long : (b : ℕ) → in_region b r ≡ true → (b - r.base) / 4 < length r.mem.words

abbrev pub AreWhole : List Region → Type 0
AreWhole [] = Unit
AreWhole (r ∷ rs) = IsWhole r × AreWhole rs

pub AreWhole-Holds :
    (rs : List Region) (b : ℕ) → AreWhole rs → valid_addr_loop rs b ≡ true → Holds rs b 1
unfolding valid_addr_loop
AreWhole-Holds [] b h v = cc
AreWhole-Holds (r ∷ rs) b (h, hs) v = elim (Bool-cases (in_region b r)) [
  | inl e ↦ rw (Holds, e) (h.words, omega arith, h.long b e)
  | inr e ↦ rw (Holds, e) (AreWhole-Holds rs b hs (rw e at v))
]

pub AreWhole-++ : (rs qs : List Region) → AreWhole rs → AreWhole qs → AreWhole (rs ++ qs)
AreWhole-++ [] qs h k = k
AreWhole-++ (r ∷ rs) qs (h, hs) k = (h, AreWhole-++ rs qs hs k)

pub valid_addr_loop-last :
    (rs : List Region) (r : Region) (b : ℕ)
    → in_region b r ≡ true
    → valid_addr_loop (rs ++ r ∷ []) b ≡ true
unfolding valid_addr_loop
valid_addr_loop-last [] r b h = rw h refl
valid_addr_loop-last (q ∷ rs) r b h = elim (Bool-cases (in_region b q)) [
  | inl e ↦ rw e refl
  | inr e ↦ rw e (valid_addr_loop-last rs r b h)
]

-- Regions behind the one that holds an address do not matter for it.
pub Holds-++ : (rs qs : List Region) (b : ℕ) → Holds rs b 1 → Holds (rs ++ qs) b 1
Holds-++ [] qs b h = elim h [ ]
Holds-++ (r ∷ rs) qs b h = elim (Bool-cases (in_region b r)) [
  | inl e ↦ rw (Holds, e) (rw (Holds, e) at h)
  | inr e ↦ rw (Holds, e) (Holds-++ rs qs b (rw (Holds, e) at h))
]

pub load_regions-++ :
    (rs qs : List Region) (b : ℕ)
    → Holds rs b 1
    → load_regions (rs ++ qs) b 1 false ≡ load_regions rs b 1 false
unfolding load_regions
load_regions-++ [] qs b h = elim h [ ]
load_regions-++ (r ∷ rs) qs b h = elim (Bool-cases (in_region b r)) [
  | inl e ↦ rw e refl
  | inr e ↦ rw e (load_regions-++ rs qs b (rw (Holds, e) at h))
]

length-clear_words : (ws : List ℕ) (size : ℕ) → length (clear_words ws size) ≡ length ws
unfolding clear_words
length-clear_words [] size = refl
length-clear_words (w ∷ ws) size = ap suc (length-clear_words ws (size - 4))

clear_words-le : (ws : List ℕ) (size i : ℕ) → get_or (clear_words ws size) i 0 ≤ get_or ws i 0
unfolding clear_words
clear_words-le [] size i = omega arith
clear_words-le (w ∷ ws) size zero = ground (arith, div-add-mod' w (2 ^ (8 * size)))
clear_words-le (w ∷ ws) size (suc i) = clear_words-le ws (size - 4) i

-- A new region below 2 ^ 32 on as many words as its size wants.
pub new-IsWhole :
    (base size : ℕ) (ws : List ℕ)
    → base + size < 2 ^ 32
    → length ws ≡ (size + 3) / 4
    → AreWords ws
    → IsWhole (record {
      base = base;
      size = size;
      mem = reset_memory (record { words = ws; size = size });
    })
unfolding reset_memory in_region add32
new-IsWhole base size ws h long words = record {
  words = λ i. omega (arith, clear_words-le ws size i, words i);
  long = λ b e. rw (length-clear_words ws size, long) (inside b e);
}
  where
    inside :
        (b : ℕ)
        → in_region b
            (record { base = base; size = size; mem = record { words = ws; size = size } })
          ≡ true
        → (b - base) / 4 < (size + 3) / 4
    inside b e = ground arith

pub in_region-new :
    (b : ℕ) (r : Region)
    → r.base + r.size < 2 ^ 32
    → r.base ≤ b
    → b < r.base + r.size
    → in_region b r ≡ true
unfolding in_region add32
in_region-new b r h lo hi = ground arith

-- A byte stored where a region has it in its array keeps the regions whole, and their number.
pub store_regions-AreWhole :
    (rs : List Region) (a d : ℕ)
    → d < 2 ^ 32
    → Holds rs a 1
    → AreWhole rs
    → (rs' : List Region) × (store_regions rs a d 1 ≡ done (some rs'))
      × AreWhole rs'
      × (length rs' ≡ length rs)
unfolding store_regions in_region
store_regions-AreWhole [] a d hd h k = elim h [ ]
store_regions-AreWhole (r ∷ rs) a d hd h (k, ks) = elim (Bool-cases (in_region a r)) [
  | inl e ↦
      let (words, aligned, inside) = rw (Holds, e) at h in
      let (m', stored, words', count, others) =
        store_memory-others r.mem (a - r.base) d hd words inside in
      (
        record r { mem = m' } ∷ rs,
        rw (e, stored) refl,
        (record { words = words'; long = λ b i. rw count (k.long b i) }, ks),
        refl,
      )
  | inr e ↦
      let (rs', stored, whole, count) = store_regions-AreWhole rs a d hd (rw (Holds, e) at h) ks in
      (r ∷ rs', rw (e, stored) refl, (k, whole), ap suc count)
]
