-- ===== src/Regions/Bytes.antt =====
-- Physical accesses through the regions: a load returns what the last store to it wrote.
use riscv_v2f_optimized.Prelude.{
  ℕ, ◌+◌, ◌-◌, ◌*◌, ◌/◌, ◌%◌, ◌^◌, ◌<◌, true, false, ◌&&◌, ltb, leb, ◌≡◌, ◌∙◌, ap, List, [], ◌∷◌,
  length, some, arith, Bool-cases, inl, inr, if◌then◌else◌, refl,
}
use riscv_v2f_optimized.Prelude.Outcome.{done, Ensures-of}
use riscv_v2f_optimized.Machine.{Region}
use riscv_v2f_optimized.Memory.{SimpleMemory, load_memory, store_memory}
use riscv_v2f_optimized.Memory.Bytes.{byte_at, stored_byte}
use riscv_v2f_optimized.Memory.Lanes.{byte_of}
use riscv_v2f_optimized.Memory.Access.{IsWidth, bytes_at, store_memory-bytes, load_memory-bytes}
use riscv_v2f_optimized.Invariant.State.{AreWords}
use riscv_v2f_optimized.Invariant.Memory.{store_memory-AreWords}
use riscv_v2f_optimized.Regions.{in_region, load_regions, store_regions}

-- The bytes written, read back.
bytes_at-stored :
    (m m' : SimpleMemory) (a d width : ℕ)
    → IsWidth width
    → d < 2 ^ 32
    → ((b : ℕ) → byte_at m' b ≡ stored_byte m a d width b)
    → bytes_at m' a width ≡ d % 2 ^ (8 * width)
bytes_at-stored m m' a d width hw hd h = spelled hw
  where
    written : (k : ℕ) → k < width → byte_at m' (a + k) ≡ byte_of d k
    written k hk =
        h (a + k)
        ∙ ap (λ t. if t then byte_of d (a + k - a) else byte_at m (a + k)) (inside k hk)
        ∙ ap (byte_of d) (back k)
      where
        back : (k : ℕ) → a + k - a ≡ k
        back k = omega arith

        inside : (k : ℕ) → k < width → (leb a (a + k) && ltb (a + k) (a + width)) ≡ true
        inside k hk = ground arith

    same : (x y : ℕ) → x ≡ y → byte_at m' x ≡ byte_at m' y
    same x y e = ap (byte_at m') e

    first : 0 < width → byte_at m' a ≡ byte_of d 0
    first hk = same a (a + 0) (omega arith) ∙ written 0 hk

    third : 2 < width → byte_at m' (a + 1 + 1) ≡ byte_of d 2
    third hk = same (a + 1 + 1) (a + 2) (omega arith) ∙ written 2 hk

    fourth : 3 < width → byte_at m' (a + 1 + 1 + 1) ≡ byte_of d 3
    fourth hk = same (a + 1 + 1 + 1) (a + 3) (omega arith) ∙ written 3 hk

    spelled : IsWidth width → bytes_at m' a width ≡ d % 2 ^ (8 * width)
    spelled (inl e) = rw e (rw (first (omega arith)) (omega arith))
    spelled (inr (inl e)) = rw e (rw (first (omega arith), written 1 (omega arith)) (omega arith))
    spelled (inr (inr e)) = rw e (
        rw (first (omega arith), written 1 (omega arith), third (omega arith), fourth (omega arith))
          (omega arith))

-- An access in the array of one memory, loaded back.
store_memory-load :
    (m : SimpleMemory) (a d width : ℕ)
    → IsWidth width
    → d < 2 ^ 32
    → AreWords m.words × (a % width ≡ 0) × (a / 4 < length m.words)
    → (m' : SimpleMemory) × (store_memory m a d width ≡ done m')
      × (load_memory m' a width false ≡ done (d % 2 ^ (8 * width)))
store_memory-load m a d width hw hd (words, aligned, inside) =
    let (m', stored, count, bytes) = store_memory-bytes m a d width words hw aligned inside in
    (
      m',
      stored,
      load_memory-bytes m' a width
            (Ensures-of (λ n. AreWords n.words) (store_memory m a d width) m'
              (store_memory-AreWords m a d width words hd) stored)
            hw aligned (omega (arith, count, inside))
          ∙ ap done (bytes_at-stored m m' a d width hw hd bytes),
    )

in_region-mem :
    (a : ℕ) (r : Region) (m : SimpleMemory) → in_region a (record r { mem = m }) ≡ in_region a r
unfolding in_region
in_region-mem a r m = refl

-- The access is aligned at its offset in the region, and inside the array of its memory.
abbrev pub HoldsHere : Region → ℕ → ℕ → Type 0
HoldsHere r a width =
    AreWords r.mem.words × ((a - r.base) % width ≡ 0) × ((a - r.base) / 4 < length r.mem.words)

-- The first region that holds `a` is one whose array holds an aligned access of `width` bytes at
-- its offset, in words that are uint32_t values.
abbrev pub Holds : List Region → ℕ → ℕ → Type 0
Holds [] a width = ⊥
Holds (r ∷ rs) a width = elim (in_region a r) [
  | true ↦ HoldsHere r a width
  | false ↦ Holds rs a width
]

-- What was stored at an address is what a load of the same width returns there.
pub load_regions-store_regions :
    (rs : List Region) (a d width : ℕ)
    → IsWidth width
    → d < 2 ^ 32
    → Holds rs a width
    → (rs' : List Region) × (store_regions rs a d width ≡ done (some rs'))
      × (load_regions rs' a width false ≡ done (some (d % 2 ^ (8 * width))))
unfolding load_regions store_regions
load_regions-store_regions [] a d width hw hd h = elim h [ ]
load_regions-store_regions (r ∷ rs) a d width hw hd h = elim (Bool-cases (in_region a r)) [
  | inl e ↦
      let (m', stored, loaded) = store_memory-load r.mem (a - r.base) d width hw hd (here e) in
      (record r { mem = m' } ∷ rs, rw (e, stored) refl, rw (in_region-mem a r m' ∙ e, loaded) refl)
  | inr e ↦
      let (rs', stored, loaded) = load_regions-store_regions rs a d width hw hd (behind e) in
      (r ∷ rs', rw (e, stored) refl, rw e loaded)
]
  where
    here : in_region a r ≡ true → HoldsHere r a width
    here e = rw (Holds, e) at h

    behind : in_region a r ≡ false → Holds rs a width
    behind e = rw (Holds, e) at h
