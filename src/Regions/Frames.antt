-- ===== src/Regions/Frames.antt =====
-- A byte stored through the regions: what it is, and that every other address keeps its byte.
use riscv_v2f_optimized.Prelude.{
  ℕ, ◌+◌, ◌-◌, ◌*◌, ◌/◌, ◌^◌, ◌<◌, true, false, ◌&&◌, ltb, leb, ◌≡◌, ◌≢◌, ◌∙◌, refl, sym, ap, List,
  [], ◌∷◌, length, some, arith, Bool-cases, inl, inr, if◌then◌else◌,
}
use riscv_v2f_optimized.Prelude.Outcome.{done, undefined, Ensures-of}
use riscv_v2f_optimized.Word.{add32}
use riscv_v2f_optimized.Machine.{Region}
use riscv_v2f_optimized.Memory.{SimpleMemory, load_memory, store_memory, word_at}
use riscv_v2f_optimized.Memory.Lanes.{byte_of}
use riscv_v2f_optimized.Memory.Bytes.{byte_at, stored_byte}
use riscv_v2f_optimized.Memory.Access.{store_memory-bytes, load_memory-bytes}
use riscv_v2f_optimized.Invariant.State.{AreWords}
use riscv_v2f_optimized.Invariant.Memory.{store_memory-AreWords}
use riscv_v2f_optimized.Regions.{in_region, load_regions, store_regions}
use riscv_v2f_optimized.Regions.Bytes.{HoldsHere, Holds}

load_memory-behind :
    (m : SimpleMemory) (b : ℕ)
    → ltb (b / 4) (length m.words) ≡ false
    → load_memory m b 1 false ≡ undefined
unfolding load_memory word_at
load_memory-behind m b h = rw h refl

-- The memory after a byte was stored in it.
pub store_memory-others :
    (m : SimpleMemory) (a d : ℕ)
    → d < 2 ^ 32
    → AreWords m.words
    → a / 4 < length m.words
    → (m' : SimpleMemory) × (store_memory m a d 1 ≡ done m')
      × AreWords m'.words
      × (length m'.words ≡ length m.words)
      × ((b : ℕ) → a ≢ b → load_memory m' b 1 false ≡ load_memory m b 1 false)
store_memory-others m a d hd words inside =
    let (m', stored, count, bytes) =
      store_memory-bytes m a d 1 words (inl refl) (omega arith) inside in
    let words' =
      Ensures-of (λ n. AreWords n.words) (store_memory m a d 1) m'
        (store_memory-AreWords m a d 1 words hd) stored in
    (m', stored, words', count, other m' words' count bytes)
  where
    other :
        (m' : SimpleMemory)
        → AreWords m'.words
        → length m'.words ≡ length m.words
        → ((b : ℕ) → byte_at m' b ≡ stored_byte m a d 1 b)
        → (b : ℕ) → a ≢ b
        → load_memory m' b 1 false ≡ load_memory m b 1 false
    other m' words' count bytes b apart = elim (Bool-cases (ltb (b / 4) (length m.words))) [
      | inr e ↦
          load_memory-behind m' b (ap (ltb (b / 4)) count ∙ e) ∙ sym (load_memory-behind m b e)
      | inl e ↦
          load_memory-bytes m' b 1 words' (inl refl) (omega arith) (short e)
          ∙ ap (λ x. done (x + 256 * 0))
              (bytes b ∙ ap (λ t. if t then byte_of d (b - a) else byte_at m b) (outside b apart))
          ∙ sym (load_memory-bytes m b 1 words (inl refl) (omega arith) (ground arith))
    ]
      where
        outside : (b : ℕ) → a ≢ b → (leb a b && ltb b (a + 1)) ≡ false
        outside b h = ground arith

        short : ltb (b / 4) (length m.words) ≡ true → b / 4 < length m'.words
        short e = rw count (ground arith)

in_region-offset :
    (a b : ℕ) (r : Region)
    → in_region a r ≡ true
    → in_region b r ≡ true
    → a ≢ b
    → a - r.base ≢ b - r.base
unfolding in_region add32
in_region-offset a b r h k n e = ground arith

in_region-mem :
    (a : ℕ) (r : Region) (m : SimpleMemory) → in_region a (record r { mem = m }) ≡ in_region a r
unfolding in_region
in_region-mem a r m = refl

here-Holds :
    (a : ℕ) (r : Region) (rs : List Region)
    → in_region a r ≡ true
    → HoldsHere r a 1
    → Holds (r ∷ rs) a 1
here-Holds a r rs e h = rw (Holds, e) h

behind-Holds :
    (a : ℕ) (r : Region) (rs : List Region)
    → in_region a r ≡ false
    → Holds rs a 1
    → Holds (r ∷ rs) a 1
behind-Holds a r rs e h = rw (Holds, e) h

Holds-here :
    (a : ℕ) (r : Region) (rs : List Region)
    → in_region a r ≡ true
    → Holds (r ∷ rs) a 1
    → HoldsHere r a 1
Holds-here a r rs e h = rw (Holds, e) at h

Holds-behind :
    (a : ℕ) (r : Region) (rs : List Region)
    → in_region a r ≡ false
    → Holds (r ∷ rs) a 1
    → Holds rs a 1
Holds-behind a r rs e h = rw (Holds, e) at h

-- A byte stored to an address whose region has it in its array: every other address reads as
-- before, and no address loses its place in an array.
pub store_regions-others :
    (rs : List Region) (a d : ℕ)
    → d < 2 ^ 32
    → Holds rs a 1
    → (rs' : List Region) × (store_regions rs a d 1 ≡ done (some rs'))
      × ((b : ℕ) → a ≢ b → load_regions rs' b 1 false ≡ load_regions rs b 1 false)
      × ((b : ℕ) → Holds rs b 1 → Holds rs' b 1)
unfolding store_regions load_regions
store_regions-others [] a d hd h = elim h [ ]
store_regions-others (r ∷ rs) a d hd h = elim (Bool-cases (in_region a r)) [
  | inl e ↦
      let (words, aligned, inside) = Holds-here a r rs e h in
      let (m', stored, words', count, others) =
        store_memory-others r.mem (a - r.base) d hd words inside in
      (
        record r { mem = m' } ∷ rs,
        rw (e, stored) refl,
        λ b n. elim (Bool-cases (in_region b r)) [
          | inl k ↦
              rw (in_region-mem b r m' ∙ k, k, others (b - r.base) (in_region-offset a b r e k n))
                refl
          | inr k ↦ rw (in_region-mem b r m' ∙ k, k) refl
        ],
        λ b hb. elim (Bool-cases (in_region b r)) [
          | inl k ↦
              let (w, al, ins) = Holds-here b r rs k hb in
              here-Holds b (record r { mem = m' }) rs (in_region-mem b r m' ∙ k)
                (words', al, rw count ins)
          | inr k ↦
              behind-Holds b (record r { mem = m' }) rs (in_region-mem b r m' ∙ k)
                (Holds-behind b r rs k hb)
        ],
      )
  | inr e ↦
      let (rs', stored, others, keeps) = store_regions-others rs a d hd (Holds-behind a r rs e h) in
      (
        r ∷ rs',
        rw (e, stored) refl,
        λ b n. elim (Bool-cases (in_region b r)) [ inl k ↦ rw k refl | inr k ↦ rw k (others b n) ],
        λ b hb. elim (Bool-cases (in_region b r)) [
          | inl k ↦ here-Holds b r rs' k (Holds-here b r rs k hb)
          | inr k ↦ behind-Holds b r rs' k (keeps b (Holds-behind b r rs k hb))
        ],
      )
]
