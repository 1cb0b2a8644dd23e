-- ===== src/Memory/Access.antt =====
-- load and store of SimpleMemory, as reads and writes of bytes.
use riscv_v2f_optimized.Prelude.{
  ℕ, zero, suc, ◌+◌, ◌*◌, ◌/◌, ◌%◌, ◌^◌, ◌<◌, false, ◌==◌, if◌then◌else◌, length, get_or,
  length-set, ◌≡◌, ◌⊎◌, inl, inr, refl, ap, sym, ◌∙◌, arith, Bool-cases,
}
use riscv_v2f_optimized.Prelude.Outcome.{done}
use riscv_v2f_optimized.Word.Bits.{bit_and_mask}
use riscv_v2f_optimized.Memory.{
  SimpleMemory, word_at, set_word, load_memory, store_memory, sign_half, sign_byte, store_lane,
  store_half,
}
use riscv_v2f_optimized.Invariant.State.{AreWords}
use riscv_v2f_optimized.Memory.Lanes.{byte_of, load_lane_lem, load_half_lem}
use riscv_v2f_optimized.Memory.Bytes.{
  byte_at, stored_byte, replaced, byte_at-replaced, byte_of-store_lane, byte_of-store_half,
  ltb-true, span_1, span_2, span_4,
}

store_memory-1 :
    (m : SimpleMemory) (a d : ℕ)
    → a / 4 < length m.words
    → store_memory m a d 1
      ≡ done (replaced m (a / 4) (store_lane (get_or m.words (a / 4) 0) (a % 4) d))
unfolding store_memory word_at set_word
store_memory-1 m a d h = rw (ltb-true (a / 4) (length m.words) h, bit_and_mask 2 a) refl

store_memory-2 :
    (m : SimpleMemory) (a d : ℕ)
    → a / 4 < length m.words
    → a % 2 ≡ 0
    → store_memory m a d 2 ≡ done (replaced m (a / 4) (store_half (get_or m.words (a / 4) 0) a d))
unfolding store_memory word_at set_word
store_memory-2 m a d h e = rw (ltb-true (a / 4) (length m.words) h, bit_and_mask 1 a, e) refl

store_memory-4 :
    (m : SimpleMemory) (a d : ℕ)
    → a / 4 < length m.words
    → a % 4 ≡ 0
    → store_memory m a d 4 ≡ done (replaced m (a / 4) d)
unfolding store_memory word_at set_word
store_memory-4 m a d h e = rw (ltb-true (a / 4) (length m.words) h, bit_and_mask 2 a, e) refl

-- The widths of the accesses.
abbrev pub IsWidth : ℕ → Type 0
IsWidth width = (width ≡ 1) ⊎ ((width ≡ 2) ⊎ (width ≡ 4))

-- An aligned store inside the array succeeds, and changes exactly the `width` bytes from `a` on,
-- to the low bytes of `d`, the lowest first; the array keeps its length.
pub store_memory-bytes :
    (m : SimpleMemory) (a d width : ℕ)
    → AreWords m.words
    → IsWidth width
    → a % width ≡ 0
    → a / 4 < length m.words
    → (m' : SimpleMemory) × (store_memory m a d width ≡ done m')
      × (length m'.words ≡ length m.words)
      × ((b : ℕ) → byte_at m' b ≡ stored_byte m a d width b)
store_memory-bytes m a d width hw (inl e) ha h = rw e (
  replaced m (a / 4) (store_lane w (a % 4) d),
  store_memory-1 m a d h,
  length-set m.words (a / 4) (store_lane w (a % 4) d),
  λ b.
      byte_at-replaced m (a / 4) (store_lane w (a % 4) d) b h
      ∙ ap (λ t. if a / 4 == b / 4 then t else byte_at m b)
          (byte_of-store_lane w (a % 4) (b % 4) d (hw (a / 4)) (omega arith) (omega arith))
      ∙ span_1 a b _ _ (byte_of d) (λ e'. ap (λ t. byte_of (get_or m.words t 0) (b % 4)) e'),
)
  where
    w : ℕ
    w = get_or m.words (a / 4) 0
store_memory-bytes m a d width hw (inr (inl e)) ha h = rw e (
  replaced m (a / 4) (store_half w a d),
  store_memory-2 m a d h even,
  length-set m.words (a / 4) (store_half w a d),
  λ b.
      byte_at-replaced m (a / 4) (store_half w a d) b h
      ∙ ap (λ t. if a / 4 == b / 4 then t else byte_at m b)
          (byte_of-store_half w a (b % 4) d (hw (a / 4)) even (omega arith))
      ∙ span_2 a b _ _ (byte_of d) even (λ e'. ap (λ t. byte_of (get_or m.words t 0) (b % 4)) e'),
)
  where
    w : ℕ
    w = get_or m.words (a / 4) 0

    even : a % 2 ≡ 0
    even = ap (λ t. a % t) (sym e) ∙ ha
store_memory-bytes m a d width hw (inr (inr e)) ha h = rw e (
  replaced m (a / 4) d,
  store_memory-4 m a d h aligned,
  length-set m.words (a / 4) d,
  λ b. byte_at-replaced m (a / 4) d b h ∙ span_4 a b _ (byte_of d) aligned,
)
  where
    aligned : a % 4 ≡ 0
    aligned = ap (λ t. a % t) (sym e) ∙ ha

-- The number that the `n` bytes from `a` on spell, the lowest first.
abbrev pub bytes_at : SimpleMemory → ℕ → ℕ → ℕ
bytes_at m a zero = 0
bytes_at m a (suc n) = byte_at m a + 256 * bytes_at m (a + 1) n

word_bytes :
    (m : SimpleMemory) (a : ℕ)
    → get_or m.words (a / 4) 0 < 2 ^ 32
    → a % 4 ≡ 0
    → get_or m.words (a / 4) 0 ≡ bytes_at m a 4
word_bytes m a h e = ground arith

half_bytes :
    (m : SimpleMemory) (a : ℕ)
    → a % 2 ≡ 0
    → (if a / 2 % 2 == 1
        then get_or m.words (a / 4) 0 / 0x1_0000 % 0x1_0000
        else get_or m.words (a / 4) 0 % 0x1_0000)
      ≡ bytes_at m a 2
half_bytes m a e =
    next (get_or m.words (a / 4) 0) (get_or m.words ((a + 1) / 4) 0)
      λ e'. ap (λ t. get_or m.words t 0) e'
  where
    next :
        (w w' : ℕ)
        → (a / 4 ≡ (a + 1) / 4 → w ≡ w')
        → (if a / 2 % 2 == 1 then w / 0x1_0000 % 0x1_0000 else w % 0x1_0000)
          ≡ byte_of w (a % 4) + 256 * (byte_of w' ((a + 1) % 4) + 0)
    next w w' h = elim (Bool-cases (a / 2 % 2 == 1)) [
      | inl u ↦ ground (arith, h (omega arith))
      | inr u ↦ ground (arith, h (omega arith))
    ]

load_memory-4 :
    (m : SimpleMemory) (a : ℕ)
    → a / 4 < length m.words
    → a % 4 ≡ 0
    → load_memory m a 4 false ≡ done (get_or m.words (a / 4) 0)
unfolding load_memory word_at
load_memory-4 m a h e = rw (ltb-true (a / 4) (length m.words) h, bit_and_mask 2 a, e) refl

-- An aligned load inside the array succeeds, and gives the number that its bytes spell.
pub load_memory-bytes :
    (m : SimpleMemory) (a width : ℕ)
    → AreWords m.words
    → IsWidth width
    → a % width ≡ 0
    → a / 4 < length m.words
    → load_memory m a width false ≡ done (bytes_at m a width)
unfolding load_memory word_at sign_half sign_byte
load_memory-bytes m a width hw (inl e) ha h =
    rw (e, ltb-true (a / 4) (length m.words) h, bit_and_mask 2 a)
      (ap done (load_lane_lem (get_or m.words (a / 4) 0) (a % 4) ∙ omega arith))
load_memory-bytes m a width hw (inr (inl e)) ha h =
    rw (e, ltb-true (a / 4) (length m.words) h, bit_and_mask 1 a, even)
      (ap done (load_half_lem (get_or m.words (a / 4) 0) a ∙ half_bytes m a even))
  where
    even : a % 2 ≡ 0
    even = ap (λ t. a % t) (sym e) ∙ ha
load_memory-bytes m a width hw (inr (inr e)) ha h =
    rw e (load_memory-4 m a h aligned ∙ ap done (word_bytes m a (hw (a / 4)) aligned))
  where
    aligned : a % 4 ≡ 0
    aligned = ap (λ t. a % t) (sym e) ∙ ha
