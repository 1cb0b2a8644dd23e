-- ===== src/Invariant/Memory.antt =====
-- Loads give words, and stores of words keep them.
use riscv_v2f_optimized.Prelude.{
  ℕ, zero, suc, ◌-◌, ◌/◌, ◌^◌, ◌<◌, Bool, ltb, ◌==◌, List, [], ◌∷◌, length, set, bit_and, bit_or,
  Option, none, some, arith, Bool-cases, inl, inr,
}
use riscv_v2f_optimized.Prelude.Outcome.{Ensures, Ensures-bind, Ensures-if, Ensures-then}
use riscv_v2f_optimized.Word.{shl32, shr32}
use riscv_v2f_optimized.Word.Bits.{bit_and-lt, bit_and-lt_right, bit_or-lt}
use riscv_v2f_optimized.Memory.{
  SimpleMemory, word_at, set_word, load_lane, store_lane, load_half, store_half, sign_half,
  sign_byte, load_memory, store_memory,
}
use riscv_v2f_optimized.Machine.{Region}
use riscv_v2f_optimized.Regions.{in_region, load_regions, store_regions}
use riscv_v2f_optimized.Invariant.State.{IsWord, AreWords, AreRegions}

pub AreWords-set : (ws : List ℕ) (i v : ℕ) → AreWords ws → v < 2 ^ 32 → AreWords (set ws i v)
AreWords-set [] i v h hv j = h j
AreWords-set (w ∷ ws) zero v h hv zero = hv
AreWords-set (w ∷ ws) zero v h hv (suc j) = h (suc j)
AreWords-set (w ∷ ws) (suc i) v h hv zero = h 0
AreWords-set (w ∷ ws) (suc i) v h hv (suc j) = AreWords-set ws i v (λ k. h (suc k)) hv j

word_at-IsWord : (m : SimpleMemory) (i : ℕ) → AreWords m.words → Ensures IsWord (word_at m i)
unfolding word_at
word_at-IsWord m i h = ground (arith, h i)

abbrev Good : SimpleMemory → Type 0
Good m = AreWords m.words

set_word-AreWords :
    (m : SimpleMemory) (i v : ℕ)
    → AreWords m.words
    → v < 2 ^ 32
    → Ensures (λ m'. AreWords m'.words) (set_word m i v)
unfolding set_word
set_word-AreWords m i v h hv = elim (Bool-cases (ltb i (length m.words))) [
  | inl e ↦ rw e (AreWords-set m.words i v h hv)
  | inr e ↦ rw e tt
]

pub load_lane-lt : (w lane : ℕ) → load_lane w lane < 2 ^ 8
unfolding load_lane
load_lane-lt w lane = ground (
  arith,
  bit_and-lt_right 8 (shr32 w 24) 0xFF,
  bit_and-lt_right 8 (shr32 w 16) 0xFF,
  bit_and-lt_right 8 (shr32 w 8) 0xFF,
  bit_and-lt_right 8 (shr32 w 0) 0xFF,
)

pub load_half-lt : (w address : ℕ) → load_half w address < 2 ^ 16
unfolding load_half
load_half-lt w address =
    ground (arith, bit_and-lt_right 16 (shr32 w 16) 0xFFFF, bit_and-lt_right 16 (shr32 w 0) 0xFFFF)

sign_half-lt : (b : Bool) (d : ℕ) → d < 2 ^ 32 → sign_half b d < 2 ^ 32
unfolding sign_half
sign_half-lt b d h = ground (arith, bit_or-lt 32 d 0xFFFF_0000)

sign_byte-lt : (b : Bool) (d : ℕ) → d < 2 ^ 32 → sign_byte b d < 2 ^ 32
unfolding sign_byte
sign_byte-lt b d h = ground (arith, bit_or-lt 32 d 0xFFFF_FF00)

merged-lt : (w d m m' : ℕ) → w < 2 ^ 32 → m' < 2 ^ 32 → bit_or (bit_and w m) (bit_and d m') < 2 ^ 32
merged-lt w d m m' hw hm = bit_or-lt 32 _ _ (bit_and-lt 32 w m hw) (bit_and-lt_right 32 d m' hm)

store_lane-lt : (w lane d : ℕ) → w < 2 ^ 32 → store_lane w lane d < 2 ^ 32
unfolding store_lane
store_lane-lt w lane d h = ground (
  arith,
  merged-lt w (shl32 d 24) 0x00FF_FFFF 0xFF00_0000,
  merged-lt w (shl32 d 16) 0xFF00_FFFF 0x00FF_0000,
  merged-lt w (shl32 d 8) 0xFFFF_00FF 0x0000_FF00,
  merged-lt w (shl32 d 0) 0xFFFF_FF00 0xFF,
)

store_half-lt : (w address d : ℕ) → w < 2 ^ 32 → store_half w address d < 2 ^ 32
unfolding store_half
store_half-lt w address d h =
    ground (
      arith,
      merged-lt w (shl32 d 16) 0xFFFF 0xFFFF_0000,
      merged-lt w (shl32 d 0) 0xFFFF_0000 0xFFFF,
    )

pub load_memory-IsWord :
    (m : SimpleMemory) (a width : ℕ) (b : Bool)
    → AreWords m.words
    → Ensures IsWord (load_memory m a width b)
unfolding load_memory
load_memory-IsWord m a width b h =
    Ensures-if IsWord (width == 4) _ _ (Ensures-then IsWord _ _ (word_at-IsWord m (a / 4) h)) (
      Ensures-if IsWord (width == 2) _ _
        (Ensures-then IsWord _ _ (
          Ensures-bind IsWord IsWord (word_at m (a / 4)) _ (word_at-IsWord m (a / 4) h)
            λ w hw. sign_half-lt b (load_half w a) (omega (arith, load_half-lt w a))))
        (Ensures-if IsWord (width == 1) _ _
          (Ensures-bind IsWord IsWord (word_at m (a / 4)) _ (word_at-IsWord m (a / 4) h) λ w hw.
            sign_byte-lt b (load_lane w (bit_and a 3))
              (omega (arith, load_lane-lt w (bit_and a 3))))
          (omega arith)))

pub store_memory-AreWords :
    (m : SimpleMemory) (a d width : ℕ)
    → AreWords m.words
    → d < 2 ^ 32
    → Ensures (λ m'. AreWords m'.words) (store_memory m a d width)
unfolding store_memory
store_memory-AreWords m a d width h hd =
    Ensures-if Good (width == 4) _ _ (Ensures-then Good _ _ (set_word-AreWords m (a / 4) d h hd)) (
      Ensures-if Good (width == 2) _ _
        (Ensures-then Good _ _ (
          Ensures-bind IsWord Good (word_at m (a / 4)) _ (word_at-IsWord m (a / 4) h)
            λ w hw. set_word-AreWords m (a / 4) _ h (store_half-lt w a d hw)))
        (Ensures-if Good (width == 1) _ _
          (Ensures-bind IsWord Good (word_at m (a / 4)) _ (word_at-IsWord m (a / 4) h)
            λ w hw. set_word-AreWords m (a / 4) _ h (store_lane-lt w (bit_and a 3) d hw))
          h))

-- What the loops over the regions return.
abbrev pub IsFound : Option ℕ → Type 0
IsFound none = Unit {0}
IsFound (some v) = v < 2 ^ 32

abbrev pub IsStored : Option (List Region) → Type 0
IsStored none = Unit {0}
IsStored (some rs) = AreRegions rs

pub load_regions-IsFound :
    (rs : List Region) (a width : ℕ) (b : Bool)
    → AreRegions rs
    → Ensures IsFound (load_regions rs a width b)
unfolding load_regions
load_regions-IsFound [] a width b h = tt
load_regions-IsFound (r ∷ rs) a width b h =
    Ensures-if IsFound (in_region a r) _ _
      (Ensures-bind IsWord IsFound (load_memory r.mem (a - r.base) width b) _
        (load_memory-IsWord r.mem (a - r.base) width b h.0) (λ v hv. hv))
      (load_regions-IsFound rs a width b h.1)

pub store_regions-IsStored :
    (rs : List Region) (a d width : ℕ)
    → AreRegions rs
    → d < 2 ^ 32
    → Ensures IsStored (store_regions rs a d width)
unfolding store_regions
store_regions-IsStored [] a d width h hd = tt
store_regions-IsStored (r ∷ rs) a d width h hd =
    Ensures-if IsStored (in_region a r) _ _
      (Ensures-bind Good IsStored (store_memory r.mem (a - r.base) d width) _
        (store_memory-AreWords r.mem (a - r.base) d width h.0 hd) (λ m hm. (hm, h.1)))
      (Ensures-bind IsStored IsStored (store_regions rs a d width) _
        (store_regions-IsStored rs a d width h.1 hd) (behind h.0))
  where
    behind :
        AreWords r.mem.words
        → (found : Option (List Region)) → IsStored found
        → IsStored (elim found [ none ↦ none | some rs' ↦ some (r ∷ rs') ])
    behind hr none k = tt
    behind hr (some rs') k = (hr, k)
