-- ===== src/Memory/Bytes.antt =====
-- SimpleMemory as an array of bytes.
use riscv_v2f_optimized.Prelude.{
  ℕ, zero, suc, ◌+◌, ◌-◌, ◌/◌, ◌%◌, ◌^◌, ◌<◌, true, ◌&&◌, ltb, leb, ◌==◌, if◌then◌else◌, length,
  get_or, set, get_or-set, ◌≡◌, inl, inr, ap, arith, Bool-cases,
}
use riscv_v2f_optimized.Memory.{SimpleMemory, store_lane, store_half}
use riscv_v2f_optimized.Memory.Lanes.{byte_of, store_lane_lem, store_half_lem}

-- The byte at an address.
abbrev pub byte_at : SimpleMemory → ℕ → ℕ
byte_at m a = byte_of (get_or m.words (a / 4) 0) (a % 4)

-- What store does to the bytes: `width` bytes of `d` from `a` on, and no other.
abbrev pub stored_byte : SimpleMemory → ℕ → ℕ → ℕ → ℕ → ℕ
stored_byte m a d width b = if leb a b && ltb b (a + width) then byte_of d (b - a) else byte_at m b

-- The memory with another word at an index.
abbrev pub replaced : SimpleMemory → ℕ → ℕ → SimpleMemory
replaced m i w = record m { words = set m.words i w }

pub byte_at-replaced :
    (m : SimpleMemory) (i w b : ℕ)
    → i < length m.words
    → byte_at (replaced m i w) b ≡ (if i == b / 4 then byte_of w (b % 4) else byte_at m b)
byte_at-replaced m i w b h = ground (arith, get_or-set m.words i (b / 4) w 0 h)

-- A byte written to a lane of a word, and the other lanes.
pub byte_of-store_lane :
    (w lane other d : ℕ)
    → w < 2 ^ 32
    → lane < 4
    → other < 4
    → byte_of (store_lane w lane d) other ≡ (if lane == other then d % 256 else byte_of w other)
byte_of-store_lane w zero other d h hl ho = rw (store_lane_lem w 0 d h) (ground arith)
byte_of-store_lane w (suc zero) other d h hl ho = rw (store_lane_lem w 1 d h) (ground arith)
byte_of-store_lane w (suc (suc zero)) other d h hl ho = rw (store_lane_lem w 2 d h) (ground arith)
byte_of-store_lane w (suc (suc (suc zero))) other d h hl ho =
    rw (store_lane_lem w 3 d h) (ground arith)
byte_of-store_lane w (suc (suc (suc (suc n)))) other d h hl ho = absurd (omega arith)

pub byte_of-store_half :
    (w address other d : ℕ)
    → w < 2 ^ 32
    → address % 2 ≡ 0
    → other < 4
    → byte_of (store_half w address d) other ≡ (
        if other == address % 4
        then d % 256
        else if other == address % 4 + 1
        then d / 256 % 256
        else byte_of w other)
byte_of-store_half w address other d h e ho =
    rw (store_half_lem w address d h)
      (elim (Bool-cases (address / 2 % 2 == 1)) [ inl u ↦ ground arith | inr u ↦ ground arith ])

pub ltb-true : (i n : ℕ) → i < n → ltb i n ≡ true
ltb-true i n h = ground arith

-- Whether `b` is among the bytes written, by the word and the lane of `a` and `b`.
pub span_1 :
    (a b y y' : ℕ) (f : ℕ → ℕ)
    → (a / 4 ≡ b / 4 → y' ≡ y)
    → (if a / 4 == b / 4 then (if a % 4 == b % 4 then f 0 else y') else y)
      ≡ (if leb a b && ltb b (a + 1) then f (b - a) else y)
span_1 a b y y' f h = elim (Bool-cases (a == b)) [
  | inl e ↦ ground (arith, ap f (same e))
  | inr e ↦ ground arith
]
  where
    same : (a == b) ≡ true → 0 ≡ b - a
    same e = ground arith

pub span_2 :
    (a b y y' : ℕ) (f : ℕ → ℕ)
    → a % 2 ≡ 0
    → (a / 4 ≡ b / 4 → y' ≡ y)
    → (if a / 4 == b / 4
        then (if b % 4 == a % 4 then f 0 else if b % 4 == a % 4 + 1 then f 1 else y')
        else y)
      ≡ (if leb a b && ltb b (a + 2) then f (b - a) else y)
span_2 a b y y' f h hy = elim (Bool-cases (a == b)) [
  | inl e ↦ ground (arith, ap f (same 0 (ground arith)))
  | inr e ↦ elim (Bool-cases (a + 1 == b)) [
    | inl e' ↦ ground (arith, ap f (same 1 (ground arith)))
    | inr e' ↦ ground arith
  ]
]
  where
    same : (k : ℕ) → a + k ≡ b → k ≡ b - a
    same k e = omega arith

pub span_4 :
    (a b y : ℕ) (f : ℕ → ℕ)
    → a % 4 ≡ 0
    → (if a / 4 == b / 4 then f (b % 4) else y)
      ≡ (if leb a b && ltb b (a + 4) then f (b - a) else y)
span_4 a b y f h = elim (Bool-cases (a / 4 == b / 4)) [
  | inl e ↦ ground (arith, ap f (same e))
  | inr e ↦ ground arith
]
  where
    same : (a / 4 == b / 4) ≡ true → b % 4 ≡ b - a
    same e = ground arith
