-- ===== src/Memory/Lanes.antt =====
-- The masks of SimpleMemory as arithmetic on the four bytes of a word.
use riscv_v2f_optimized.Prelude.{ℕ, ◌+◌, ◌*◌, ◌/◌, ◌%◌, ◌^◌, ◌<◌, ◌==◌, if◌then◌else◌, ◌≡◌, arith}
use riscv_v2f_optimized.Word.{shl32, shr32}
use riscv_v2f_optimized.Word.Bits.{bit_and_mask, bit, bit_and_pow}
use riscv_v2f_optimized.Word.Masks.{bit_and_field, merge_lem}
use riscv_v2f_optimized.Memory.{load_lane, store_lane, load_half, store_half}

-- Byte `lane` of a word, the lowest first.
abbrev pub byte_of : ℕ → ℕ → ℕ
byte_of w lane =
    if lane == 3
    then w / 0x100_0000 % 256
    else if lane == 2
    then w / 0x1_0000 % 256
    else if lane == 1
    then w / 0x100 % 256
    else w % 256

pub load_lane_lem : (w lane : ℕ) → load_lane w lane ≡ byte_of w lane
unfolding load_lane shr32
load_lane_lem w lane = ground (
  arith,
  bit_and_mask 8 (w / 0x100_0000),
  bit_and_mask 8 (w / 0x1_0000),
  bit_and_mask 8 (w / 0x100),
  bit_and_mask 8 (w / 1),
)

pub store_lane_lem :
    (w lane d : ℕ)
    → w < 2 ^ 32
    → store_lane w lane d ≡ (
        if lane == 3
        then w % 0x100_0000 + d % 256 * 0x100_0000
        else if lane == 2
        then w / 0x100_0000 * 0x100_0000 + d % 256 * 0x1_0000 + w % 0x1_0000
        else if lane == 1
        then w / 0x1_0000 * 0x1_0000 + d % 256 * 0x100 + w % 0x100
        else w / 0x100 * 0x100 + d % 256)
unfolding store_lane shl32
store_lane_lem w lane d h = ground (
  arith,
  merge_lem 32 w (d * 0x100_0000 % 2 ^ 32) 0xFF00_0000 h (omega arith),
  merge_lem 32 w (d * 0x1_0000 % 2 ^ 32) 0x00FF_0000 h (omega arith),
  merge_lem 32 w (d * 0x100 % 2 ^ 32) 0x0000_FF00 h (omega arith),
  merge_lem 32 w (d * 1 % 2 ^ 32) 0xFF h (omega arith),
  bit_and_field 24 8 w,
  bit_and_field 16 8 w,
  bit_and_field 8 8 w,
  bit_and_field 0 8 w,
  bit_and_field 24 8 (d * 0x100_0000 % 2 ^ 32),
  bit_and_field 16 8 (d * 0x1_0000 % 2 ^ 32),
  bit_and_field 8 8 (d * 0x100 % 2 ^ 32),
  bit_and_field 0 8 (d * 1 % 2 ^ 32),
)

-- The test `address & 2`.
abbrev upper : ℕ → ℕ
upper address = address / 2 % 2

pub load_half_lem :
    (w address : ℕ)
    → load_half w address ≡ (if upper address == 1 then w / 0x1_0000 % 0x1_0000 else w % 0x1_0000)
unfolding load_half shr32 bit
load_half_lem w address =
    ground (arith, bit_and_mask 16 (w / 0x1_0000), bit_and_mask 16 (w / 1), bit_and_pow 1 address)

pub store_half_lem :
    (w address d : ℕ)
    → w < 2 ^ 32
    → store_half w address d ≡ (
        if upper address == 1
        then w % 0x1_0000 + d % 0x1_0000 * 0x1_0000
        else w / 0x1_0000 * 0x1_0000 + d % 0x1_0000)
unfolding store_half shl32 bit
store_half_lem w address d h = ground (
  arith,
  bit_and_pow 1 address,
  merge_lem 32 w (d * 0x1_0000 % 2 ^ 32) 0xFFFF_0000 h (omega arith),
  merge_lem 32 w (d * 1 % 2 ^ 32) 0x0000_FFFF h (omega arith),
  bit_and_field 16 16 w,
  bit_and_field 0 16 w,
  bit_and_field 16 16 (d * 0x1_0000 % 2 ^ 32),
  bit_and_field 0 16 (d * 1 % 2 ^ 32),
)
