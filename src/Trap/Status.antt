-- ===== src/Trap/Status.antt =====
-- The status words of riscv.cpp's exception, mret and sret, one bit at a time.
use riscv_v2f_optimized.Prelude.{
  ℕ, zero, suc, ◌*◌, ◌^◌, ◌≤◌, ◌<◌, min, max, bit_and, bit_or, ◌≡◌, refl, ap, arith, Bool, true,
  not, ◌&&◌, ◌||◌, ◌==◌, if◌then◌else◌,
}
use native.Mathlib.Decide.{dec_lt}
use riscv_v2f_optimized.Word.{shl32, nonzero}
use riscv_v2f_optimized.Word.Bits.{
  bit, bit-lt, bit-bit_and, bit-bit_or, bit_and_pow, bit-zero, pow_pos, all_bits, all_bits_sound,
}
use riscv_v2f_optimized.Isa.Trap.{priv_super}
use riscv_v2f_optimized.Trap.{enter_super, enter_machine, leave_machine, leave_super}

-- `s |= (s & 2^j) ? flag : 0`
copy_bit :
    (s j flag k : ℕ)
    → bit (bit_or s (if nonzero (bit_and s (2 ^ j)) then flag else 0)) k
      ≡ max (bit s k) (min (bit s j) (bit flag k))
copy_bit s j flag k = elim (dec_lt (bit s j) 1) [
  | yes off ↦ ground (
    arith,
    bit_and_pow j s,
    bit-bit_or s 0 k,
    bit-zero k,
    ap (λ (t : ℕ). t * 2 ^ j) (zero_of (bit s j) off),
  )
  | no on ↦ ground (
    arith,
    bit_and_pow j s,
    pow_pos j,
    bit-lt s j,
    bit-lt flag k,
    bit-bit_or s flag k,
    ap (λ (t : ℕ). t * 2 ^ j) (one_of (bit s j) (bit-lt s j) on),
  )
]
  where
    zero_of : (a : ℕ) → a < 1 → a ≡ 0
    zero_of a h = omega arith

    one_of : (a : ℕ) → a < 2 → ¬ (a < 1) → a ≡ 1
    one_of a h n = omega arith

-- Every bit of the status word of a trap and of a return, from the bits of the old one.
pub bit-enter_machine :
    (p s k : ℕ)
    → bit (enter_machine p s) k
      ≡ max
          (min
            (min
              (max
                (min (bit s k) (bit 0xFFFF_FF7F k))
                (min (min (bit s 3) (bit 0xFFFF_FF7F 3)) (bit 0x80 k)))
              (bit 0xFFFF_FFF7 k))
            (bit 0xFFFF_E7FF k))
          (bit (shl32 p 11) k)
unfolding enter_machine
bit-enter_machine p s k = rw (
  bit-bit_or,
  bit-bit_and,
  bit-bit_and,
  copy_bit (bit_and s 0xFFFF_FF7F) 3 0x80 k,
  bit-bit_and s 0xFFFF_FF7F k,
  bit-bit_and s 0xFFFF_FF7F 3,
)

pub bit-enter_super :
    (p s k : ℕ)
    → bit (enter_super p s) k
      ≡ max
          (min
            (min
              (max
                (min (bit s k) (bit 0xFFFF_FFDF k))
                (min (min (bit s 1) (bit 0xFFFF_FFDF 1)) (bit 0x20 k)))
              (bit 0xFFFF_FFFD k))
            (bit 0xFFFF_FEFF k))
          (bit (if p == priv_super then 0x100 else 0) k)
unfolding enter_super
bit-enter_super p s k = rw (
  bit-bit_or,
  bit-bit_and,
  bit-bit_and,
  copy_bit (bit_and s 0xFFFF_FFDF) 1 0x20 k,
  bit-bit_and s 0xFFFF_FFDF k,
  bit-bit_and s 0xFFFF_FFDF 1,
)

pub bit-leave_machine :
    (s k : ℕ)
    → bit (leave_machine s) k
      ≡ max
          (min
            (max
              (max
                (min (bit s k) (bit 0xFFFF_FFF7 k))
                (min (min (bit s 7) (bit 0xFFFF_FFF7 7)) (bit 0x8 k)))
              (bit 0x80 k))
            (bit 0xFFFF_E7FF k))
          (bit 0 k)
unfolding leave_machine
bit-leave_machine s k = rw (
  bit-bit_or,
  bit-bit_and,
  bit-bit_or,
  copy_bit (bit_and s 0xFFFF_FFF7) 7 0x8 k,
  bit-bit_and s 0xFFFF_FFF7 k,
  bit-bit_and s 0xFFFF_FFF7 7,
)

pub bit-leave_super :
    (s k : ℕ)
    → bit (leave_super s) k
      ≡ min
          (max
            (max
              (min (bit s k) (bit 0xFFFF_FFFD k))
              (min (min (bit s 5) (bit 0xFFFF_FFFD 5)) (bit 0x2 k)))
            (bit 0x20 k))
          (bit 0xFFFF_FEFF k)
unfolding leave_super
bit-leave_super s k = rw (
  bit-bit_and,
  bit-bit_or,
  copy_bit (bit_and s 0xFFFF_FFFD) 5 0x2 k,
  bit-bit_and s 0xFFFF_FFFD k,
  bit-bit_and s 0xFFFF_FFFD 5,
)

-- The bits that a machine-mode trap and its mret may change: MIE, MPIE and MPP.
abbrev pub machine_bits : ℕ
machine_bits = 0x1888

abbrev pub super_bits : ℕ
super_bits = 0x122

-- A privilege level is one of four numbers.
pub priv_split {ℓ} : (P : ℕ → Type ℓ) (p : ℕ) → p ≤ 3 → P 0 → P 1 → P 2 → P 3 → P p
priv_split P zero h a b c d = a
priv_split P (suc zero) h a b c d = b
priv_split P (suc (suc zero)) h a b c d = c
priv_split P (suc (suc (suc zero))) h a b c d = d
priv_split P (suc (suc (suc (suc p)))) h a b c d = absurd (omega arith)

-- Off `machine_bits` the masks keep every bit and the flags set none.
machine_table : ℕ → Bool
machine_table k =
    not (bit machine_bits k == 0)
    || (bit 0xFFFF_FF7F k == 1
        && bit 0xFFFF_FFF7 k == 1
        && bit 0xFFFF_E7FF k == 1
        && bit 0x80 k == 0
        && bit 0x8 k == 0
        && bit 0x800 k == 0
        && bit 0x1000 k == 0
        && bit 0x1800 k == 0)

machine_table_holds : all_bits 32 machine_table ≡ true
unfolding all_bits machine_table bit
machine_table_holds = refl

super_table : ℕ → Bool
super_table k =
    not (bit super_bits k == 0)
    || (bit 0xFFFF_FFDF k == 1
        && bit 0xFFFF_FFFD k == 1
        && bit 0xFFFF_FEFF k == 1
        && bit 0x20 k == 0
        && bit 0x2 k == 0
        && bit 0x100 k == 0)

super_table_holds : all_bits 32 super_table ≡ true
unfolding all_bits super_table bit
super_table_holds = refl

pub enter_machine_keeps :
    (p s k : ℕ) → p ≤ 3 → k < 32 → bit machine_bits k ≡ 0 → bit (enter_machine p s) k ≡ bit s k
unfolding machine_table shl32
enter_machine_keeps p s k hp hk h =
    priv_split (λ q. bit (enter_machine q s) k ≡ bit s k) p hp
      (ground (arith, bit-enter_machine 0 s k, bit-zero k, bit-lt s k, table))
      (ground (arith, bit-enter_machine 1 s k, bit-lt s k, table))
      (ground (arith, bit-enter_machine 2 s k, bit-lt s k, table))
      (ground (arith, bit-enter_machine 3 s k, bit-lt s k, table))
  where
    table : machine_table k ≡ true
    table = all_bits_sound 32 machine_table k machine_table_holds hk

pub leave_machine_keeps :
    (s k : ℕ) → k < 32 → bit machine_bits k ≡ 0 → bit (leave_machine s) k ≡ bit s k
unfolding machine_table
leave_machine_keeps s k hk h = ground (
  arith,
  bit-leave_machine s k,
  bit-zero k,
  bit-lt s k,
  bit-lt s 7,
  all_bits_sound 32 machine_table k machine_table_holds hk,
)

pub enter_super_keeps :
    (p s k : ℕ) → k < 32 → bit super_bits k ≡ 0 → bit (enter_super p s) k ≡ bit s k
unfolding super_table
enter_super_keeps p s k hk h = ground (
  arith,
  bit-enter_super p s k,
  bit-zero k,
  bit-lt s k,
  bit-lt s 1,
  all_bits_sound 32 super_table k super_table_holds hk,
)

pub leave_super_keeps : (s k : ℕ) → k < 32 → bit super_bits k ≡ 0 → bit (leave_super s) k ≡ bit s k
unfolding super_table
leave_super_keeps s k hk h = ground (
  arith,
  bit-leave_super s k,
  bit-zero k,
  bit-lt s k,
  bit-lt s 5,
  all_bits_sound 32 super_table k super_table_holds hk,
)
