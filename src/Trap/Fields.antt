-- ===== src/Trap/Fields.antt =====
-- The fields of the status word that the traps set and the returns restore.
use riscv_v2f_optimized.Prelude.{ℕ, ◌+◌, ◌*◌, ◌/◌, ◌≤◌, min, max, ◌≡◌, arith}
use riscv_v2f_optimized.Word.{shl32, shr32}
use riscv_v2f_optimized.Word.Bits.{bit, bit_and_mask}
use riscv_v2f_optimized.Trap.{enter_super, enter_machine, leave_machine, leave_super, sr_get_mpp}
use riscv_v2f_optimized.Trap.Status.{
  bit-enter_machine, bit-enter_super, bit-leave_machine, bit-leave_super, priv_split,
}

-- The fields that the traps set: interrupts go off, their enable bit and the level are kept.
pub enter_machine_fields :
    (p s : ℕ)
    → p ≤ 3
    → (bit (enter_machine p s) 3 ≡ 0)
      × (bit (enter_machine p s) 7 ≡ bit s 3)
      × (bit (enter_machine p s) 11 + 2 * bit (enter_machine p s) 12 ≡ p)
unfolding bit shl32
enter_machine_fields p s h =
    priv_split
      (λ q.
        (bit (enter_machine q s) 3 ≡ 0)
        × (bit (enter_machine q s) 7 ≡ bit s 3)
        × (bit (enter_machine q s) 11 + 2 * bit (enter_machine q s) 12 ≡ q))
      p h (omega (arith, at 0 3, at 0 7, at 0 11, at 0 12))
      (omega (arith, at 1 3, at 1 7, at 1 11, at 1 12))
      (omega (arith, at 2 3, at 2 7, at 2 11, at 2 12))
      (omega (arith, at 3 3, at 3 7, at 3 11, at 3 12))
  where
    at :
        (q k : ℕ)
        → bit (enter_machine q s) k
          ≡ max
              (min
                (min
                  (max
                    (min (bit s k) (bit 0xFFFF_FF7F k))
                    (min (min (bit s 3) (bit 0xFFFF_FF7F 3)) (bit 0x80 k)))
                  (bit 0xFFFF_FFF7 k))
                (bit 0xFFFF_E7FF k))
              (bit (shl32 q 11) k)
    at q k = bit-enter_machine q s k

pub leave_machine_fields :
    (s : ℕ)
    → (bit (leave_machine s) 3 ≡ bit s 7)
      × (bit (leave_machine s) 7 ≡ 1)
      × (bit (leave_machine s) 11 ≡ 0)
      × (bit (leave_machine s) 12 ≡ 0)
unfolding bit
leave_machine_fields s = omega (
  arith,
  bit-leave_machine s 3,
  bit-leave_machine s 7,
  bit-leave_machine s 11,
  bit-leave_machine s 12,
)

pub enter_super_fields :
    (p s : ℕ)
    → p ≤ 1
    → (bit (enter_super p s) 1 ≡ 0)
      × (bit (enter_super p s) 5 ≡ bit s 1)
      × (bit (enter_super p s) 8 ≡ p)
unfolding bit
enter_super_fields p s h =
    ground (arith, bit-enter_super p s 1, bit-enter_super p s 5, bit-enter_super p s 8)

pub leave_super_fields :
    (s : ℕ)
    → (bit (leave_super s) 1 ≡ bit s 5) × (bit (leave_super s) 5 ≡ 1) × (bit (leave_super s) 8 ≡ 0)
unfolding bit
leave_super_fields s = omega (arith, bit-leave_super s 1, bit-leave_super s 5, bit-leave_super s 8)

-- SR_GET_MPP reads the bits 11 and 12.
pub sr_get_mpp_lem : (s : ℕ) → sr_get_mpp s ≡ bit s 11 + 2 * bit s 12
unfolding sr_get_mpp shr32 bit
sr_get_mpp_lem s = omega (arith, bit_and_mask 2 (s / 2048))
