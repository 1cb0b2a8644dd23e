-- ===== src/Isa/Fields.antt =====
-- riscv_isa.h, OPCODE_x: the register numbers and the immediates of an instruction word.
-- An immediate is an `int`, held as its 32-bit pattern.
use riscv_v2f_optimized.Prelude.{ℕ, ◌-◌, ◌^◌, bit_and, bit_or}
use riscv_v2f_optimized.Word.{shl32, shr32, neg32}

-- ((x) >> (s)) & ((1 << (n)) - 1)
abbrev pub opcode_shift_mask : ℕ → ℕ → ℕ → ℕ
unfolding shr32
opcode_shift_mask x s n = bit_and (shr32 x s) (2 ^ n - 1)

-- -(((x) >> 31) & 1)
unfoldable pub opcode_imm_sign : ℕ → ℕ
unfolding shr32 neg32
opcode_imm_sign x = neg32 (bit_and (shr32 x 31) 1)

unfoldable pub opcode_stype_imm : ℕ → ℕ
unfolding shl32 shr32 opcode_imm_sign
opcode_stype_imm x =
    bit_or (bit_or (opcode_shift_mask x 7 5) (shl32 (opcode_shift_mask x 25 7) 5))
      (shl32 (opcode_imm_sign x) 12)

unfoldable pub opcode_sbtype_imm : ℕ → ℕ
unfolding shl32 shr32 opcode_imm_sign
opcode_sbtype_imm x =
    bit_or
      (bit_or (bit_or (shl32 (opcode_shift_mask x 8 4) 1) (shl32 (opcode_shift_mask x 25 6) 5))
        (shl32 (opcode_shift_mask x 7 1) 11))
      (shl32 (opcode_imm_sign x) 12)

unfoldable pub opcode_ujtype_imm : ℕ → ℕ
unfolding shl32 shr32 opcode_imm_sign
opcode_ujtype_imm x =
    bit_or
      (bit_or (bit_or (shl32 (opcode_shift_mask x 21 10) 1) (shl32 (opcode_shift_mask x 20 1) 11))
        (shl32 (opcode_shift_mask x 12 8) 12))
      (shl32 (opcode_imm_sign x) 20)

abbrev pub opcode_rd_mask : ℕ
opcode_rd_mask = 0xF80

abbrev pub opcode_rs1_mask : ℕ
opcode_rs1_mask = 0xF_8000

abbrev pub opcode_rs2_mask : ℕ
opcode_rs2_mask = 0x1F0_0000

abbrev pub opcode_typei_imm_mask : ℕ
opcode_typei_imm_mask = 0xFFF0_0000

abbrev pub opcode_typeu_imm_mask : ℕ
opcode_typeu_imm_mask = 0xFFFF_F000

abbrev pub opcode_shamt_mask : ℕ
opcode_shamt_mask = 0x3F0_0000
