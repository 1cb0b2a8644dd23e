-- ===== src/Printer.antt =====
-- riscv_inst_dump.cpp: riscv_inst_decode and riscv_inst_print. What sprintf renders is kept as its
-- format string and its arguments.
pub mod Words
pub mod Decode
use Prim.Native.String.{String}
use riscv_v2f_optimized.Prelude.{
  ℕ, Bool, true, false, ◌==◌, if◌then◌else◌, List, [], ◌∷◌, ◌++◌, map, bit_and,
}
use riscv_v2f_optimized.Word.{shl32, shr32, asr32}
use riscv_v2f_optimized.Isa.Fields.{
  opcode_stype_imm, opcode_sbtype_imm, opcode_ujtype_imm, opcode_rd_mask, opcode_rs1_mask,
  opcode_rs2_mask, opcode_typei_imm_mask, opcode_typeu_imm_mask, opcode_shamt_mask,
}

-- The variables that a sprintf names.
pub data Argument : Type 0 where
  pc rd rs1 rs2 imm12 imm20 bimm jimm20 storeimm shamt : Argument

-- `if ((opcode & mask) == bits) sprintf(str, format, arguments)`
pub record Branch : Type 0 where
  pub mask : ℕ
  pub bits : ℕ
  pub format : String
  pub arguments : List Argument

abbrev pub entry : ℕ → ℕ → String → List Argument → Branch
entry m b f l = record { mask = m; bits = b; format = f; arguments = l }

abbrev pub alu_branches : List Branch
alu_branches =
    entry 0x707f 0x7013 "%08x: andi r%d, r%d, %d" (pc ∷ rd ∷ rs1 ∷ imm12 ∷ [])
    ∷ entry 0x707f 0x6013 "%08x: ori r%d, r%d, %d" (pc ∷ rd ∷ rs1 ∷ imm12 ∷ [])
    ∷ entry 0x707f 0x4013 "%08x: xori r%d, r%d, %d" (pc ∷ rd ∷ rs1 ∷ imm12 ∷ [])
    ∷ entry 0x707f 0x13 "%08x: addi r%d, r%d, %d" (pc ∷ rd ∷ rs1 ∷ imm12 ∷ [])
    ∷ entry 0x707f 0x2013 "%08x: slti r%d, r%d, %d" (pc ∷ rd ∷ rs1 ∷ imm12 ∷ [])
    ∷ entry 0x707f 0x3013 "%08x: sltiu r%d, r%d, %d" (pc ∷ rd ∷ rs1 ∷ imm12 ∷ [])
    ∷ entry 0xfc00_707f 0x1013 "%08x: slli r%d, r%d, %d" (pc ∷ rd ∷ rs1 ∷ shamt ∷ [])
    ∷ entry 0xfc00_707f 0x5013 "%08x: srli r%d, r%d, %d" (pc ∷ rd ∷ rs1 ∷ shamt ∷ [])
    ∷ entry 0xfc00_707f 0x4000_5013 "%08x: srai r%d, r%d, %d" (pc ∷ rd ∷ rs1 ∷ shamt ∷ [])
    ∷ entry 0x7f 0x37 "%08x: lui r%d, 0x%x" (pc ∷ rd ∷ imm20 ∷ [])
    ∷ entry 0x7f 0x17 "%08x: auipc r%d, 0x%x" (pc ∷ rd ∷ imm20 ∷ [])
    ∷ entry 0xfe00_707f 0x33 "%08x: add r%d, r%d, r%d" (pc ∷ rd ∷ rs1 ∷ rs2 ∷ [])
    ∷ entry 0xfe00_707f 0x4000_0033 "%08x: sub r%d, r%d, r%d" (pc ∷ rd ∷ rs1 ∷ rs2 ∷ [])
    ∷ entry 0xfe00_707f 0x2033 "%08x: slt r%d, r%d, r%d" (pc ∷ rd ∷ rs1 ∷ rs2 ∷ [])
    ∷ entry 0xfe00_707f 0x3033 "%08x: sltu r%d, r%d, r%d" (pc ∷ rd ∷ rs1 ∷ rs2 ∷ [])
    ∷ entry 0xfe00_707f 0x4033 "%08x: xor r%d, r%d, r%d" (pc ∷ rd ∷ rs1 ∷ rs2 ∷ [])
    ∷ entry 0xfe00_707f 0x6033 "%08x: or r%d, r%d, r%d" (pc ∷ rd ∷ rs1 ∷ rs2 ∷ [])
    ∷ entry 0xfe00_707f 0x7033 "%08x: and r%d, r%d, r%d" (pc ∷ rd ∷ rs1 ∷ rs2 ∷ [])
    ∷ entry 0xfe00_707f 0x1033 "%08x: sll r%d, r%d, r%d" (pc ∷ rd ∷ rs1 ∷ rs2 ∷ [])
    ∷ entry 0xfe00_707f 0x5033 "%08x: srl r%d, r%d, r%d" (pc ∷ rd ∷ rs1 ∷ rs2 ∷ [])
    ∷ entry 0xfe00_707f 0x4000_5033 "%08x: sra r%d, r%d, r%d" (pc ∷ rd ∷ rs1 ∷ rs2 ∷ [])
    ∷ []

abbrev pub jump_branches : List Branch
jump_branches =
    entry 0x7f 0x6f "%08x: jal r%d, %d" (pc ∷ rd ∷ jimm20 ∷ [])
    ∷ entry 0x707f 0x67 "%08x: jalr r%d, r%d" (pc ∷ rs1 ∷ imm12 ∷ [])
    ∷ entry 0x707f 0x63 "%08x: beq r%d, r%d, %d" (pc ∷ rs1 ∷ rs2 ∷ bimm ∷ [])
    ∷ entry 0x707f 0x1063 "%08x: bne r%d, r%d, %d" (pc ∷ rs1 ∷ rs2 ∷ bimm ∷ [])
    ∷ entry 0x707f 0x4063 "%08x: blt r%d, r%d, %d" (pc ∷ rs1 ∷ rs2 ∷ bimm ∷ [])
    ∷ entry 0x707f 0x5063 "%08x: bge r%d, r%d, %d" (pc ∷ rs1 ∷ rs2 ∷ bimm ∷ [])
    ∷ entry 0x707f 0x6063 "%08x: bltu r%d, r%d, %d" (pc ∷ rs1 ∷ rs2 ∷ bimm ∷ [])
    ∷ entry 0x707f 0x7063 "%08x: bgeu r%d, r%d, %d" (pc ∷ rs1 ∷ rs2 ∷ bimm ∷ [])
    ∷ []

abbrev pub access_branches : List Branch
access_branches =
    entry 0x707f 0x3 "%08x: lb r%d, %d(r%d)" (pc ∷ rd ∷ imm12 ∷ rs1 ∷ [])
    ∷ entry 0x707f 0x1003 "%08x: lh r%d, %d(r%d)" (pc ∷ rd ∷ imm12 ∷ rs1 ∷ [])
    ∷ entry 0x707f 0x2003 "%08x: lw r%d, %d(r%d)" (pc ∷ rd ∷ imm12 ∷ rs1 ∷ [])
    ∷ entry 0x707f 0x4003 "%08x: lbu r%d, %d(r%d)" (pc ∷ rd ∷ imm12 ∷ rs1 ∷ [])
    ∷ entry 0x707f 0x5003 "%08x: lhu r%d, %d(r%d)" (pc ∷ rd ∷ imm12 ∷ rs1 ∷ [])
    ∷ entry 0x707f 0x6003 "%08x: lwu r%d, %d(r%d)" (pc ∷ rd ∷ imm12 ∷ rs1 ∷ [])
    ∷ entry 0x707f 0x23 "%08x: sb %d(r%d), r%d" (pc ∷ storeimm ∷ rs1 ∷ rs2 ∷ [])
    ∷ entry 0x707f 0x1023 "%08x: sh %d(r%d), r%d" (pc ∷ storeimm ∷ rs1 ∷ rs2 ∷ [])
    ∷ entry 0x707f 0x2023 "%08x: sw %d(r%d), r%d" (pc ∷ storeimm ∷ rs1 ∷ rs2 ∷ [])
    ∷ []

abbrev pub mul_branches : List Branch
mul_branches =
    entry 0xfe00_707f 0x200_0033 "%08x: mul r%d, r%d, r%d" (pc ∷ rd ∷ rs1 ∷ rs2 ∷ [])
    ∷ entry 0xfe00_707f 0x200_1033 "%08x: mulh r%d, r%d, r%d" (pc ∷ rd ∷ rs1 ∷ rs2 ∷ [])
    ∷ entry 0xfe00_707f 0x200_2033 "%08x: mulhsu r%d, r%d, r%d" (pc ∷ rd ∷ rs1 ∷ rs2 ∷ [])
    ∷ entry 0xfe00_707f 0x200_3033 "%08x: mulhu r%d, r%d, r%d" (pc ∷ rd ∷ rs1 ∷ rs2 ∷ [])
    ∷ entry 0xfe00_707f 0x200_4033 "%08x: div r%d, r%d, r%d" (pc ∷ rd ∷ rs1 ∷ rs2 ∷ [])
    ∷ entry 0xfe00_707f 0x200_5033 "%08x: divu r%d, r%d, r%d" (pc ∷ rd ∷ rs1 ∷ rs2 ∷ [])
    ∷ entry 0xfe00_707f 0x200_6033 "%08x: rem r%d, r%d, r%d" (pc ∷ rd ∷ rs1 ∷ rs2 ∷ [])
    ∷ entry 0xfe00_707f 0x200_7033 "%08x: remu r%d, r%d, r%d" (pc ∷ rd ∷ rs1 ∷ rs2 ∷ [])
    ∷ []

abbrev pub sys_branches : List Branch
sys_branches =
    entry 0xffff_ffff 0x73 "%08x: ecall" (pc ∷ [])
    ∷ entry 0xffff_ffff 0x10_0073 "%08x: ebreak" (pc ∷ [])
    ∷ entry 0xffff_ffff 0x3020_0073 "%08x: mret" (pc ∷ [])
    ∷ entry 0xffff_ffff 0x1020_0073 "%08x: sret" (pc ∷ [])
    ∷ entry 0xfe00_7fff 0x1200_0073 "%08x: sfence" (pc ∷ [])
    ∷ entry 0x707f 0xf "%08x: sfence" (pc ∷ [])
    ∷ entry 0x707f 0x100f "%08x: sfence" (pc ∷ [])
    ∷ entry 0x707f 0x1073 "%08x: csrw r%d, r%d, 0x%x" (pc ∷ rd ∷ rs1 ∷ imm12 ∷ [])
    ∷ entry 0x707f 0x2073 "%08x: csrs r%d, r%d, 0x%x" (pc ∷ rd ∷ rs1 ∷ imm12 ∷ [])
    ∷ entry 0x707f 0x3073 "%08x: csrc r%d, r%d, 0x%x" (pc ∷ rd ∷ rs1 ∷ imm12 ∷ [])
    ∷ entry 0x707f 0x5073 "%08x: csrwi r%d, %d, 0x%x" (pc ∷ rd ∷ rs1 ∷ imm12 ∷ [])
    ∷ entry 0x707f 0x6073 "%08x: csrsi r%d, %d, 0x%x" (pc ∷ rd ∷ rs1 ∷ imm12 ∷ [])
    ∷ entry 0x707f 0x7073 "%08x: csrci r%d, %d, 0x%x" (pc ∷ rd ∷ rs1 ∷ imm12 ∷ [])
    ∷ entry 0xffff_8fff 0x1050_0073 "%08x: wfi" (pc ∷ [])
    ∷ []

abbrev pub branches : List Branch
branches = alu_branches ++ (jump_branches ++ (access_branches ++ (mul_branches ++ sys_branches)))

-- A call of sprintf.
pub record Line : Type 0 where
  pub format : String
  pub arguments : List ℕ

unfoldable pub argument : ℕ → ℕ → Argument → ℕ
unfolding shr32 asr32 shl32
argument at opcode pc = at
argument at opcode rd = shr32 (bit_and opcode opcode_rd_mask) 7
argument at opcode rs1 = shr32 (bit_and opcode opcode_rs1_mask) 15
argument at opcode rs2 = shr32 (bit_and opcode opcode_rs2_mask) 20
argument at opcode imm12 = asr32 (bit_and opcode opcode_typei_imm_mask) 20
argument at opcode imm20 = shl32 (asr32 (bit_and opcode opcode_typeu_imm_mask) 12) 12
argument at opcode bimm = opcode_sbtype_imm opcode
argument at opcode jimm20 = opcode_ujtype_imm opcode
argument at opcode storeimm = opcode_stype_imm opcode
argument at opcode shamt = asr32 (bit_and opcode opcode_shamt_mask) 20

-- The chain of tests, and its last branch.
unfoldable pub print_first : List Branch → ℕ → ℕ → Line × Bool
print_first [] at opcode = (record { format = "%08x: invalid!"; arguments = at ∷ [] }, false)
print_first (b ∷ bs) at opcode =
    if bit_and opcode b.mask == b.bits
    then (record { format = b.format; arguments = map (argument at opcode) b.arguments }, true)
    else print_first bs at opcode

unfoldable pub riscv_inst_decode : ℕ → ℕ → Line × Bool
unfolding print_first
riscv_inst_decode at opcode = print_first branches at opcode

-- riscv_inst_print: the line for printf, whatever the result of the decoder.
unfoldable pub riscv_inst_print : ℕ → ℕ → Line
unfolding riscv_inst_decode
riscv_inst_print at opcode = (riscv_inst_decode at opcode).0
