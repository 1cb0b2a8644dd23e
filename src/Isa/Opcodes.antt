-- ===== src/Isa/Opcodes.antt =====
-- riscv_isa.h: the instructions (enum eInstructions) and their encodings INST_x, INST_x_MASK.
-- The enumerators stand in one type for each group of branches of Riscv::execute.
use riscv_v2f_optimized.Prelude.{ℕ, List, [], ◌∷◌, ◌++◌}

-- Register and immediate arithmetic.
pub data AluOp : Type 0 where
  andi ori xori addi slti sltiu slli srli srai lui auipc add sub slt sltu xor or and sll srl sra :
      AluOp

-- Jumps and conditional branches.
pub data JumpOp : Type 0 where
  jal jalr beq bne blt bge bltu bgeu : JumpOp

-- Loads.
pub data LoadOp : Type 0 where
  lb lh lw lbu lhu lwu : LoadOp

-- Stores.
pub data StoreOp : Type 0 where
  sb sh sw : StoreOp

-- Multiplication and division.
pub data MulOp : Type 0 where
  mul mulh mulhsu mulhu div divu rem remu : MulOp

-- System instructions; the three fences share one branch of the decoder.
pub data SysOp : Type 0 where
  ecall ebreak mret sret fence csrrw csrrs csrrc csrrwi csrrsi csrrci wfi : SysOp

pub data Inst : Type 0 where
  alu : AluOp → Inst
  jump : JumpOp → Inst
  load_inst : LoadOp → Inst
  store_inst : StoreOp → Inst
  muldiv : MulOp → Inst
  system : SysOp → Inst

-- One test of the decoder, `(opcode & mask) == match`.
pub record Pattern : Type 0 where
  pub mask : ℕ
  pub bits : ℕ
  pub inst : Inst

abbrev pub alu_patterns : List Pattern
alu_patterns =
    record { mask = 0x707f; bits = 0x7013; inst = alu andi }
    ∷ record { mask = 0x707f; bits = 0x6013; inst = alu ori }
    ∷ record { mask = 0x707f; bits = 0x4013; inst = alu xori }
    ∷ record { mask = 0x707f; bits = 0x13; inst = alu addi }
    ∷ record { mask = 0x707f; bits = 0x2013; inst = alu slti }
    ∷ record { mask = 0x707f; bits = 0x3013; inst = alu sltiu }
    ∷ record { mask = 0xfc00_707f; bits = 0x1013; inst = alu slli }
    ∷ record { mask = 0xfc00_707f; bits = 0x5013; inst = alu srli }
    ∷ record { mask = 0xfc00_707f; bits = 0x4000_5013; inst = alu srai }
    ∷ record { mask = 0x7f; bits = 0x37; inst = alu lui }
    ∷ record { mask = 0x7f; bits = 0x17; inst = alu auipc }
    ∷ record { mask = 0xfe00_707f; bits = 0x33; inst = alu add }
    ∷ record { mask = 0xfe00_707f; bits = 0x4000_0033; inst = alu sub }
    ∷ record { mask = 0xfe00_707f; bits = 0x2033; inst = alu slt }
    ∷ record { mask = 0xfe00_707f; bits = 0x3033; inst = alu sltu }
    ∷ record { mask = 0xfe00_707f; bits = 0x4033; inst = alu xor }
    ∷ record { mask = 0xfe00_707f; bits = 0x6033; inst = alu or }
    ∷ record { mask = 0xfe00_707f; bits = 0x7033; inst = alu and }
    ∷ record { mask = 0xfe00_707f; bits = 0x1033; inst = alu sll }
    ∷ record { mask = 0xfe00_707f; bits = 0x5033; inst = alu srl }
    ∷ record { mask = 0xfe00_707f; bits = 0x4000_5033; inst = alu sra }
    ∷ []

abbrev pub jump_patterns : List Pattern
jump_patterns =
    record { mask = 0x7f; bits = 0x6f; inst = jump jal }
    ∷ record { mask = 0x707f; bits = 0x67; inst = jump jalr }
    ∷ record { mask = 0x707f; bits = 0x63; inst = jump beq }
    ∷ record { mask = 0x707f; bits = 0x1063; inst = jump bne }
    ∷ record { mask = 0x707f; bits = 0x4063; inst = jump blt }
    ∷ record { mask = 0x707f; bits = 0x5063; inst = jump bge }
    ∷ record { mask = 0x707f; bits = 0x6063; inst = jump bltu }
    ∷ record { mask = 0x707f; bits = 0x7063; inst = jump bgeu }
    ∷ []

abbrev pub load_patterns : List Pattern
load_patterns =
    record { mask = 0x707f; bits = 0x3; inst = load_inst lb }
    ∷ record { mask = 0x707f; bits = 0x1003; inst = load_inst lh }
    ∷ record { mask = 0x707f; bits = 0x2003; inst = load_inst lw }
    ∷ record { mask = 0x707f; bits = 0x4003; inst = load_inst lbu }
    ∷ record { mask = 0x707f; bits = 0x5003; inst = load_inst lhu }
    ∷ record { mask = 0x707f; bits = 0x6003; inst = load_inst lwu }
    ∷ []

abbrev pub store_patterns : List Pattern
store_patterns =
    record { mask = 0x707f; bits = 0x23; inst = store_inst sb }
    ∷ record { mask = 0x707f; bits = 0x1023; inst = store_inst sh }
    ∷ record { mask = 0x707f; bits = 0x2023; inst = store_inst sw }
    ∷ []

abbrev pub mul_patterns : List Pattern
mul_patterns =
    record { mask = 0xfe00_707f; bits = 0x200_0033; inst = muldiv mul }
    ∷ record { mask = 0xfe00_707f; bits = 0x200_1033; inst = muldiv mulh }
    ∷ record { mask = 0xfe00_707f; bits = 0x200_2033; inst = muldiv mulhsu }
    ∷ record { mask = 0xfe00_707f; bits = 0x200_3033; inst = muldiv mulhu }
    ∷ record { mask = 0xfe00_707f; bits = 0x200_4033; inst = muldiv div }
    ∷ record { mask = 0xfe00_707f; bits = 0x200_5033; inst = muldiv divu }
    ∷ record { mask = 0xfe00_707f; bits = 0x200_6033; inst = muldiv rem }
    ∷ record { mask = 0xfe00_707f; bits = 0x200_7033; inst = muldiv remu }
    ∷ []

abbrev pub sys_patterns : List Pattern
sys_patterns =
    record { mask = 0xffff_ffff; bits = 0x73; inst = system ecall }
    ∷ record { mask = 0xffff_ffff; bits = 0x10_0073; inst = system ebreak }
    ∷ record { mask = 0xffff_ffff; bits = 0x3020_0073; inst = system mret }
    ∷ record { mask = 0xffff_ffff; bits = 0x1020_0073; inst = system sret }
    ∷ record { mask = 0xfe00_7fff; bits = 0x1200_0073; inst = system fence }
    ∷ record { mask = 0x707f; bits = 0xf; inst = system fence }
    ∷ record { mask = 0x707f; bits = 0x100f; inst = system fence }
    ∷ record { mask = 0x707f; bits = 0x1073; inst = system csrrw }
    ∷ record { mask = 0x707f; bits = 0x2073; inst = system csrrs }
    ∷ record { mask = 0x707f; bits = 0x3073; inst = system csrrc }
    ∷ record { mask = 0x707f; bits = 0x5073; inst = system csrrwi }
    ∷ record { mask = 0x707f; bits = 0x6073; inst = system csrrsi }
    ∷ record { mask = 0x707f; bits = 0x7073; inst = system csrrci }
    ∷ record { mask = 0xffff_8fff; bits = 0x1050_0073; inst = system wfi }
    ∷ []

-- The order in which Riscv::execute tries them.
abbrev pub patterns : List Pattern
patterns =
    alu_patterns
    ++ (jump_patterns ++ (load_patterns ++ (store_patterns ++ (mul_patterns ++ sys_patterns))))
