-- ===== src/Printer/Words.antt =====
-- The line that riscv.cpp's execute traces for an instruction (DPRINTF with LOG_INST): its name and its
-- operands.
use Prim.Native.Char.{code}
use Prim.Native.String.{String}
use riscv_v2f_optimized.Prelude.{ℕ, ◌==◌, if◌then◌else◌, List, [], ◌∷◌}
use riscv_v2f_optimized.Isa.Opcodes.{
  Inst, alu, jump, load_inst, store_inst, muldiv, system, AluOp, JumpOp, LoadOp, StoreOp, MulOp,
  SysOp,
}
use riscv_v2f_optimized.Exec.Context.{Operands}
use riscv_v2f_optimized.Printer.{
  Argument, pc, rd, rs1, rs2, imm12, imm20, bimm, jimm20, storeimm, shamt,
}

-- The characters of a text.
abbrev pub codes : String → List ℕ
codes String.[] = []
codes (String.◌∷◌ c s) = code c ∷ codes s

-- The word behind the pc of a line: what stands between the first blank and the next.
abbrev pub upto_blank : List ℕ → List ℕ
upto_blank [] = []
upto_blank (c ∷ cs) = let rest = upto_blank cs in if c == 0x20 then [] else c ∷ rest

abbrev pub word : List ℕ → List ℕ
word [] = []
word (c ∷ cs) = let rest = word cs in if c == 0x20 then upto_blank cs else rest

abbrev pub alu_word : AluOp → String
alu_word AluOp.andi = "andi"
alu_word AluOp.ori = "ori"
alu_word AluOp.xori = "xori"
alu_word AluOp.addi = "addi"
alu_word AluOp.slti = "slti"
alu_word AluOp.sltiu = "sltiu"
alu_word AluOp.slli = "slli"
alu_word AluOp.srli = "srli"
alu_word AluOp.srai = "srai"
alu_word AluOp.lui = "lui"
alu_word AluOp.auipc = "auipc"
alu_word AluOp.add = "add"
alu_word AluOp.sub = "sub"
alu_word AluOp.slt = "slt"
alu_word AluOp.sltu = "sltu"
alu_word AluOp.xor = "xor"
alu_word AluOp.or = "or"
alu_word AluOp.and = "and"
alu_word AluOp.sll = "sll"
alu_word AluOp.srl = "srl"
alu_word AluOp.sra = "sra"

abbrev pub jump_word : JumpOp → String
jump_word JumpOp.jal = "jal"
jump_word JumpOp.jalr = "jalr"
jump_word JumpOp.beq = "beq"
jump_word JumpOp.bne = "bne"
jump_word JumpOp.blt = "blt"
jump_word JumpOp.bge = "bge"
jump_word JumpOp.bltu = "bltu"
jump_word JumpOp.bgeu = "bgeu"

abbrev pub load_word : LoadOp → String
load_word LoadOp.lb = "lb"
load_word LoadOp.lh = "lh"
load_word LoadOp.lw = "lw"
load_word LoadOp.lbu = "lbu"
load_word LoadOp.lhu = "lhu"
load_word LoadOp.lwu = "lwu"

abbrev pub store_word : StoreOp → String
store_word StoreOp.sb = "sb"
store_word StoreOp.sh = "sh"
store_word StoreOp.sw = "sw"

abbrev pub mul_word : MulOp → String
mul_word MulOp.mul = "mul"
mul_word MulOp.mulh = "mulh"
mul_word MulOp.mulhsu = "mulhsu"
mul_word MulOp.mulhu = "mulhu"
mul_word MulOp.div = "div"
mul_word MulOp.divu = "divu"
mul_word MulOp.rem = "rem"
mul_word MulOp.remu = "remu"

-- The three fences share one branch.
abbrev pub system_word : SysOp → String
system_word SysOp.ecall = "ecall"
system_word SysOp.ebreak = "ebreak"
system_word SysOp.mret = "mret"
system_word SysOp.sret = "sret"
system_word SysOp.fence = "fence"
system_word SysOp.csrrw = "csrw"
system_word SysOp.csrrs = "csrs"
system_word SysOp.csrrc = "csrc"
system_word SysOp.csrrwi = "csrwi"
system_word SysOp.csrrsi = "csrsi"
system_word SysOp.csrrci = "csrci"
system_word SysOp.wfi = "wfi"

abbrev pub mnemonic : Inst → String
mnemonic (alu op) = alu_word op
mnemonic (jump op) = jump_word op
mnemonic (load_inst op) = load_word op
mnemonic (store_inst op) = store_word op
mnemonic (muldiv op) = mul_word op
mnemonic (system op) = system_word op

-- The operands that the trace of an instruction shows, in order.
abbrev pub alu_shown : AluOp → List Argument
alu_shown AluOp.andi = rd ∷ rs1 ∷ imm12 ∷ []
alu_shown AluOp.ori = rd ∷ rs1 ∷ imm12 ∷ []
alu_shown AluOp.xori = rd ∷ rs1 ∷ imm12 ∷ []
alu_shown AluOp.addi = rd ∷ rs1 ∷ imm12 ∷ []
alu_shown AluOp.slti = rd ∷ rs1 ∷ imm12 ∷ []
alu_shown AluOp.sltiu = rd ∷ rs1 ∷ imm12 ∷ []
alu_shown AluOp.slli = rd ∷ rs1 ∷ shamt ∷ []
alu_shown AluOp.srli = rd ∷ rs1 ∷ shamt ∷ []
alu_shown AluOp.srai = rd ∷ rs1 ∷ shamt ∷ []
alu_shown AluOp.lui = rd ∷ imm20 ∷ []
alu_shown AluOp.auipc = rd ∷ imm20 ∷ []
alu_shown op = rd ∷ rs1 ∷ rs2 ∷ []

abbrev pub jump_shown : JumpOp → List Argument
jump_shown JumpOp.jal = rd ∷ jimm20 ∷ []
jump_shown JumpOp.jalr = rs1 ∷ imm12 ∷ []
jump_shown op = rs1 ∷ rs2 ∷ bimm ∷ []

abbrev pub system_shown : SysOp → List Argument
system_shown SysOp.ecall = []
system_shown SysOp.ebreak = []
system_shown SysOp.mret = []
system_shown SysOp.sret = []
system_shown SysOp.fence = []
system_shown SysOp.wfi = []
system_shown op = rd ∷ rs1 ∷ imm12 ∷ []

abbrev pub shown : Inst → List Argument
shown (alu op) = alu_shown op
shown (jump op) = jump_shown op
shown (load_inst op) = rd ∷ imm12 ∷ rs1 ∷ []
shown (store_inst op) = storeimm ∷ rs1 ∷ rs2 ∷ []
shown (muldiv op) = rd ∷ rs1 ∷ rs2 ∷ []
shown (system op) = system_shown op

-- The values with which execute runs the instruction.
abbrev pub executed : ℕ → Operands → Argument → ℕ
executed at o pc = at
executed at o rd = o.rd
executed at o rs1 = o.rs1
executed at o rs2 = o.rs2
executed at o imm12 = o.imm12
executed at o imm20 = o.imm20
executed at o bimm = o.bimm
executed at o jimm20 = o.jimm20
executed at o storeimm = o.storeimm
executed at o shamt = o.shamt
