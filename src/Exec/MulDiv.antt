-- ===== src/Exec/MulDiv.antt =====
-- riscv.cpp, Riscv::execute: the branches INST_MUL to INST_REMU. The signed product of INST_MUL
-- is taken to wrap, as two's complement machines do.
use riscv_v2f_optimized.Prelude.{ℕ, ◌*◌, ◌/◌, ◌%◌, ◌^◌, ◌+◌, ◌-◌, ◌&&◌, ltb, ◌==◌, if◌then◌else◌}
use riscv_v2f_optimized.Prelude.Int.{◌*ℤ◌, quot, rem, shr_ℤ}
use riscv_v2f_optimized.Word.{all_ones, nonzero}
use riscv_v2f_optimized.Word.Signed.{to_int, of_int}
use riscv_v2f_optimized.Machine.{Riscv}
use riscv_v2f_optimized.Isa.Opcodes.{
  MulOp, mul, mulh, mulhsu, mulhu, div, divu, rem as rem_op, remu,
}
use riscv_v2f_optimized.Exec.Context.{Operands, Flow, writes}

-- (unsigned long long)(long long)(int)a
unfoldable pub sext64 : ℕ → ℕ
sext64 a = if ltb a (2 ^ 31) then a else a + (2 ^ 64 - 2 ^ 32)

-- INT32_MIN and -1 as bit patterns.
abbrev pub int32_min : ℕ
int32_min = 0x8000_0000

unfoldable pub mul_result : MulOp → ℕ → ℕ → ℕ
unfolding to_int of_int sext64 ◌*ℤ◌ quot rem shr_ℤ
mul_result mul a b = of_int (to_int a *ℤ to_int b)
mul_result mulh a b = of_int (shr_ℤ (to_int a *ℤ to_int b) 32)
mul_result mulhsu a b = sext64 a * b % 2 ^ 64 / 2 ^ 32 % 2 ^ 32
mul_result mulhu a b = a * b / 2 ^ 32 % 2 ^ 32
mul_result div a b =
    if a == int32_min && b == all_ones
    then a
    else if nonzero b
    then of_int (quot (to_int a) (to_int b))
    else all_ones
mul_result divu a b = if nonzero b then a / b else all_ones
mul_result rem_op a b =
    if a == int32_min && b == all_ones
    then 0
    else if nonzero b
    then of_int (rem (to_int a) (to_int b))
    else a
mul_result remu a b = if nonzero b then a % b else a

unfoldable pub exec_mul : MulOp → Riscv → Operands → Flow
unfolding mul_result
exec_mul op cpu o = writes cpu o (mul_result op o.reg_rs1 o.reg_rs2)
