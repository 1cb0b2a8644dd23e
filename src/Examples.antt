-- ===== src/Examples.antt =====
-- A machine with sixteen bytes of memory and one instruction in it, and what the theorems say of it.
pub mod Platform
pub mod Bench
pub mod Paging
pub mod Loading
pub mod Wrappers
use riscv_v2f_optimized.Prelude.{
  ℕ, suc, zero, ◌+◌, ◌^◌, true, false, not, ◌==◌, ◌≡◌, arith, refl, List, [], ◌∷◌, none, some, inl,
  inr, replicate, if◌then◌else◌, ltb, leb, ◌&&◌, length, ◌-◌,
}
use riscv_v2f_optimized.Prelude.Outcome.{done, Ensures}
use riscv_v2f_optimized.Word.Bits.{bit}
use riscv_v2f_optimized.Memory.{SimpleMemory, word_at, store_memory, load_memory}
use riscv_v2f_optimized.Memory.Bytes.{byte_at, stored_byte}
use riscv_v2f_optimized.Memory.Access.{store_memory-bytes, load_memory-bytes}
use riscv_v2f_optimized.Machine.{Riscv, Region, Csr}
use riscv_v2f_optimized.Regions.{get_opcode, in_region, store_regions, load_regions, valid_addr}
use riscv_v2f_optimized.Regions.Bounds.{in_region_lem}
use riscv_v2f_optimized.Regions.Bytes.{Holds, load_regions-store_regions}
use riscv_v2f_optimized.Registers.{reset, zero_csr, zero_stats, set_register, get_register}
use riscv_v2f_optimized.Breakpoints.{check_breakpoint, set_breakpoint, clr_breakpoint}
use riscv_v2f_optimized.Breakpoints.Laws.{AreBreakpoints, one_at, breakpoints-AreBreakpoints}
use riscv_v2f_optimized.Trap.{
  exception, is_delegated, mret_return, sret_return, take_interrupt, enabled_interrupts,
}
use riscv_v2f_optimized.Trap.Status.{machine_bits, super_bits}
use riscv_v2f_optimized.Trap.Return.{Resumes, mret_undoes_exception, sret_undoes_exception}
use riscv_v2f_optimized.Trap.Interrupts.{IsServed, take_interrupt-IsServed}
use riscv_v2f_optimized.Mmu.{mmu_i_translate, mmu_d_translate}
use riscv_v2f_optimized.Mmu.Bare.{mmu_translate-bare, mmu_i_translate-bare_user}
use riscv_v2f_optimized.CsrAccess.{csr_std, access_csr}
use riscv_v2f_optimized.CsrAccess.Bits.{csr_std-bit, access_csr-sstatus_write}
use riscv_v2f_optimized.Isa.Csr.{csr_sstatus, csr_sstatus_mask}
use riscv_v2f_optimized.Isa.Trap.{mcause_page_fault_inst}
use riscv_v2f_optimized.Exec.{step, decode, execute, exec_opcode}
use riscv_v2f_optimized.Exec.Alu.{exec_alu, alu_result}
use riscv_v2f_optimized.Exec.Decode.{decode_any_match}
use riscv_v2f_optimized.Isa.Opcodes.{jump, jalr}
use riscv_v2f_optimized.Invariant.State.{AreWords, IsValid}
use riscv_v2f_optimized.Invariant.Step.{here, next, reset-IsValid, Reach-IsValid}

-- addi x1, x0, 5
abbrev program : SimpleMemory
program = record { words = 0x0050_0093 ∷ 0 ∷ 0 ∷ 0 ∷ []; size = 16 }

abbrev pub base : ℕ
base = 0x8000_0000

abbrev ram : Region
ram = record { base = base; size = 16; mem = program }

abbrev pub machine_with : Csr → Riscv
machine_with csr = record {
  gpr = replicate 32 0;
  pc = base;
  pc_x = base;
  csr = csr;
  regions = ram ∷ [];
  fault = false;
  break = false;
  trace = 0;
  has_breakpoints = true;
  breakpoints = 4 ∷ 8 ∷ 4 ∷ [];
  stats = zero_stats;
  events = record { load_events = []; load_result_events = []; store_events = [] };
  console = none;
  reads = 0;
  output = [];
}

-- Machine mode with MIE set; supervisor mode with page faults delegated; user mode.
abbrev pub machine : Riscv
machine = machine_with (record zero_csr { msr = 8; mip = 0x80; mie = 0x80 })

abbrev supervisor : Riscv
supervisor = machine_with (record zero_csr { mpriv = 1; msr = 2; medeleg = 0x1000 })

abbrev user : Riscv
user = machine_with (record zero_csr { mpriv = 0 })

abbrev counts : ℕ → ℕ
counts q = (if 4 == q then 2 else 0) + (if 8 == q then 1 else 0)

pub program-AreWords : AreWords program.words
program-AreWords zero = omega arith
program-AreWords (suc zero) = omega arith
program-AreWords (suc (suc zero)) = omega arith
program-AreWords (suc (suc (suc zero))) = omega arith
program-AreWords (suc (suc (suc (suc i)))) = omega arith

machine-AreBreakpoints : AreBreakpoints machine counts
machine-AreBreakpoints = record { counted = λ q. ground arith; flag = refl }

not_delegated : is_delegated machine.csr 11 ≡ false
unfolding is_delegated
not_delegated = refl

delegated : is_delegated supervisor.csr 12 ≡ true
unfolding is_delegated
delegated = refl

pub first_step : (t : Riscv) × (step (reset machine base) ≡ done t)
unfolding step reset execute mmu_i_translate get_opcode load_regions in_region load_memory word_at
    exec_opcode decode exec_alu alu_result
first_step = (_, refl)

ram-Holds : Holds (ram ∷ []) 0x8000_0006 2
unfolding in_region
ram-Holds = (program-AreWords, refl, omega arith)

mie_hidden : bit csr_sstatus_mask 3 ≡ 0
unfolding bit
mie_hidden = refl

pub start-IsValid : IsValid (reset machine base)
start-IsValid = reset-IsValid machine base (program-AreWords, tt) (omega arith)

mret_undoes_exception_example :
    Resumes machine base 3 machine_bits (mret_return (exception machine 11 base 0))
mret_undoes_exception_example = mret_undoes_exception machine 11 base 0 (omega arith) not_delegated

sret_undoes_exception_example :
    Resumes supervisor base 1 super_bits (sret_return (exception supervisor 12 base base))
sret_undoes_exception_example = sret_undoes_exception supervisor 12 base base delegated

Reach-IsValid_example : IsValid first_step.0
Reach-IsValid_example =
    Reach-IsValid machine base (program-AreWords, tt) (omega arith) (next here first_step.1)

load_regions-store_regions_example :
    (rs : List Region) × (store_regions (ram ∷ []) 0x8000_0006 0x1_ABCD 2 ≡ done (some rs))
    × (load_regions rs 0x8000_0006 2 false ≡ done (some 0xABCD))
load_regions-store_regions_example =
    load_regions-store_regions (ram ∷ []) 0x8000_0006 0x1_ABCD 2 (inr (inl refl)) (omega arith)
      ram-Holds

store_memory-bytes_example :
    (m : SimpleMemory) × (store_memory program 2 0xABCD 2 ≡ done m)
    × (length m.words ≡ 4)
    × ((b : ℕ) → byte_at m b ≡ stored_byte program 2 0xABCD 2 b)
store_memory-bytes_example =
    store_memory-bytes program 2 0xABCD 2 program-AreWords (inr (inl refl)) refl (omega arith)

load_memory-bytes_example : load_memory program 2 2 false ≡ done 0x50
load_memory-bytes_example =
    load_memory-bytes program 2 2 program-AreWords (inr (inl refl)) refl (omega arith)

take_interrupt-IsServed_example : IsServed machine base (take_interrupt machine base false)
take_interrupt-IsServed_example = take_interrupt-IsServed machine base (omega arith) (omega arith)

decode_any_match_example : decode 0x0000_8067 ≡ some (jump jalr)
decode_any_match_example = decode_any_match 22 _ 0x0000_8067 (omega arith) refl (omega arith) refl

csr_std-bit_example : bit (csr_std 8 0xFF 2 true false) 1 ≡ (
    if bit 0xFF 1 == 1
    then (if true && false
        then bit 2 1
        else if true && bit 2 1 == 1
        then 1
        else if false && bit 2 1 == 1
        then 0
        else bit 8 1)
    else if true && false
    then 0
    else bit 8 1)
csr_std-bit_example = csr_std-bit 8 0xFF 2 1 true false (omega arith) (omega arith)

access_csr-sstatus_write_example :
    (cpu : Riscv) × (v : ℕ) × (access_csr machine csr_sstatus 2 true true ≡ done (cpu, v))
    × (bit cpu.csr.msr 3 ≡ 0)
access_csr-sstatus_write_example = access_csr-sstatus_write machine 2 3 (omega arith) mie_hidden

mmu_translate-bare_example :
    (mmu_i_translate supervisor base ≡ done (supervisor, some base))
    × (mmu_d_translate supervisor base base true ≡ done (supervisor, some base))
mmu_translate-bare_example =
    mmu_translate-bare supervisor base base true (omega arith) refl (omega arith)

mmu_i_translate-bare_user_example :
    mmu_i_translate user base ≡ done (exception user mcause_page_fault_inst base base, none)
mmu_i_translate-bare_user_example = mmu_i_translate-bare_user user base (omega arith) refl refl

in_region_lem_example :
    in_region 0x8000_0004 ram
    ≡ (ltb (base + 16) (2 ^ 32) && (leb base 0x8000_0004 && ltb 0x8000_0004 (base + 16)))
in_region_lem_example = in_region_lem 0x8000_0004 ram (omega arith) (omega arith)

breakpoints-AreBreakpoints_example :
    (check_breakpoint machine 4 ≡ not (counts 4 == 0))
    × ((set_breakpoint machine 4).1 ≡ true)
    × AreBreakpoints (set_breakpoint machine 4).0 (λ q. counts q + one_at 4 q)
    × ((clr_breakpoint machine 4).1 ≡ not (counts 4 == 0))
    × AreBreakpoints (clr_breakpoint machine 4).0 (λ q. counts q - one_at 4 q)
breakpoints-AreBreakpoints_example =
    breakpoints-AreBreakpoints machine counts 4 machine-AreBreakpoints
