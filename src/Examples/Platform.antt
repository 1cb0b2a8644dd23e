-- ===== src/Examples/Platform.antt =====
-- The simulator beside a copy of itself, the driver's loop, the loader and the printer.
use Prim.Native.String.{String}
use riscv_v2f_optimized.Prelude.{
  ◌*◌, zero, suc, ◌<◌, ◌-◌, ℕ, ◌+◌, ◌^◌, Bool, true, false, ◌==◌, if◌then◌else◌, ◌≡◌, refl, arith,
  List, [], ◌∷◌, none,
}
use riscv_v2f_optimized.Prelude.Outcome.{done, Ensures, ◌>>=◌}
use riscv_v2f_optimized.Machine.{Riscv}
use riscv_v2f_optimized.Registers.{reset, get_register}
use riscv_v2f_optimized.Exec.{decode}
use riscv_v2f_optimized.Exec.Context.{operands}
use riscv_v2f_optimized.Exec.MulDiv.{mul_result}
use riscv_v2f_optimized.Exec.Encodings.{AreEncoded, operands-AreEncoded}
use riscv_v2f_optimized.Exec.Products.{mul_result-mul_mulhu}
use riscv_v2f_optimized.Exec.Divisions.{IsUnsignedDivision, IsSignedDivision, mul_result-divisions}
use riscv_v2f_optimized.Isa.Opcodes.{mul, mulhu}
use riscv_v2f_optimized.Printer.{riscv_inst_decode}
use riscv_v2f_optimized.Printer.Decode.{IsListing, riscv_inst_decode-IsListing}
use riscv_v2f_optimized.Cosim.{CpuItem, MemItem, Cosim, step_all}
use riscv_v2f_optimized.Cosim.Lockstep.{AreTogether, step_all-AreTogether}
use riscv_v2f_optimized.Cosim.Twins.{AreTwins, drained, step_all-twins}
use riscv_v2f_optimized.Regions.{in_region}
use riscv_v2f_optimized.Regions.Bytes.{Holds}
use riscv_v2f_optimized.Cosim.Bus.{in_item, write_word, read_word}
use riscv_v2f_optimized.Cosim.Words.{write_word-read_word}
use riscv_v2f_optimized.Driver.Simulator.Laws.{riscv_laws}
use riscv_v2f_optimized.Driver.{Options, default_options, run, simulate}
use riscv_v2f_optimized.Driver.Loop.{IsEnded, run-terminates}
use riscv_v2f_optimized.Driver.Simulator.{riscv_cpu, riscv_mem, main_world}
use riscv_v2f_optimized.Driver.Simulator.Status.{sim, leave_with_zero, simulate-status}
use riscv_v2f_optimized.Examples.{base, machine, first_step, program-AreWords}

abbrev start : Riscv
start = reset machine base

abbrev one : CpuItem
one = record { name = "sim"; cpu = 0 }

abbrev two : CpuItem
two = record { name = "other"; cpu = 1 }

abbrev pair : Cosim Riscv
pair = record { objects = start ∷ start ∷ []; m_cpu = one ∷ two ∷ []; m_mem = []; m_dump = none }

-- One thousand instructions at most.
abbrev options : Options
options = record default_options { max_cycles = 1000 }

abbrev zeros : ℕ → List ℕ
zeros n = []

abbrev text_file : String → Bool
text_file name = false

abbrev world : Cosim Riscv
world = main_world machine

riscv_inst_decode-IsListing_example :
    IsListing base
      (operands machine 0x0050_0093)
      (decode 0x0050_0093)
      (riscv_inst_decode base 0x0050_0093)
riscv_inst_decode-IsListing_example = riscv_inst_decode-IsListing machine base 0x0050_0093

step_all-AreTogether_example : Ensures (AreTogether riscv_cpu) (step_all riscv_cpu pair)
step_all-AreTogether_example = step_all-AreTogether riscv_cpu pair

step_all-twins_example :
    (os : List Riscv) × (step_all riscv_cpu pair ≡ done (record pair { objects = os }))
    × AreTwins one two first_step.0 os
unfolding drained reset
step_all-twins_example =
    step_all-twins riscv_cpu one two (start ∷ start ∷ []) [] none start first_step.0
      first_step.0.pc_x 32 (get_register first_step.0) (λ e. omega arith) (refl, refl) first_step.1
      refl refl (λ r. refl)

run-terminates_example :
    Ensures IsEnded (run (sim zeros text_file 0) 1000 options 0 0 world)
    × (run (sim zeros text_file 0) (2 ^ 32) options 0 0 world
        ≡ run (sim zeros text_file 0) 1000 options 0 0 world)
run-terminates_example =
    run-terminates (sim zeros text_file 0) options world (2 ^ 32) (omega arith) (omega arith)
      (omega arith)

simulate-status_example : simulate (sim zeros text_file 0) 1000 options base world ≡ (do
  w1 ← (sim zeros text_file 0).reset world base
  w2 ←
      (if options.trace == 0
        then done w1
        else (sim zeros text_file 0).enable_trace w1 options.trace_mask)
  ended ← run (sim zeros text_file 0) 1000 options 0 0 w2
  leave_with_zero zeros text_file 0 ended)
unfolding main_world
simulate-status_example =
    simulate-status zeros text_file 0 1000 options base world machine refl (program-AreWords, tt)
      (omega arith)

abbrev item : MemItem
item = record { name = "sim"; mem = 0; base = 0; size = 2 ^ 32 - 1 }

covered :
    (k : ℕ) → k < 4 → (in_item (base + 8 + k) item ≡ true) × Holds machine.regions (base + 8 + k) 1
unfolding in_item in_region
covered zero h = (refl, (program-AreWords, refl, omega arith))
covered (suc zero) h = (refl, (program-AreWords, refl, omega arith))
covered (suc (suc zero)) h = (refl, (program-AreWords, refl, omega arith))
covered (suc (suc (suc zero))) h = (refl, (program-AreWords, refl, omega arith))
covered (suc (suc (suc (suc k)))) h = absurd (omega arith)

write_word-read_word_example :
    (os : List Riscv) × (write_word (riscv_mem zeros) world (base + 8) 0xDEAD_BEEF
      ≡ done (record world { objects = os }))
    × (read_word (riscv_mem zeros) (record world { objects = os }) (base + 8) ≡ done 0xDEAD_BEEF)
unfolding main_world
write_word-read_word_example =
    write_word-read_word (riscv_mem zeros) (riscv_laws zeros)
      (record { name = "sim"; cpu = 0 } ∷ []) item none (base + 8) 0xDEAD_BEEF (machine ∷ [])
      machine refl (omega arith) (omega arith) covered

mul_result-mul_mulhu_example :
    mul_result mul 0xFFFF_FFFF 3 + 2 ^ 32 * mul_result mulhu 0xFFFF_FFFF 3 ≡ 0xFFFF_FFFF * 3
mul_result-mul_mulhu_example = mul_result-mul_mulhu 0xFFFF_FFFF 3 (omega arith) (omega arith)

-- The word of -17 divided by 5.
mul_result-divisions_example :
    IsUnsignedDivision 0xFFFF_FFEF 5 0x3333_332F 4
    × IsSignedDivision 0xFFFF_FFEF 5 0xFFFF_FFFD 0xFFFF_FFFE
unfolding mul_result
mul_result-divisions_example = mul_result-divisions 0xFFFF_FFEF 5 (omega arith) (omega arith)

-- sw x5, -4(x2)
operands-AreEncoded_example : AreEncoded start 0xFE51_2E23 (operands start 0xFE51_2E23)
operands-AreEncoded_example = operands-AreEncoded start 0xFE51_2E23 (omega arith)
