-- ===== src/Printer/Decode.antt =====
-- The instruction printer shows what the simulator traces while it executes.
use Prim.Native.String.{String}
use mathlib.Core.Path.{subst, fun_ext}
use riscv_v2f_optimized.Prelude.{
  ℕ, Bool, true, false, ◌==◌, List, [], ◌∷◌, map, Option, none, some, bit_and, ◌≡◌, refl, ap, ◌∙◌,
  sym, arith, Bool-cases, inl, inr,
}
use riscv_v2f_optimized.Machine.{Riscv}
use riscv_v2f_optimized.Isa.Opcodes.{Inst, system, SysOp, Pattern, patterns}
use riscv_v2f_optimized.Exec.{matches, first_match, decode}
use riscv_v2f_optimized.Exec.Context.{Operands, operands}
use riscv_v2f_optimized.Printer.Words.{codes, word, mnemonic, shown, executed}
use riscv_v2f_optimized.Printer.{
  Argument, pc, rd, rs1, rs2, imm12, imm20, bimm, jimm20, storeimm, shamt, Branch, branches, Line,
  argument, print_first, riscv_inst_decode,
}

-- The name that the printer has for an instruction: that of the trace, but for the fences.
abbrev pub printed_name : Inst → String
printed_name (system SysOp.fence) = "sfence"
printed_name inst = mnemonic inst

-- The line has the name and the operands that execute traces, or says that there is no instruction.
abbrev pub IsListing : ℕ → Operands → Option Inst → Line × Bool → Type 0
IsListing at o none (line, ok) =
    (ok ≡ false) × (line.format ≡ "%08x: invalid!") × (line.arguments ≡ at ∷ [])
IsListing at o (some inst) (line, ok) =
    (ok ≡ true)
    × (word (codes line.format) ≡ codes (printed_name inst))
    × (line.arguments ≡ at ∷ map (executed at o) (shown inst))

-- One row of either table.
record Row : Type 0 where
  mask : ℕ
  bits : ℕ
  text : List ℕ
  arguments : List Argument

abbrev printer_row : Branch → Row
printer_row b = record {
  mask = b.mask;
  bits = b.bits;
  text = word (codes b.format);
  arguments = b.arguments;
}

abbrev decoder_row : Pattern → Row
decoder_row p = record {
  mask = p.mask;
  bits = p.bits;
  text = codes (printed_name p.inst);
  arguments = pc ∷ shown p.inst;
}

same_tables : map printer_row branches ≡ map decoder_row patterns
same_tables = refl

argument-operands :
    (cpu : Riscv) (at opcode : ℕ) (a : Argument)
    → argument at opcode a ≡ executed at (operands cpu opcode) a
unfolding argument operands
argument-operands cpu at opcode pc = refl
argument-operands cpu at opcode rd = refl
argument-operands cpu at opcode rs1 = refl
argument-operands cpu at opcode rs2 = refl
argument-operands cpu at opcode imm12 = refl
argument-operands cpu at opcode imm20 = refl
argument-operands cpu at opcode bimm = refl
argument-operands cpu at opcode jimm20 = refl
argument-operands cpu at opcode storeimm = refl
argument-operands cpu at opcode shamt = refl

print_first-IsListing :
    (bs : List Branch) (ps : List Pattern) (cpu : Riscv) (at opcode : ℕ)
    → map printer_row bs ≡ map decoder_row ps
    → IsListing at (operands cpu opcode) (first_match ps opcode) (print_first bs at opcode)
unfolding print_first first_match
print_first-IsListing [] [] cpu at opcode e = (refl, refl, refl)
print_first-IsListing [] (p ∷ ps) cpu at opcode e = cc
print_first-IsListing (b ∷ bs) [] cpu at opcode e = cc
print_first-IsListing (b ∷ bs) (p ∷ ps) cpu at opcode e = elim (Bool-cases (matches p opcode)) [
  | inl hit ↦ rw (same_test, hit) (refl, text, values)
  | inr miss ↦ rw (same_test, miss) (print_first-IsListing bs ps cpu at opcode (rest))
]
  where
    row : printer_row b ≡ decoder_row p
    row = cc

    rest : map printer_row bs ≡ map decoder_row ps
    rest = cc

    same_test : (bit_and opcode b.mask == b.bits) ≡ matches p opcode
    same_test = ap (λ (r : Row). bit_and opcode r.mask == r.bits) row

    text : word (codes b.format) ≡ codes (printed_name p.inst)
    text = ap (λ (r : Row). r.text) row

    values :
        map (argument at opcode) b.arguments
        ≡ at ∷ map (executed at (operands cpu opcode)) (shown p.inst)
    values =
        ap (λ f. map f b.arguments) (fun_ext (argument-operands cpu at opcode))
        ∙ ap (λ (r : Row). map (executed at (operands cpu opcode)) r.arguments) row

-- For every instruction word riscv_inst_decode fails exactly where execute finds a bad instruction. Else
-- its line has the pc, the operands that execute traces for the instruction that it runs, in the same
-- order and with the values that execute has computed, and the name that execute traces; only the
-- fences, which execute traces as `fence`, are named `sfence`.
pub riscv_inst_decode-IsListing :
    (cpu : Riscv) (at opcode : ℕ)
    → IsListing at (operands cpu opcode) (decode opcode) (riscv_inst_decode at opcode)
unfolding riscv_inst_decode decode
riscv_inst_decode-IsListing cpu at opcode = elim (Bool-cases (opcode == 0)) [
  | inl e ↦ rw e (
      subst (λ w. IsListing at (operands cpu w) none (print_first branches at w)) (sym (to_zero e))
        bad)
  | inr e ↦ rw e (print_first-IsListing branches patterns cpu at opcode same_tables)
]
  where
    to_zero : (opcode == 0) ≡ true → opcode ≡ 0
    to_zero e = ground arith

    bad : IsListing at (operands cpu 0) none (print_first branches at 0)
    bad = unfold print_first in (refl, refl, refl)
