-- ===== src/Invariant/Csrs.antt =====
-- A CSR access keeps the invariant and gives a word.
use riscv_v2f_optimized.Prelude.{
  ℕ, ◌^◌, ◌<◌, Bool, ◌&&◌, ◌==◌, inl, inr, Option, Option-cases, get_or, [], ◌∷◌, ◌++◌, none, some,
  bit_and, arith, Bool-cases, List,
}
use riscv_v2f_optimized.Prelude.Outcome.{done, undefined, Ensures, Ensures-bind, Ensures-if}
use riscv_v2f_optimized.Word.{not32, u32, nonzero}
use riscv_v2f_optimized.Word.Bits.{bit_or-lt, bit_and-lt, bit_and-lt_right}
use riscv_v2f_optimized.Machine.{Riscv, Csr, formatted}
use riscv_v2f_optimized.Registers.{Field, get_field, set_field, mepc}
use riscv_v2f_optimized.Mmu.{mmu_walk}
use riscv_v2f_optimized.CsrAccess.{
  CsrCase, simulation, std, const, time, timeh, unsupported, Label, find_label, csr_labels,
  csr_case, csr_std, read_format, sim_printf, sim_putc, sim_getc, sim_control, access_time,
  access_case, access_csr, timer_bit,
}
use riscv_v2f_optimized.Invariant.State.{IsCsr, IsValid}
use riscv_v2f_optimized.Invariant.Translate.{always}

get_field-lt : (f : Field) {c : Csr} → IsCsr c → get_field f c < 2 ^ 32
unfolding get_field
get_field-lt mepc w = w.mepc
get_field-lt _ w = omega arith

set_field-IsCsr : (f : Field) (x : ℕ) {c : Csr} → IsCsr c → x < 2 ^ 32 → IsCsr (set_field f x c)
unfolding set_field
set_field-IsCsr mepc x w h = omega arith
set_field-IsCsr _ x w h = omega arith

csr_std-lt :
    (var mask d : ℕ) (s c : Bool) → var < 2 ^ 32 → mask < 2 ^ 32 → csr_std var mask d s c < 2 ^ 32
unfolding csr_std
csr_std-lt var mask d s c hv hm = ground (
  arith,
  bit_and-lt_right 32 d mask,
  bit_or-lt 32 var (bit_and d mask),
  bit_and-lt 32 var (not32 (bit_and d mask)),
)

-- The values that the switch needs to be words.
abbrev FitsCase : CsrCase → Type 0
FitsCase (std f mask) = mask < 2 ^ 32
FitsCase (const x) = x < 2 ^ 32
FitsCase simulation = Unit {0}
FitsCase time = Unit {0}
FitsCase timeh = Unit {0}
FitsCase unsupported = Unit {0}

abbrev FitLabels : List Label → Type 0
FitLabels [] = Unit {0}
FitLabels (l ∷ ls) = FitsCase l.case × FitLabels ls

find_label-FitsCase : (ls : List Label) (a : ℕ) → FitLabels ls → FitsCase (find_label ls a)
unfolding find_label
find_label-FitsCase [] a h = tt
find_label-FitsCase (l ∷ ls) a h = elim (Bool-cases (a == l.number)) [
  | inl e ↦ rw e h.0
  | inr e ↦ rw e (find_label-FitsCase ls a h.1)
]

csr_case-FitsCase : (a : ℕ) → FitsCase (csr_case a)
unfolding csr_case
csr_case-FitsCase a = find_label-FitsCase csr_labels a (omega arith)

-- A state with the value that was read.
abbrev pub IsAccessed : Riscv × ℕ → Type 0
IsAccessed (cpu, x) = IsValid cpu × (x < 2 ^ 32)

module _ {cpu : Riscv} (v : IsValid cpu) where
  sim_printf-IsValid : Ensures IsValid (sim_printf cpu)
  unfolding sim_printf
  sim_printf-IsValid =
      Ensures-bind (λ _. Unit {0}) IsValid (mmu_walk cpu _) _ (always _)
        λ pte _.
          Ensures-bind (λ _. Unit {0}) IsValid (read_format cpu 1023 _) _ (always _)
            λ fmt _. result fmt
    where
      result :
          (fmt : Option (List ℕ))
          → Ensures IsValid (elim fmt [
            | none ↦ undefined
            | some cs ↦ done (record cpu {
              output =
                  cpu.output
                  ++ formatted cs
                      (get_or cpu.gpr 11 0)
                      (get_or cpu.gpr 12 0)
                      (get_or cpu.gpr 13 0)
                      (get_or cpu.gpr 14 0)
                    ∷ [];
            })
          ])
      result none = tt
      result (some cs) = record {
        gpr = v.gpr;
        pc = v.pc;
        csr = v.csr;
        memory = v.memory;
        no_fault = v.no_fault;
      }

  sim_putc-IsValid : (c : ℕ) → IsValid (sim_putc cpu c)
  unfolding sim_putc
  sim_putc-IsValid c = elim (Option-cases cpu.console) [
    | inl e ↦
        rw e
          (record { gpr = v.gpr; pc = v.pc; csr = v.csr; memory = v.memory; no_fault = v.no_fault })
    | inr (g, e) ↦
        rw e
          (record { gpr = v.gpr; pc = v.pc; csr = v.csr; memory = v.memory; no_fault = v.no_fault })
  ]

  sim_getc-IsAccessed : IsAccessed (sim_getc cpu)
  unfolding sim_getc u32
  sim_getc-IsAccessed = elim (Option-cases cpu.console) [
    | inl e ↦ rw e (
      record { gpr = v.gpr; pc = v.pc; csr = v.csr; memory = v.memory; no_fault = v.no_fault },
      omega arith,
    )
    | inr (g, e) ↦ rw e (
      record { gpr = v.gpr; pc = v.pc; csr = v.csr; memory = v.memory; no_fault = v.no_fault },
      omega arith,
    )
  ]

  sim_control-IsAccessed : (d : ℕ) → Ensures IsAccessed (sim_control cpu d)
  unfolding sim_control
  sim_control-IsAccessed d = Ensures-if IsAccessed (bit_and d 0xFF00_0000 == 0) _ _ tt (
      Ensures-if IsAccessed (bit_and d 0xFF00_0000 == 0x100_0000) _ _
        (sim_putc-IsValid (bit_and d 0xFF), omega arith)
        (Ensures-if IsAccessed (bit_and d 0xFF00_0000 == 0x200_0000) _ _ sim_getc-IsAccessed (
          Ensures-if IsAccessed (bit_and d 0xFF00_0000 == 0x400_0000) _ _ (traced, omega arith)
            (Ensures-if IsAccessed (bit_and d 0xFF00_0000 == 0x500_0000) _ _
              (Ensures-bind IsValid IsAccessed (sim_printf cpu) _ sim_printf-IsValid
                λ c h. (h, omega arith))
              (v, omega arith)))))
    where
      traced : IsValid (record cpu { trace = bit_and d 0xFF })
      traced = record {
        gpr = v.gpr;
        pc = v.pc;
        csr = v.csr;
        memory = v.memory;
        no_fault = v.no_fault;
      }

  access_time-IsAccessed : (d : ℕ) (s : Bool) → IsAccessed (access_time cpu d s)
  unfolding access_time u32
  access_time-IsAccessed d s = elim (Bool-cases (s && nonzero (bit_and d 0xFFFF_FFFF))) [
    | inl e ↦ rw e (
      record {
        gpr = v.gpr;
        pc = v.pc;
        csr = omega (
          arith,
          v.csr,
          bit_and-lt_right 32 d 0xFFFF_FFFF,
          bit_and-lt 32 cpu.csr.mip (not32 (timer_bit cpu.csr)),
        );
        memory = v.memory;
        no_fault = v.no_fault;
      },
      omega arith,
    )
    | inr e ↦ rw e (v, omega arith)
  ]

  access_case-IsAccessed :
      (c : CsrCase) (d : ℕ) (s r : Bool) → FitsCase c → Ensures IsAccessed (access_case cpu c d s r)
  unfolding access_case u32
  access_case-IsAccessed simulation d s r h = sim_control-IsAccessed d
  access_case-IsAccessed (std f mask) d s r h = (
    record {
      gpr = v.gpr;
      pc = v.pc;
      csr =
          set_field-IsCsr f _ v.csr
            (csr_std-lt (get_field f cpu.csr) mask d s r (get_field-lt f v.csr) h);
      memory = v.memory;
      no_fault = v.no_fault;
    },
    bit_and-lt 32 (get_field f cpu.csr) mask (get_field-lt f v.csr),
  )
  access_case-IsAccessed (const x) d s r h = (v, h)
  access_case-IsAccessed time d s r h = access_time-IsAccessed d s
  access_case-IsAccessed timeh d s r h = (v, omega arith)
  access_case-IsAccessed unsupported d s r h = tt

  pub access_csr-IsAccessed : (a d : ℕ) (s r : Bool) → Ensures IsAccessed (access_csr cpu a d s r)
  unfolding access_csr
  access_csr-IsAccessed a d s r =
      access_case-IsAccessed (csr_case (bit_and a 0xFFF)) d s r
        (csr_case-FitsCase (bit_and a 0xFFF))
