-- ===== src/Breakpoints.antt =====
-- riscv.cpp: get_break, set_breakpoint, clr_breakpoint and check_breakpoint.
pub mod Laws
use riscv_v2f_optimized.Prelude.{
  ℕ, Bool, true, false, not, ◌==◌, if◌then◌else◌, List, [], ◌∷◌, ◌++◌, Option, none, some,
}
use riscv_v2f_optimized.Machine.{Riscv}

unfoldable pub get_break : Riscv → Riscv × Bool
get_break cpu = (record cpu { break = false }, cpu.break)

unfoldable pub set_breakpoint : Riscv → ℕ → Riscv × Bool
set_breakpoint cpu pc =
    (record cpu { breakpoints = cpu.breakpoints ++ pc ∷ []; has_breakpoints = true }, true)

-- The loop of clr_breakpoint: the list without its first `pc`, or none if there is no such entry.
unfoldable pub erase_first : List ℕ → ℕ → Option (List ℕ)
erase_first [] pc = none
erase_first (b ∷ bs) pc =
    let rest = erase_first bs pc in
    if b == pc then some bs else elim rest [ none ↦ none | some bs' ↦ some (b ∷ bs') ]

abbrev pub is_empty : List ℕ → Bool
is_empty [] = true
is_empty (b ∷ bs) = false

unfoldable pub clr_breakpoint : Riscv → ℕ → Riscv × Bool
unfolding erase_first
clr_breakpoint cpu pc = elim (erase_first cpu.breakpoints pc) [
  | none ↦ (cpu, false)
  | some bs ↦ (record cpu { breakpoints = bs; has_breakpoints = not (is_empty bs) }, true)
]

unfoldable pub contains : List ℕ → ℕ → Bool
contains [] pc = false
contains (b ∷ bs) pc = if b == pc then true else contains bs pc

unfoldable pub check_breakpoint : Riscv → ℕ → Bool
unfolding contains
check_breakpoint cpu pc = contains cpu.breakpoints pc
