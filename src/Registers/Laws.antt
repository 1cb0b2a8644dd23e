-- ===== src/Registers/Laws.antt =====
-- Reading a register back.
use riscv_v2f_optimized.Prelude.{
  ℕ, ◌<◌, ◌≡◌, leb, ◌==◌, true, false, inl, inr, ◌∙◌, ap, refl, arith, Bool-cases, length,
  get_or-set_self, ◌⊎◌, some,
}
use riscv_v2f_optimized.Machine.{Riscv, Csr}
use riscv_v2f_optimized.Registers.{
  Field, get_field, set_field, field_of, set_register, get_register, riscv_regno_pc,
  riscv_regno_priv,
}

get_field-set_field : (f : Field) (v : ℕ) (c : Csr) → get_field f (set_field f v c) ≡ v
unfolding get_field set_field
get_field-set_field Field.mepc v c = refl
get_field-set_field Field.mcause v c = refl
get_field-set_field Field.msr v c = refl
get_field-set_field Field.mevec v c = refl
get_field-set_field Field.mie v c = refl
get_field-set_field Field.mip v c = refl
get_field-set_field Field.mtime v c = refl
get_field-set_field Field.mtimecmp v c = refl
get_field-set_field Field.mscratch v c = refl
get_field-set_field Field.mideleg v c = refl
get_field-set_field Field.medeleg v c = refl
get_field-set_field Field.sepc v c = refl
get_field-set_field Field.sevec v c = refl
get_field-set_field Field.scause v c = refl
get_field-set_field Field.stval v c = refl
get_field-set_field Field.satp v c = refl
get_field-set_field Field.sscratch v c = refl

set_register-field :
    (cpu : Riscv) (r v : ℕ) (f : Field)
    → leb r 31 ≡ false
    → (r == 32) ≡ false
    → field_of r ≡ some f
    → set_register cpu r v ≡ record cpu { csr = set_field f v cpu.csr }
unfolding set_register
set_register-field cpu r v f g p e = rw (g, p, e) refl

get_register-field :
    (cpu : Riscv) (r : ℕ) (f : Field)
    → leb r 31 ≡ false
    → (r == 32) ≡ false
    → field_of r ≡ some f
    → get_register cpu r ≡ get_field f cpu.csr
unfolding get_register
get_register-field cpu r f g p e = rw (g, p, e) refl

get_set-gpr :
    (cpu : Riscv) (r v : ℕ)
    → length cpu.gpr ≡ 32
    → leb r 31 ≡ true
    → get_register (set_register cpu r v) r ≡ v
unfolding get_register set_register
get_set-gpr cpu r v h g = rw g (get_or-set_self cpu.gpr r v 0 (ground (arith, h)))

get_set-pc :
    (cpu : Riscv) (r v : ℕ)
    → leb r 31 ≡ false
    → (r == 32) ≡ true
    → get_register (set_register cpu r v) r ≡ v
unfolding get_register set_register
get_set-pc cpu r v g p = rw (g, p) refl

get_set-priv :
    (cpu : Riscv) (r v : ℕ) → r ≡ riscv_regno_priv → get_register (set_register cpu r v) r ≡ v
get_set-priv cpu r v e = ap (λ n. get_register (set_register cpu n v) n) e ∙ there
  where
    there : get_register (set_register cpu riscv_regno_priv v) riscv_regno_priv ≡ v
    there = unfold get_register in unfold set_register in unfold field_of in refl

-- A register number is one of the 32 general registers, the pc, that of a CSR in the table, or the
-- privilege level's.
abbrev pub IsRegister : ℕ → Type 0
IsRegister r =
    (r < 32) ⊎ (r ≡ riscv_regno_pc) ⊎ ((f : Field) × (field_of r ≡ some f)) ⊎ (r ≡ riscv_regno_priv)

-- get_register returns what set_register wrote, for every register number that names a register.
-- The general registers include x0, which the debugger's write changes.
get_register-set_register :
    (cpu : Riscv) (r v : ℕ)
    → length cpu.gpr ≡ 32
    → IsRegister r
    → get_register (set_register cpu r v) r ≡ v
get_register-set_register cpu r v h (inl hr) = get_set-gpr cpu r v h (ground arith)
get_register-set_register cpu r v h (inr (inl e)) = get_set-pc cpu r v (rw e refl) (rw e refl)
get_register-set_register cpu r v h (inr (inr (inl (f, e)))) = elim (Bool-cases (leb r 31)) [
  | inl g ↦ get_set-gpr cpu r v h g
  | inr g ↦ elim (Bool-cases (r == 32)) [
    | inl p ↦ get_set-pc cpu r v g p
    | inr p ↦
        get_register-field (set_register cpu r v) r f g p e
        ∙ ap (λ c. get_field f c.csr) (set_register-field cpu r v f g p e)
        ∙ get_field-set_field f v cpu.csr
  ]
]
get_register-set_register cpu r v h (inr (inr (inr e))) = get_set-priv cpu r v e
