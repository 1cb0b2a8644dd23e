-- ===== src/Trap/Return.antt =====
-- mret and sret undo the trap that led to them.
use riscv_v2f_optimized.Prelude.{
  ℕ, ◌+◌, ◌*◌, ◌≤◌, ◌<◌, true, false, bit_and, ◌≡◌, ◌∙◌, refl, if◌then◌else◌, arith,
}
use riscv_v2f_optimized.Prelude.Outcome.{Outcome, done}
use riscv_v2f_optimized.Word.{nonzero}
use riscv_v2f_optimized.Word.Bits.{bit, bit_and_pow}
use riscv_v2f_optimized.Machine.{Riscv, Csr}
use riscv_v2f_optimized.Trap.{
  exception, is_delegated, to_machine, to_super, mret_return, sret_return, enter_machine,
  enter_super, leave_machine, leave_super, sr_get_mpp,
}
use riscv_v2f_optimized.Trap.Status.{
  machine_bits, super_bits, enter_machine_keeps, leave_machine_keeps, enter_super_keeps,
  leave_super_keeps,
}
use riscv_v2f_optimized.Trap.Fields.{
  enter_machine_fields, leave_machine_fields, enter_super_fields, leave_super_fields,
  sr_get_mpp_lem,
}
use riscv_v2f_optimized.Isa.Trap.{sr_spp, priv_super, priv_user}

-- No trap from machine mode is delegated.
is_delegated_level : (csr : Csr) (cause : ℕ) → is_delegated csr cause ≡ true → csr.mpriv ≤ 1
unfolding is_delegated
is_delegated_level csr cause h = ground arith

-- `r` resumes the state before the trap at `pc`: the level and the interrupt enable bit `e` are
-- the old ones, and so are all bits of the status word outside `changed`.
pub record Resumes (cpu : Riscv) (pc e changed : ℕ) (r : Outcome (Riscv × ℕ)) : Type 0 where
  pub after : Riscv
  pub returns : r ≡ done (after, pc)
  pub level : after.csr.mpriv ≡ cpu.csr.mpriv
  pub enable : bit after.csr.msr e ≡ bit cpu.csr.msr e
  pub others : (k : ℕ) → k < 32 → bit changed k ≡ 0 → bit after.csr.msr k ≡ bit cpu.csr.msr k

abbrev after_mret : Riscv → Riscv
after_mret t = record t {
  csr = record t.csr { mpriv = sr_get_mpp t.csr.msr; msr = leave_machine t.csr.msr };
}

abbrev after_sret : Riscv → Riscv
after_sret t = record t {
  csr = record t.csr {
    mpriv = if nonzero (bit_and t.csr.msr sr_spp) then priv_super else priv_user;
    msr = leave_super t.csr.msr;
  };
}

-- A trap that goes to machine mode, from any level, is undone by mret: it goes back to the trapped
-- pc at the old privilege level, with MIE as before, and changes no other bit of mstatus than
-- MIE, MPIE and MPP.
pub mret_undoes_exception :
    (cpu : Riscv) (cause pc badaddr : ℕ)
    → cpu.csr.mpriv ≤ 3
    → is_delegated cpu.csr cause ≡ false
    → Resumes cpu pc 3 machine_bits (mret_return (exception cpu cause pc badaddr))
unfolding exception mret_return
mret_undoes_exception cpu cause pc badaddr hp hd = rw hd (record {
  after = after_mret (to_machine cpu cause pc);
  returns = refl;
  level = sr_get_mpp_lem s ∙ entered.2;
  enable = (leave_machine_fields s).0 ∙ entered.1;
  others = λ k hk h.
      leave_machine_keeps s k hk h ∙ enter_machine_keeps cpu.csr.mpriv cpu.csr.msr k hp hk h;
})
  where
    s : ℕ
    s = enter_machine cpu.csr.mpriv cpu.csr.msr

    entered :
        (bit s 3 ≡ 0) × (bit s 7 ≡ bit cpu.csr.msr 3) × (bit s 11 + 2 * bit s 12 ≡ cpu.csr.mpriv)
    entered = enter_machine_fields cpu.csr.mpriv cpu.csr.msr hp

-- A trap that is delegated to supervisor mode is undone by sret: it goes back to the trapped pc at
-- the old privilege level, user or supervisor, with SIE as before, and changes no other bit of
-- mstatus than SIE, SPIE and SPP.
pub sret_undoes_exception :
    (cpu : Riscv) (cause pc badaddr : ℕ)
    → is_delegated cpu.csr cause ≡ true
    → Resumes cpu pc 1 super_bits (sret_return (exception cpu cause pc badaddr))
unfolding exception sret_return
sret_undoes_exception cpu cause pc badaddr hd = rw hd (record {
  after = after_sret (to_super cpu cause pc badaddr);
  returns = refl;
  level = ground (arith, bit_and_pow 8 s, entered.2, below);
  enable = (leave_super_fields s).0 ∙ entered.1;
  others =
      λ k hk h. leave_super_keeps s k hk h ∙ enter_super_keeps cpu.csr.mpriv cpu.csr.msr k hk h;
})
  where
    s : ℕ
    s = enter_super cpu.csr.mpriv cpu.csr.msr

    below : cpu.csr.mpriv ≤ 1
    below = is_delegated_level cpu.csr cause hd

    entered : (bit s 1 ≡ 0) × (bit s 5 ≡ bit cpu.csr.msr 1) × (bit s 8 ≡ cpu.csr.mpriv)
    entered = enter_super_fields cpu.csr.mpriv cpu.csr.msr below
