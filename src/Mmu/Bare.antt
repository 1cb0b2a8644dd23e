-- ===== src/Mmu/Bare.antt =====
-- Translation without page tables.
use riscv_v2f_optimized.Prelude.{
  ℕ, ◌+◌, ◌*◌, ◌/◌, ◌%◌, ◌^◌, ◌≤◌, ◌<◌, Bool, true, false, ◌≡◌, ap, sym, ltb, inl, inr, Bool-cases,
  ◌∙◌, arith, refl, bit_and, bit_or, none, some,
}
use riscv_v2f_optimized.Prelude.Outcome.{done}
use riscv_v2f_optimized.Word.{add32, shl32, shr32, asr32, is_neg}
use riscv_v2f_optimized.Word.Bits.{bit_and_mask}
use riscv_v2f_optimized.Word.Masks.{bit_and_field, bit_and_disjoint, bit_or_sum}
use riscv_v2f_optimized.Machine.{Riscv}
use riscv_v2f_optimized.Mmu.{
  mmu_walk, is_canonical, is_reserved, page_address, i_page_fault, d_page_fault, mmu_i_translate,
  mmu_d_translate,
}
use riscv_v2f_optimized.Trap.{exception}
use riscv_v2f_optimized.Isa.Trap.{mcause_page_fault_inst}
use riscv_v2f_optimized.Isa.Paging.{satp_mode}

-- The entry that the walk makes up in bare mode: present, readable, writable, executable.
abbrev bare_entry : ℕ → ℕ
bare_entry addr = bit_or 15 (shl32 (shr32 addr 12) 12)

pub is_canonical-any : (addr : ℕ) → addr < 2 ^ 32 → is_canonical addr ≡ true
unfolding is_canonical asr32 shl32 is_neg
is_canonical-any addr h = ground arith

mmu_walk-bare :
    (cpu : Riscv) (addr : ℕ)
    → addr < 2 ^ 32
    → bit_and cpu.csr.satp satp_mode ≡ 0
    → mmu_walk cpu addr ≡ done (bare_entry addr)
unfolding mmu_walk
mmu_walk-bare cpu addr h e = rw (is_canonical-any addr h, e) refl

bare_entry-sum : (addr : ℕ) → addr < 2 ^ 32 → bare_entry addr ≡ addr / 4096 * 4096 + 15
unfolding shl32 shr32
bare_entry-sum addr h =
    ap (bit_or 15) whole
    ∙ omega (
      arith,
      bit_or_sum 32 15 (addr / 4096 * 4096),
      sym (ap (λ t. bit_and 15 t) field)
          ∙ bit_and_disjoint 32 15 addr 0xFFFF_F000 (omega arith) (omega arith),
    )
  where
    whole : addr / 4096 * 4096 % 2 ^ 32 ≡ addr / 4096 * 4096
    whole = omega arith

    field : bit_and addr 0xFFFF_F000 ≡ addr / 4096 * 4096
    field = omega (arith, bit_and_field 12 20 addr)

page_address-bare : (addr : ℕ) → addr < 2 ^ 32 → page_address (bare_entry addr) addr ≡ addr
unfolding page_address add32 shl32 shr32
page_address-bare addr h = rw (bare_entry-sum addr h) (ground (arith, bit_and_mask 12 addr))

-- The flags of that entry: it is no user page.
flags :
    (e addr : ℕ)
    → e ≡ addr / 4096 * 4096 + 15
    → (bit_and e 14 ≡ 14)
      × (bit_and e 16 ≡ 0)
      × (bit_and e 8 ≡ 8)
      × (bit_and e 4 ≡ 4)
      × (bit_and e 2 ≡ 2)
      × (bit_and e 24 ≡ 8)
flags e addr h = (
  omega (arith, bit_and_field 1 3 e),
  omega (arith, bit_and_field 4 1 e),
  omega (arith, bit_and_field 3 1 e),
  omega (arith, bit_and_field 2 1 e),
  omega (arith, bit_and_field 1 1 e),
  omega (arith, bit_and_field 3 2 e),
)

i_page_fault-bare :
    (cpu : Riscv) (addr : ℕ)
    → addr < 2 ^ 32
    → cpu.csr.mpriv ≡ 1
    → i_page_fault cpu (bare_entry addr) ≡ done false
unfolding i_page_fault is_reserved
i_page_fault-bare cpu addr h e =
    let (f14, f16, f8, f4, f2, f24) = flags (bare_entry addr) addr (bare_entry-sum addr h) in
    rw (f14, e, f16, f8) refl

d_page_fault-bare :
    (cpu : Riscv) (addr : ℕ) (w : Bool)
    → addr < 2 ^ 32
    → cpu.csr.mpriv ≡ 1
    → d_page_fault cpu (bare_entry addr) w ≡ done false
unfolding d_page_fault is_reserved
d_page_fault-bare cpu addr true h e =
    let (f14, f16, f8, f4, f2, f24) = flags (bare_entry addr) addr (bare_entry-sum addr h) in
    rw (f14, e, f16, f4) refl
d_page_fault-bare cpu addr false h e =
    let (f14, f16, f8, f4, f2, f24) = flags (bare_entry addr) addr (bare_entry-sum addr h) in
    rw (f14, e, f16, f2) refl

-- With satp in bare mode, supervisor and machine mode reach every address as it is, for
-- instructions and for data.
pub mmu_translate-bare :
    (cpu : Riscv) (pc addr : ℕ) (is_write : Bool)
    → addr < 2 ^ 32
    → bit_and cpu.csr.satp satp_mode ≡ 0
    → 1 ≤ cpu.csr.mpriv
    → (mmu_i_translate cpu addr ≡ done (cpu, some addr))
      × (mmu_d_translate cpu pc addr is_write ≡ done (cpu, some addr))
unfolding mmu_i_translate mmu_d_translate
mmu_translate-bare cpu pc addr w h e hp = elim (Bool-cases (ltb 1 cpu.csr.mpriv)) [
  | inl m ↦ (rw m refl, rw m refl)
  | inr m ↦ (
    rw
        (
          m,
          mmu_walk-bare cpu addr h e,
          i_page_fault-bare cpu addr h (ground arith),
          page_address-bare addr h,
        )
        refl,
    rw
        (
          m,
          mmu_walk-bare cpu addr h e,
          d_page_fault-bare cpu addr w h (ground arith),
          page_address-bare addr h,
        )
        refl,
  )
]

i_page_fault-user :
    (cpu : Riscv) (addr : ℕ)
    → addr < 2 ^ 32
    → cpu.csr.mpriv ≡ 0
    → i_page_fault cpu (bare_entry addr) ≡ done true
unfolding i_page_fault is_reserved
i_page_fault-user cpu addr h e =
    let (f14, f16, f8, f4, f2, f24) = flags (bare_entry addr) addr (bare_entry-sum addr h) in
    rw (f14, e, f24) refl

-- With satp in bare mode, user mode can fetch from no address: the entry made up for it has no
-- user flag, and every fetch is a page fault.
pub mmu_i_translate-bare_user :
    (cpu : Riscv) (addr : ℕ)
    → addr < 2 ^ 32
    → bit_and cpu.csr.satp satp_mode ≡ 0
    → cpu.csr.mpriv ≡ 0
    → mmu_i_translate cpu addr ≡ done (exception cpu mcause_page_fault_inst addr addr, none)
unfolding mmu_i_translate
mmu_i_translate-bare_user cpu addr h e hp =
    rw (ap (ltb 1) hp, mmu_walk-bare cpu addr h e, i_page_fault-user cpu addr h hp) refl
