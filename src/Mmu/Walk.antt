-- ===== src/Mmu/Walk.antt =====
-- The page table walk finds the entry that the tables of Sv32 hold.
use riscv_v2f_optimized.Prelude.{
  ℕ, ◌+◌, ◌-◌, ◌*◌, ◌/◌, ◌%◌, ◌^◌, ◌<◌, true, ◌==◌, ==_false, ◌≡◌, ◌≢◌, refl, ap, ◌∙◌, sym, arith,
  bit_and, bit_or, none,
}
use riscv_v2f_optimized.Prelude.Outcome.{Outcome, done, >>=-done}
use riscv_v2f_optimized.Word.{add32, shl32, shr32, u32}
use riscv_v2f_optimized.Word.Bits.{bit_and_mask, bit_and-zero}
use riscv_v2f_optimized.Word.Joins.{bit_or-zero, bit_or_below}
use riscv_v2f_optimized.Word.Masks.{bit_and_field}
use riscv_v2f_optimized.Machine.{Riscv}
use riscv_v2f_optimized.Mmu.{
  mmu_walk, mmu_levels_from, mmu_round, mmu_leaf, mmu_page, mmu_read_word, mmu_overrun,
}
use riscv_v2f_optimized.Mmu.Bare.{is_canonical-any}
use riscv_v2f_optimized.Mmu.Sv32.{
  root_slot, table_slot, Holds, IsPointer, IsLeaf, IsMapped, megapage, page, IsUnmapped, no_root,
  no_table_entry, no_table, no_page_entry,
}

-- One round, from what it reads.
module _ (cpu : Riscv) (addr base shift : ℕ) (leaf next : ℕ → Outcome ℕ) {slot : ℕ}
    (slot_at : add32 base (bit_and (shr32 addr shift) (2 ^ 10 - 1) * 4) ≡ slot) where
  round-none : mmu_read_word cpu slot ≡ done none → mmu_round cpu addr base shift leaf next ≡ done 0
  unfolding mmu_round
  round-none h = rw slot_at (>>=-done _ h refl)

  module _ (e : ℕ) (h : Holds cpu slot e) where
    round-invalid : e % 2 ≡ 0 → mmu_round cpu addr base shift leaf next ≡ done 0
    unfolding mmu_round
    round-invalid v = rw slot_at (>>=-done _ h (rw (bit_and_mask 1 e ∙ v) refl))

    round-pointer :
        IsPointer e → mmu_round cpu addr base shift leaf next ≡ next (shl32 (shr32 e 10) 12)
    unfolding mmu_round
    round-pointer (v, p) = rw slot_at (>>=-done _ h (rw (bit_and_mask 1 e ∙ v, flags) refl))
      where
        flags : bit_and e 14 ≡ 0
        flags = omega (arith, bit_and_field 1 3 e)

    round-leaf : IsLeaf e → mmu_round cpu addr base shift leaf next ≡ leaf e
    unfolding mmu_round
    round-leaf (v, p) =
        rw slot_at (>>=-done _ h (rw (bit_and_mask 1 e ∙ v, ==_false _ 0 flags) refl))
      where
        flags : bit_and e 14 ≢ 0
        flags = λ z. p (omega (arith, bit_and_field 1 3 e))

root_at :
    (cpu : Riscv) (va : ℕ)
    → va < 2 ^ 32
    → add32
        (u32 (bit_and (shr32 cpu.csr.satp 0) 0x3F_FFFF * 4096))
        (bit_and (shr32 va 22) (2 ^ 10 - 1) * 4)
      ≡ root_slot cpu va
unfolding add32 u32 shr32
root_at cpu va h = omega (arith, bit_and_mask 10 (va / 2 ^ 22), bit_and_mask 22 (cpu.csr.satp / 1))

table_at :
    (p va : ℕ)
    → add32 (shl32 (shr32 p 10) 12) (bit_and (shr32 va 12) (2 ^ 10 - 1) * 4) ≡ table_slot p va
unfolding add32 shl32 shr32
table_at p va = omega (arith, bit_and_mask 10 (va / 2 ^ 12))

-- The value that the walk returns for an entry and its page.
abbrev pub walked : ℕ → ℕ → ℕ
walked e ppn = ppn * 4096 + e % 2 ^ 10

page_of : (v : ℕ) → v < 2 ^ 32 → shl32 (shr32 v 12) 12 ≡ v / 4096 * 4096
unfolding shl32 shr32
page_of v h = omega arith

mmu_page-done :
    (cpu : Riscv) (v w : ℕ) → v < 2 ^ 32 → Holds cpu (v / 4096 * 4096) w → mmu_page cpu v ≡ done v
unfolding mmu_page
mmu_page-done cpu v w small h = rw fits (rw (page_of v small) (>>=-done _ h refl))
  where
    fits : (v / 2 ^ 32 == 0) ≡ true
    fits = ground arith

mmu_leaf-walked :
    (cpu : Riscv) (addr ptshift e ppn w : ℕ)
    → bit_or (shr32 e 10) (bit_and (shr32 addr 12) (2 ^ ptshift - 1)) ≡ ppn
    → ppn < 2 ^ 20
    → Holds cpu (ppn * 4096) w
    → mmu_leaf cpu addr ptshift e ≡ done (walked e ppn)
unfolding mmu_leaf
mmu_leaf-walked cpu addr ptshift e ppn w f small h =
    ap (λ t. mmu_page cpu (bit_or (t * 2 ^ 12) (bit_and e 0x3FF))) f
    ∙ ap (mmu_page cpu) joined
    ∙ mmu_page-done cpu (walked e ppn) w (omega arith) (rw there h)
  where
    joined : bit_or (ppn * 2 ^ 12) (bit_and e 0x3FF) ≡ walked e ppn
    joined =
        ap (bit_or (ppn * 2 ^ 12)) (bit_and_mask 10 e)
        ∙ bit_or_below 12 ppn (e % 2 ^ 10) (omega arith)

    there : walked e ppn / 4096 * 4096 ≡ ppn * 4096
    there = omega arith

-- The frame of an entry in the root table takes ten bits of the address, one in the second table none.
root_frame :
    (e va : ℕ)
    → e / 2 ^ 10 % 2 ^ 10 ≡ 0
    → bit_or (shr32 e 10) (bit_and (shr32 va 12) (2 ^ 10 - 1)) ≡ e / 2 ^ 10 + va / 2 ^ 12 % 2 ^ 10
unfolding shr32
root_frame e va aligned =
    ap (bit_or (e / 2 ^ 10)) (bit_and_mask 10 (va / 2 ^ 12))
    ∙ ap (λ t. bit_or t (va / 2 ^ 12 % 2 ^ 10)) whole
    ∙ bit_or_below 10 (e / 2 ^ 20) (va / 2 ^ 12 % 2 ^ 10) (omega arith)
    ∙ omega arith
  where
    whole : e / 2 ^ 10 ≡ e / 2 ^ 20 * 2 ^ 10
    whole = omega arith

table_frame : (e va : ℕ) → bit_or (shr32 e 10) (bit_and (shr32 va 12) (2 ^ 0 - 1)) ≡ e / 2 ^ 10
unfolding shr32
table_frame e va = ap (bit_or (e / 2 ^ 10)) (bit_and-zero (va / 2 ^ 12)) ∙ bit_or-zero (e / 2 ^ 10)

-- With Sv32 on, the walk starts at the root table.
mmu_walk-levels :
    (cpu : Riscv) (va : ℕ)
    → va < 2 ^ 32
    → cpu.csr.satp / 2 ^ 31 ≡ 1
    → mmu_walk cpu va
      ≡ mmu_levels_from cpu va 1 (u32 (bit_and (shr32 cpu.csr.satp 0) 0x3F_FFFF * 4096))
unfolding mmu_walk
mmu_walk-levels cpu va h on = rw (is_canonical-any va h, ==_false _ 0 mode) refl
  where
    mode : bit_and cpu.csr.satp 0x8000_0000 ≢ 0
    mode = λ z. omega (arith, bit_and_field 31 1 cpu.csr.satp)

module _ (cpu : Riscv) (va : ℕ) (small : va < 2 ^ 32) (on : cpu.csr.satp / 2 ^ 31 ≡ 1) where
  pub mmu_walk-IsMapped :
      (e ppn w : ℕ)
      → IsMapped cpu va e ppn
      → ppn < 2 ^ 20
      → Holds cpu (ppn * 4096) w
      → mmu_walk cpu va ≡ done (walked e ppn)
  unfolding mmu_levels_from
  mmu_walk-IsMapped e ppn w (megapage h l aligned f) fits there =
      mmu_walk-levels cpu va small on
      ∙ round-leaf cpu va _ 22 (mmu_leaf cpu va 10) (mmu_levels_from cpu va 0)
          (root_at cpu va small) e h l
      ∙ mmu_leaf-walked cpu va 10 e ppn w (root_frame e va aligned ∙ sym f) fits there
  mmu_walk-IsMapped e ppn w (page p h q k l f) fits there =
      mmu_walk-levels cpu va small on
      ∙ round-pointer cpu va _ 22 (mmu_leaf cpu va 10) (mmu_levels_from cpu va 0)
          (root_at cpu va small) p h q
      ∙ round-leaf cpu va _ 12 (mmu_leaf cpu va 0) (mmu_overrun cpu va) (table_at p va) e k l
      ∙ mmu_leaf-walked cpu va 0 e ppn w (table_frame e va ∙ sym f) fits there

  pub mmu_walk-IsUnmapped : IsUnmapped cpu va → mmu_walk cpu va ≡ done 0
  unfolding mmu_levels_from
  mmu_walk-IsUnmapped (no_root h) =
      mmu_walk-levels cpu va small on
      ∙ round-none cpu va _ 22 (mmu_leaf cpu va 10) (mmu_levels_from cpu va 0)
          (root_at cpu va small) h
  mmu_walk-IsUnmapped (no_table_entry e h v) =
      mmu_walk-levels cpu va small on
      ∙ round-invalid cpu va _ 22 (mmu_leaf cpu va 10) (mmu_levels_from cpu va 0)
          (root_at cpu va small) e h v
  mmu_walk-IsUnmapped (no_table p h q k) =
      mmu_walk-levels cpu va small on
      ∙ round-pointer cpu va _ 22 (mmu_leaf cpu va 10) (mmu_levels_from cpu va 0)
          (root_at cpu va small) p h q
      ∙ round-none cpu va _ 12 (mmu_leaf cpu va 0) (mmu_overrun cpu va) (table_at p va) k
  mmu_walk-IsUnmapped (no_page_entry p e h q k v) =
      mmu_walk-levels cpu va small on
      ∙ round-pointer cpu va _ 22 (mmu_leaf cpu va 10) (mmu_levels_from cpu va 0)
          (root_at cpu va small) p h q
      ∙ round-invalid cpu va _ 12 (mmu_leaf cpu va 0) (mmu_overrun cpu va) (table_at p va) e k v
