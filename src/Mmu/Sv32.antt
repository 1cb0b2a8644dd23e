-- ===== src/Mmu/Sv32.antt =====
-- What the tables of Sv32 say of a virtual address, in plain arithmetic: the entry that maps it and
-- its page, or that none does. Physical addresses have 32 bits here, so the page number of satp or of
-- a pointer counts with its low 20 bits.
use riscv_v2f_optimized.Prelude.{
  ℕ, ◌+◌, ◌*◌, ◌/◌, ◌%◌, ◌^◌, Bool, true, false, not, ◌&&◌, ◌||◌, ◌==◌, if◌then◌else◌, ◌≡◌, ◌≢◌,
  none, some,
}
use riscv_v2f_optimized.Prelude.Outcome.{done}
use riscv_v2f_optimized.Machine.{Riscv}
use riscv_v2f_optimized.Mmu.{mmu_read_word}

-- Where the entry for `va` lies in the root table, and in the table that `e` points to.
abbrev pub root_slot : Riscv → ℕ → ℕ
root_slot cpu va = cpu.csr.satp % 2 ^ 20 * 4096 + va / 2 ^ 22 * 4

abbrev pub table_slot : ℕ → ℕ → ℕ
table_slot e va = e / 2 ^ 10 % 2 ^ 20 * 4096 + va / 2 ^ 12 % 2 ^ 10 * 4

abbrev pub Holds : Riscv → ℕ → ℕ → Type 0
Holds cpu a w = mmu_read_word cpu a ≡ done (some w)

-- The valid bit, and the three bits that are all clear in a pointer to a table.
abbrev pub IsPointer : ℕ → Type 0
IsPointer e = (e % 2 ≡ 1) × (e / 2 % 2 ^ 3 ≡ 0)

abbrev pub IsLeaf : ℕ → Type 0
IsLeaf e = (e % 2 ≡ 1) × (e / 2 % 2 ^ 3 ≢ 0)

-- The entry `e` maps the page of `va` to the physical page `ppn`.
pub data IsMapped (cpu : Riscv) (va e ppn : ℕ) : Type 0 where
  megapage :
      Holds cpu (root_slot cpu va) e
      → IsLeaf e
      → e / 2 ^ 10 % 2 ^ 10 ≡ 0
      → ppn ≡ e / 2 ^ 10 + va / 2 ^ 12 % 2 ^ 10
      → IsMapped cpu va e ppn
  page :
      (p : ℕ)
      → Holds cpu (root_slot cpu va) p
      → IsPointer p
      → Holds cpu (table_slot p va) e
      → IsLeaf e
      → ppn ≡ e / 2 ^ 10
      → IsMapped cpu va e ppn

-- No entry: a table lies in no memory, or its entry is not valid.
pub data IsUnmapped (cpu : Riscv) (va : ℕ) : Type 0 where
  no_root : mmu_read_word cpu (root_slot cpu va) ≡ done none → IsUnmapped cpu va
  no_table_entry : (e : ℕ) → Holds cpu (root_slot cpu va) e → e % 2 ≡ 0 → IsUnmapped cpu va
  no_table :
      (p : ℕ)
      → Holds cpu (root_slot cpu va) p
      → IsPointer p
      → mmu_read_word cpu (table_slot p va) ≡ done none
      → IsUnmapped cpu va
  no_page_entry :
      (p e : ℕ)
      → Holds cpu (root_slot cpu va) p
      → IsPointer p
      → Holds cpu (table_slot p va) e
      → e % 2 ≡ 0
      → IsUnmapped cpu va

-- What an entry lets a privilege level do. Supervisor mode on a page of user mode ends the
-- simulation, but where mstatus.SUM lets it load and store there.
pub data Verdict : Type 0 where
  granted refused fatal : Verdict

-- The bits R, W, X and U of an entry are 1 to 4.
abbrev pub has : ℕ → ℕ → Bool
has e k = e / 2 ^ k % 2 == 1

abbrev pub verdict_of : Bool → Verdict
verdict_of true = granted
verdict_of false = refused

abbrev pub fetch_verdict : Bool → ℕ → Verdict
fetch_verdict super e =
    if has e 2 && not (has e 1)
    then refused
    else if super && has e 4
    then fatal
    else verdict_of ((super || has e 4) && has e 3)

abbrev pub data_verdict : Bool → Bool → Bool → ℕ → Verdict
data_verdict super sum is_write e =
    if has e 2 && not (has e 1)
    then refused
    else if super && has e 4 && not sum
    then fatal
    else verdict_of ((super || has e 4) && (if is_write then has e 2 else has e 1))
