-- ===== src/ElfLoad.antt =====
-- isa_sim/elf_load.cpp: elf_load and elf_get_symbol. libelf, open() and bfd are not part of the
-- repository: what they answer for a file is a record of answers, in the order of the calls.
-- SHF_ALLOC and SHT_PROGBITS are <elf.h>'s, and parameters.
pub mod Bytes
pub mod Sections
pub mod Image
use Prim.Native.String.{String}
use riscv_v2f_optimized.Prelude.{
  ℕ, zero, suc, ◌+◌, ◌-◌, ◌%◌, ◌^◌, Bool, true, false, not, ◌&&◌, ◌||◌, ◌==◌, ltb, if◌then◌else◌,
  List, [], ◌∷◌, Option, none, some, get_elem?, bit_and,
}
use riscv_v2f_optimized.Prelude.Outcome.{Outcome, done, undefined, ◌>>=◌}
use riscv_v2f_optimized.Word.{add32}

-- One section: elf32_getshdr's fields, and elf_getdata's d_buf.
pub record Section : Type 0 where
  pub sh_flags : ℕ
  pub sh_type : ℕ
  pub sh_addr : ℕ
  pub sh_size : ℕ
  pub d_buf : List ℕ

-- What libelf answers. e_entry is 64 bits wide, none when gelf_getehdr returns NULL; `sections` are
-- elf_getscn's answers for 0, 1, …, each none when elf32_getshdr returns NULL.
pub record Elf : Type 0 where
  pub has_version : Bool
  pub is_open : Bool
  pub has_descriptor : Bool
  pub is_elf : Bool
  pub has_names : Bool
  pub e_entry : Option ℕ
  pub sections : List (Option Section)

-- A pointer that may be NULL, read through.
abbrev pub non_null {ℓ} : {A : Type ℓ} → Option A → Outcome A
non_null none = undefined
non_null (some a) = done a

module _ {W : Type 0} (fn_create : W → ℕ → ℕ → Outcome (W × Bool))
    (fn_load : W → ℕ → ℕ → Outcome (W × Bool)) (shf_alloc sht_progbits : ℕ) where
  -- `for (i=0;i<shdr->sh_size;i++)`, with `left` rounds to go; false for `return 0`.
  unfoldable pub load_bytes : ℕ → ℕ → Section → W → Outcome (W × Bool)
  unfolding add32
  load_bytes zero i s w = done (w, true)
  load_bytes (suc left) i s w = do
    b ← non_null (get_elem? s.d_buf i)
    (w', ok) ← fn_load w (add32 s.sh_addr i) b
    elim ok [ true ↦ load_bytes left (i + 1) s w' | false ↦ done (w', false) ]

  -- `(shdr->sh_flags & SHF_ALLOC) && (shdr->sh_size > 0)`
  abbrev pub needs_memory : Section → Bool
  needs_memory s = not (bit_and s.sh_flags shf_alloc == 0) && ltb 0 s.sh_size

  unfoldable pub load_section : Section → W → Outcome (W × Bool)
  unfolding load_bytes
  load_section s w = elim (needs_memory s) [
    | false ↦ done (w, true)
    | true ↦ do
      (w', ok) ← fn_create w s.sh_addr s.sh_size
      elim ok [
        | false ↦ done (w', false)
        | true ↦ elim (s.sh_type == sht_progbits) [
          | false ↦ done (w', true)
          | true ↦ load_bytes s.sh_size 0 s w'
        ]
      ]
  ]

  unfoldable pub load_sections : List (Option Section) → W → Outcome (W × Bool)
  unfolding load_section
  load_sections [] w = done (w, true)
  load_sections (p ∷ ps) w = do
    s ← non_null p
    (w', ok) ← load_section s w
    elim ok [ true ↦ load_sections ps w' | false ↦ done (w', false) ]

  -- elf_load, with the start address for the answer 1 and none for 0.
  unfoldable pub elf_load : Elf → W → Outcome (W × Option ℕ)
  unfolding load_sections
  elf_load e w = elim (e.has_version && e.is_open && e.has_descriptor && e.is_elf && e.has_names) [
    | false ↦ done (w, none)
    | true ↦ do
      entry ← non_null e.e_entry
      (w', ok) ← load_sections e.sections w
      done (w', if ok then some (entry % 2 ^ 32) else none)
  ]

-- elf_get_symbol: the value of the first symbol of that name, as a `long` of 64 bits; -1 if there
-- is none or bfd cannot read the file, whose symbol table is none then.
unfoldable pub find_symbol : (String → String → Bool) → List (String × ℕ) → String → ℕ
find_symbol same [] name = 2 ^ 64 - 1
find_symbol same ((n, value) ∷ rest) name =
    if same n name then value % 2 ^ 64 else find_symbol same rest name

unfoldable pub elf_get_symbol : (String → String → Bool) → Option (List (String × ℕ)) → String → ℕ
unfolding find_symbol
elf_get_symbol same none name = 2 ^ 64 - 1
elf_get_symbol same (some symtab) name = find_symbol same symtab name
