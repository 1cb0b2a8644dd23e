-- ===== src/ElfLoad/Sections.antt =====
-- One section of elf_load, whatever the callbacks do, and the bytes that a later section covers.
use riscv_v2f_optimized.Prelude.{
  ℕ, Bool, true, false, ◌==◌, Option, none, some, ◌≡◌, ◌⊎◌, inl, inr, refl,
}
use riscv_v2f_optimized.Prelude.Outcome.{Outcome, done, >>=-done}
use riscv_v2f_optimized.ElfLoad.{Section, needs_memory, load_bytes, load_section}

-- A section that takes no room, and one that does, whatever the callbacks do.
module _ {W : Type 0} (creating : W → ℕ → ℕ → Outcome (W × Bool))
    (loading : W → ℕ → ℕ → Outcome (W × Bool)) (shf_alloc sht_progbits : ℕ) where
  pub load_section-none :
      (x : Section) (w : W)
      → needs_memory creating loading shf_alloc sht_progbits x ≡ false
      → load_section creating loading shf_alloc sht_progbits x w ≡ done (w, true)
  unfolding load_section
  load_section-none x w h = rw (h, load_section) refl

  pub load_section-zero :
      (x : Section) (w w' : W)
      → needs_memory creating loading shf_alloc sht_progbits x ≡ true
      → creating w x.sh_addr x.sh_size ≡ done (w', true)
      → (x.sh_type == sht_progbits) ≡ false
      → load_section creating loading shf_alloc sht_progbits x w ≡ done (w', true)
  unfolding load_section
  load_section-zero x w w' h c t = rw (h, load_section) (>>=-done _ c (rw t refl))

  pub load_section-copied :
      (x : Section) (w w' : W) {r : Outcome (W × Bool)}
      → needs_memory creating loading shf_alloc sht_progbits x ≡ true
      → creating w x.sh_addr x.sh_size ≡ done (w', true)
      → (x.sh_type == sht_progbits) ≡ true
      → load_bytes creating loading shf_alloc sht_progbits x.sh_size 0 x w' ≡ r
      → load_section creating loading shf_alloc sht_progbits x w ≡ r
  unfolding load_section
  load_section-copied x w w' h c t b = rw (h, load_section) (>>=-done _ c (rw t b))

-- What the later sections say at an address, and else what an earlier one says.
abbrev pub later : Option ℕ → Option ℕ → Option ℕ
later (some v) o = some v
later none o = o

pub later-some :
    (o p : Option ℕ) (v : ℕ) → later o p ≡ some v → (o ≡ some v) ⊎ ((o ≡ none) × (p ≡ some v))
later-some (some u) p v h = inl h
later-some none p v h = inr (refl, h)

pub later-none : (o p : Option ℕ) → later o p ≡ none → (o ≡ none) × (p ≡ none)
later-none (some u) p h = cc
later-none none p h = (refl, h)
