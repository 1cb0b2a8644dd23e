-- ===== src/ElfLoad/Image.antt =====
-- What elf_load leaves in a memory that keeps its promises: the bytes of the file's sections.
use Prim.Native.String.{String}
use riscv_v2f_optimized.Prelude.{
  ℕ, suc, ◌+◌, ◌-◌, ◌^◌, ◌≤◌, Bool, true, false, not, ltb, bit_and, ◌&&◌, ◌==◌, List, [], ◌∷◌,
  length, Option, none, some, get_elem?, set, ◌≡◌, inl, inr, ◌∙◌, refl, ap, sym, arith, map,
  get_elem?-set_self, Bool-cases,
}
use riscv_v2f_optimized.Prelude.Outcome.{Outcome, done, >>=-done}
use riscv_v2f_optimized.Cosim.Api.{CpuApi, MemApi}
use riscv_v2f_optimized.Cosim.{Cosim, CpuItem, MemItem, Dump}
use riscv_v2f_optimized.Cosim.Bus.{in_item, bus_read}
use riscv_v2f_optimized.Cosim.Words.{bus_read-one}
use riscv_v2f_optimized.ElfLoad.{Section, load_section, load_sections}
use riscv_v2f_optimized.ElfLoad.Sections.{
  load_section-none, load_section-zero, load_section-copied, later, later-some, later-none,
}
use riscv_v2f_optimized.ElfLoad.Bytes.{
  LoaderLaws, AreBytes, fn_create, fn_load, world, fn_create-one, load_bytes-one, window,
  window-some, window-none,
}

module _ {S : Type 0} (cpu : CpuApi S) (api : MemApi S) (laws : LoaderLaws api)
    (is_output : String → Bool) (cs : List CpuItem) (it : MemItem) (d : Option Dump)
    (inside : (s : S) → (b : ℕ) → laws.memory.IsGood s b → in_item b it ≡ true)
    (shf_alloc sht_progbits : ℕ) where
  abbrev creating : Cosim S → ℕ → ℕ → Outcome (Cosim S × Bool)
  creating = fn_create cpu api laws is_output cs it d inside

  abbrev loading : Cosim S → ℕ → ℕ → Outcome (Cosim S × Bool)
  loading = fn_load cpu api laws is_output cs it d inside

  abbrev around : List S → Cosim S
  around = world cpu api laws is_output cs it d inside

  abbrev pub takes_room : Section → Bool
  takes_room x = not (bit_and x.sh_flags shf_alloc == 0) && ltb 0 x.sh_size

  -- The sections that are copied to the memory, and what they put at an address.
  abbrev pub is_copied : Section → Bool
  is_copied x = takes_room x && x.sh_type == sht_progbits

  abbrev pub byte_in : Section → ℕ → Option ℕ
  byte_in x b = window (is_copied x) x.sh_addr x.sh_size x.d_buf b

  -- The file's bytes fit: there is room for each section in memory, and data for each that is copied.
  pub record IsSound (x : Section) : Type 0 where
    pub room : takes_room x ≡ true → laws.IsRoom x.sh_addr x.sh_size
    pub copy : is_copied x ≡ true → x.sh_size ≤ length x.d_buf
    pub bytes : AreBytes x.d_buf
    pub fits : x.sh_addr + x.sh_size ≤ 2 ^ 32

  -- What a section leaves.
  record Loaded (x : Section) (s s' : S) : Type 0 where
    placed : (b v : ℕ) → byte_in x b ≡ some v → api.read s' b ≡ done v
    others : (b : ℕ) → laws.memory.IsGood s b → byte_in x b ≡ none → api.read s' b ≡ api.read s b
    keeps : (b : ℕ) → laws.memory.IsGood s b → laws.memory.IsGood s' b
    good : (b v : ℕ) → byte_in x b ≡ some v → laws.memory.IsGood s' b

  Loaded-uncopied :
      (x : Section) (s s' : S)
      → is_copied x ≡ false
      → ((b : ℕ) → laws.memory.IsGood s b → api.read s' b ≡ api.read s b)
      → ((b : ℕ) → laws.memory.IsGood s b → laws.memory.IsGood s' b)
      → Loaded x s s'
  Loaded-uncopied x s s' h same keeps = record {
    placed = λ b v k. absurd (none_there b v k);
    others = λ b g k. same b g;
    keeps = keeps;
    good = λ b v k. absurd (none_there b v k);
  }
    where
      none_there : (b v : ℕ) → byte_in x b ≡ some v → ⊥
      none_there b v k =
          let (c, lo, hi, r) = window-some (is_copied x) x.sh_addr x.sh_size x.d_buf b v k in cc

  back : (b lo : ℕ) → lo ≤ b → b ≡ lo + (b - lo)
  back b lo h = omega arith

  load_section-Loaded :
      (k : ℕ) (x : Section) (os : List S) (s : S)
      → get_elem? os it.mem ≡ some s
      → laws.IsReady (suc k) s
      → IsSound x
      → (os' : List S) × (s' : S) × (load_section creating loading shf_alloc sht_progbits x
            (around os)
          ≡ done (around os', true))
        × (get_elem? os' it.mem ≡ some s')
        × Loaded x s s'
        × laws.IsReady k s'
  load_section-Loaded k x os s e ready sound = elim (Bool-cases (takes_room x)) [
    | inr h ↦ (
      os,
      s,
      load_section-none creating loading shf_alloc sht_progbits x (around os) h,
      e,
      Loaded-uncopied x s s (rw h refl) (λ b g. refl) (λ b g. g),
      laws.fewer k s ready,
    )
    | inl h ↦
        let (s1, made, new, keeps, same, ready1) =
          laws.create k s x.sh_addr x.sh_size ready (sound.room h) in
        let os1 = set os it.mem s1 in
        let e1 = get_elem?-set_self os it.mem s1 e in
        let created = fn_create-one cpu api laws is_output cs it d inside os s s1 _ _ e made in
        elim (Bool-cases (x.sh_type == sht_progbits)) [
          | inr t ↦ (
            os1,
            s1,
            load_section-zero creating loading shf_alloc sht_progbits x (around os) (around os1) h
                created t,
            e1,
            Loaded-uncopied x s s1 (rw (h, t) refl) same keeps,
            ready1,
          )
          | inl t ↦
              let copied : is_copied x ≡ true = rw (h, t) refl in
              let (os2, s2, w2, e2, here, frame, keeps2, steady) =
                load_bytes-one cpu api laws is_output cs it d inside shf_alloc sht_progbits
                  x.sh_size 0 x os1 s1 e1 (omega (arith, sound.copy copied)) sound.bytes
                  (omega (arith, sound.fits))
                  (λ k p q. new (x.sh_addr + k) (omega arith) (omega arith)) in
              (
                os2,
                s2,
                load_section-copied creating loading shf_alloc sht_progbits x (around os)
                    (around os1) h created t w2,
                e2,
                record {
                  placed = λ b v k.
                      let (c, lo, hi, r) =
                        window-some (is_copied x) x.sh_addr x.sh_size x.d_buf b v k in
                      ap (api.read s2) (back b x.sh_addr lo)
                      ∙ here (b - x.sh_addr) v (omega arith) (omega arith) r;
                  others = λ b g k.
                      frame b (keeps b g) (λ j p q.
                        window-none x.sh_addr x.sh_size x.d_buf b j (rw copied at k)
                          (sound.copy copied) (omega arith))
                      ∙ same b g;
                  keeps = λ b g. keeps2 b (keeps b g);
                  good = λ b v k.
                      let (c, lo, hi, r) =
                        window-some (is_copied x) x.sh_addr x.sh_size x.d_buf b v k in
                      keeps2 b (new b lo hi);
                },
                steady k ready1,
              )
        ]
  ]

  -- The file's bytes at an address: those of the last section that has one there.
  abbrev pub image : List Section → ℕ → Option ℕ
  image [] b = none
  image (x ∷ xs) b = later (image xs b) (byte_in x b)

  abbrev pub AreSound : List Section → Type 0
  AreSound [] = Unit
  AreSound (x ∷ xs) = IsSound x × AreSound xs

  load_sections-Loaded :
      (xs : List Section) (os : List S) (s : S)
      → get_elem? os it.mem ≡ some s
      → laws.IsReady (length xs) s
      → AreSound xs
      → (os' : List S) × (s' : S) × (load_sections creating loading shf_alloc sht_progbits
            (map some xs)
            (around os)
          ≡ done (around os', true))
        × (get_elem? os' it.mem ≡ some s')
        × ((b v : ℕ) → image xs b ≡ some v → (api.read s' b ≡ done v) × laws.memory.IsGood s' b)
        × ((b : ℕ) → laws.memory.IsGood s b → image xs b ≡ none → api.read s' b ≡ api.read s b)
        × ((b : ℕ) → laws.memory.IsGood s b → laws.memory.IsGood s' b)
  unfolding load_sections
  load_sections-Loaded [] os s e ready h =
      (os, s, refl, e, λ b v k. absurd cc, λ b g k. refl, λ b g. g)
  load_sections-Loaded (x ∷ xs) os s e ready (h, hs) =
      let (os1, s1, w1, e1, l, ready1) = load_section-Loaded (length xs) x os s e ready h in
      let (os2, s2, w2, e2, placed, others, keeps) = load_sections-Loaded xs os1 s1 e1 ready1 hs in
      (
        os2,
        s2,
        >>=-done _ w1 w2,
        e2,
        λ b v k. elim (later-some (image xs b) (byte_in x b) v k) [
          | inl m ↦ placed b v m
          | inr (n, m) ↦ (others b (l.good b v m) n ∙ l.placed b v m, keeps b (l.good b v m))
        ],
        λ b g k.
            let (n, m) = later-none (image xs b) (byte_in x b) k in
            others b (l.keeps b g) n ∙ l.others b g m,
        λ b g. keeps b (l.keeps b g),
      )

  -- Sections whose bytes are there and for which the memory is ready and has room are loaded without fail: afterwards
  -- a read through cosim finds at each address the byte of the last section that is copied there, and any other
  -- good address reads as before.
  pub load_sections-image :
      (xs : List Section) (os : List S) (s : S)
      → get_elem? os it.mem ≡ some s
      → laws.IsReady (length xs) s
      → AreSound xs
      → (os' : List S) × (load_sections creating loading shf_alloc sht_progbits
            (map some xs)
            (around os)
          ≡ done (around os', true))
        × ((b v : ℕ) → image xs b ≡ some v → bus_read api (around os') b ≡ done v)
        × ((b : ℕ)
            → laws.memory.IsGood s b
            → image xs b ≡ none
            → bus_read api (around os') b ≡ bus_read api (around os) b)
  load_sections-image xs os s e ready h =
      let (os2, s2, w2, e2, placed, others, keeps) = load_sections-Loaded xs os s e ready h in
      (
        os2,
        w2,
        λ b v k.
            let (r, g) = placed b v k in
            bus_read-one api laws.memory cs it d os2 s2 b e2 (inside s2 b g) ∙ r,
        λ b g k.
            bus_read-one api laws.memory cs it d os2 s2 b e2 (inside s2 b (keeps b g))
            ∙ others b g k
            ∙ sym (bus_read-one api laws.memory cs it d os s b e (inside s b g)),
      )
