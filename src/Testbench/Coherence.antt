-- ===== src/Testbench/Coherence.antt =====
-- The testbench's two memories keep the same regions over the same arrays, so that the instruction
-- cache fetches what was written for the data cache.
use mathlib.Core.Path.{subst}
use riscv_v2f_optimized.Prelude.{
  ℕ, zero, suc, ◌^◌, Bool, true, false, if◌then◌else◌, List, [], ◌∷◌, ◌++◌, length, none, some, ◌≡◌,
  ◌∙◌, refl, sym, ap, Bool-cases, inl, inr,
}
use riscv_v2f_optimized.Prelude.Outcome.{
  Outcome, done, aborted, Ensures, Ensures-step, >>=-done, done-injective,
}
use riscv_v2f_optimized.Word.{add32, sub32}
use riscv_v2f_optimized.TbMemory.{
  Arrays, TbRegion, TbMemory, tb_mem_max_regions, region_matches, array_at, find_region, finds_slot,
  add_region, get_array, tb_valid_addr, tb_read, recorded,
}
use riscv_v2f_optimized.TbMemory.Backed.{AreBacked, tb_write-tb_read}
use riscv_v2f_optimized.Testbench.{
  Testbench, free_base, free_size, lines_of, clear, tb_create_memory, byte_write,
}

-- A new region is the one that holds its base, unless it holds no address.
find_region-added :
    (left : ℕ) (rs : List TbRegion) (r : TbRegion) (base size : ℕ)
    → finds_slot left rs base size ≡ true
    → find_region (rs ++ r ∷ []) base ≡ (if region_matches r base then some r else none)
unfolding finds_slot find_region
find_region-added zero rs r base size e = cc
find_region-added (suc left) [] r base size e = refl
find_region-added (suc left) (q ∷ rs) r base size e = elim (Bool-cases (region_matches q base)) [
  | inl m ↦ absurd (overlaps (region_matches q (sub32 (add32 base size) 1)) (rw m at e))
  | inr m ↦ rw m (elim (Bool-cases (region_matches q (sub32 (add32 base size) 1))) [
    | inl k ↦ absurd (overlaps true (rw (m, k) at e))
    | inr k ↦ find_region-added left rs r base size (rw (m, k) at e)
  ])
]
  where
    overlaps : (b : Bool) → false ≡ true → ⊥
    overlaps b h = cc

-- The array that get_array finds for a new region is the new one.
get_array-added :
    (fresh : List ℕ) (st : Arrays) (m : TbMemory) (base size p : ℕ)
    → finds_slot tb_mem_max_regions m.slots base size ≡ true
    → get_array (add_region fresh st m none base size).1 base ≡ done p
    → length st ≡ p
unfolding get_array add_region
get_array-added fresh st m base size p e h = only (region_matches r base) (
    ap (λ f. elim f as (λ _. Outcome ℕ) [ none ↦ aborted | some q ↦ done q.array ])
      (sym (find_region-added tb_mem_max_regions m.slots r base size e))
    ∙ (rw e at h))
  where
    r : TbRegion
    r = record { base = base; size = size; array = length st; traced = false }

    only :
        (b : Bool)
        → elim (if b then some r else none) as (λ _. Outcome ℕ) [
          | none ↦ aborted
          | some q ↦ done q.array
        ]
          ≡ done p
        → length st ≡ p
    only true h = done-injective h
    only false h = cc

add_region-same :
    (fresh : List ℕ) (st st2 : Arrays) (m n : TbMemory) (base size p : ℕ)
    → m.slots ≡ n.slots
    → get_array (add_region fresh st m none base size).1 base ≡ done p
    → (add_region fresh st m none base size).1.slots
      ≡ (add_region [] st2 n (some p) base size).1.slots
unfolding add_region
add_region-same fresh st st2 m n base size p h g =
    elim (Bool-cases (finds_slot tb_mem_max_regions m.slots base size)) [
      | inl e ↦
          rw (e, ap (λ s. finds_slot tb_mem_max_regions s base size) (sym h) ∙ e)
            (ap
                (λ s.
                  s ++ record { base = base; size = size; array = length st; traced = false } ∷ [])
                h
              ∙ ap
                  (λ a.
                    n.slots ++ record { base = base; size = size; array = a; traced = false } ∷ [])
                  (get_array-added fresh st m base size p e g))
      | inr e ↦ rw (e, ap (λ s. finds_slot tb_mem_max_regions s base size) (sym h) ∙ e) h
    ]

-- Both memories have the same regions.
abbrev pub SameSlots : Testbench → Type 0
SameSlots t = t.icache_mem.slots ≡ t.dcache_mem.slots

-- Creating a memory, if it returns, keeps the regions of both memories the same.
pub tb_create_memory-SameSlots :
    (alloc : ℕ → List ℕ) (t : Testbench) (base size : ℕ)
    → SameSlots t
    → Ensures SameSlots (tb_create_memory alloc t base size)
unfolding tb_create_memory
tb_create_memory-SameSlots alloc t base0 size0 h =
    Ensures-step _ (free_base (2 ^ 32) t.icache_mem (lines_of base0)) _ λ base h1.
      Ensures-step _ (free_size (2 ^ 32) t.icache_mem base (lines_of (add32 size0 31))) _ λ size h2.
        let one = add_region (alloc size) t.arrays t.icache_mem none base size in
        Ensures-step _ (get_array one.1 base) _ λ p hp.
          let two = add_region [] one.0 t.dcache_mem (some p) base size in
          Ensures-step _ (get_array one.1 base) _ λ q hq.
            Ensures-step _ (array_at two.0 q) _ λ a ha. Ensures-step _ (clear size a) _ λ a' hc.
              add_region-same (alloc size) t.arrays one.0 t.icache_mem t.dcache_mem base size p h hp

recorded-slots : (m : TbMemory) (w : Bool) (addr d : ℕ) → (recorded m w addr d).slots ≡ m.slots
recorded-slots m w addr d = elim (Bool-cases m.record_accesses) [
  | inl e ↦ rw e refl
  | inr e ↦ rw e refl
]

-- With the same regions on both sides, and their arrays there, a byte that the testbench writes to an
-- address in range is what the instruction side reads there. Neither access ends the simulation, and
-- the regions stay the same and their arrays there.
pub byte_write-tb_read :
    (t : Testbench) (addr d : ℕ)
    → SameSlots t
    → AreBacked t.arrays t.dcache_mem.slots
    → tb_valid_addr t.dcache_mem addr ≡ true
    → (t' : Testbench) × (byte_write t addr d ≡ done t')
      × ((m : TbMemory) × (tb_read t'.arrays t'.icache_mem addr ≡ done (m, d)))
      × SameSlots t'
      × AreBacked t'.arrays t'.dcache_mem.slots
unfolding byte_write
byte_write-tb_read t addr d h b v =
    let (st, hw, hr, bs) = tb_write-tb_read t.arrays t.dcache_mem t.icache_mem addr d b h v in
    let same = recorded-slots t.dcache_mem true addr d in
    (_, >>=-done _ hw refl, (_, hr), h ∙ sym same, subst (AreBacked st) (sym same) bs)
