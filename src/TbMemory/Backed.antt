-- ===== src/TbMemory/Backed.antt =====
-- Regions whose arrays are there: an access in range returns, and a byte reads back.
use mathlib.Core.Path.{subst}
use riscv_v2f_optimized.Prelude.{
  ℕ, zero, suc, ◌-◌, ◌<◌, ◌≤◌, ◌^◌, Bool, true, false, ltb, List, [], ◌∷◌, length, length-set,
  Option, none, some, get_elem?, set, get_elem?-set_self, get_elem?-set_ne, ◌≡◌, ◌∙◌, refl, sym, ap,
  arith, Bool-cases, inl, inr, ◌==◌, ==_iff,
}
use riscv_v2f_optimized.Prelude.Outcome.{done, >>=-done}
use riscv_v2f_optimized.Word.{add32}
use riscv_v2f_optimized.TbMemory.{
  Arrays, TbRegion, TbMemory, region_matches, element, put, array_at, region_write, region_read,
  find_region, tb_valid_addr, tb_write, tb_read, recorded,
}

-- The region's array is in the store, with a byte for each address.
pub record IsBacked (st : Arrays) (r : TbRegion) : Type 0 where
  pub bytes : List ℕ
  pub there : get_elem? st r.array ≡ some bytes
  pub long : r.size ≤ length bytes
  pub base_bound : r.base < 2 ^ 32
  pub size_bound : r.size < 2 ^ 32

abbrev pub AreBacked : Arrays → List TbRegion → Type 0
AreBacked st [] = Unit {0}
AreBacked st (r ∷ rs) = IsBacked st r × AreBacked st rs

some-injective : {A : Type 0} → {a b : A} → some a ≡ some b → a ≡ b
some-injective e = cc

ltb-true : (i n : ℕ) → i < n → ltb i n ≡ true
ltb-true i n h = ground arith

array_at-some :
    (st : Arrays) (p : ℕ) (a : List ℕ) → get_elem? st p ≡ some a → array_at st p ≡ done a
array_at-some st p a h = rw (array_at, h) refl

element-some : (a : List ℕ) (i d : ℕ) → get_elem? a i ≡ some d → element a i ≡ done d
element-some a i d h = rw (element, h) refl

put-inside : (a : List ℕ) (i d : ℕ) → i < length a → put a i d ≡ done (set a i d)
put-inside a i d h = rw (put, ltb-true i (length a) h) refl

region_matches-bound :
    (r : TbRegion) (addr : ℕ)
    → r.base < 2 ^ 32
    → r.size < 2 ^ 32
    → region_matches r addr ≡ true
    → addr - r.base < r.size
unfolding region_matches add32
region_matches-bound r addr h k e = ground arith

get_elem?-some :
    {A : Type 0} → (xs : List A) (i : ℕ) → i < length xs → (x : A) × (get_elem? xs i ≡ some x)
get_elem?-some [] i h = absurd (omega arith)
get_elem?-some (x ∷ xs) zero h = (x, refl)
get_elem?-some (x ∷ xs) (suc i) h = get_elem?-some xs i (omega arith)

find_region-IsBacked :
    (st : Arrays) (rs : List TbRegion) (addr : ℕ) (r : TbRegion)
    → AreBacked st rs
    → find_region rs addr ≡ some r
    → IsBacked st r × (region_matches r addr ≡ true)
unfolding find_region
find_region-IsBacked st [] addr r h e = cc
find_region-IsBacked st (q ∷ rs) addr r (b, h) e = elim (Bool-cases (region_matches q addr)) [
  | inl m ↦
      subst (λ x. IsBacked st x × (region_matches x addr ≡ true)) (some-injective (rw m at e))
        (b, m)
  | inr m ↦ find_region-IsBacked st rs addr r h (rw m at e)
]

-- A write in a region, done, and what it leaves.
region_write-set :
    (st : Arrays) (r : TbRegion) (addr d : ℕ) (b : IsBacked st r)
    → region_matches r addr ≡ true
    → region_write st r addr d ≡ done (set st r.array (set b.bytes (addr - r.base) d))
unfolding region_write
region_write-set st r addr d b m =
    let inside = region_matches-bound r addr b.base_bound b.size_bound m in
    rw m (
      >>=-done _ (array_at-some st r.array b.bytes b.there)
        (>>=-done _ (put-inside b.bytes (addr - r.base) d (within inside b.long)) refl))
  where
    within : {i n k : ℕ} → i < n → n ≤ k → i < k
    within h l = omega arith

region_read-set :
    (st : Arrays) (r : TbRegion) (addr d : ℕ) (b : IsBacked st r)
    → region_matches r addr ≡ true
    → region_read (set st r.array (set b.bytes (addr - r.base) d)) r addr ≡ done d
unfolding region_read
region_read-set st r addr d b m =
    let inside = region_matches-bound r addr b.base_bound b.size_bound m in
    let found = get_elem?-some b.bytes (addr - r.base) (within inside b.long) in
    rw m (
      >>=-done _
        (array_at-some (set st r.array (set b.bytes (addr - r.base) d)) r.array _
          (get_elem?-set_self st r.array (set b.bytes (addr - r.base) d) b.there))
        (element-some (set b.bytes (addr - r.base) d) (addr - r.base) d
          (get_elem?-set_self b.bytes (addr - r.base) d found.1)))
  where
    within : {i n k : ℕ} → i < n → n ≤ k → i < k
    within h l = omega arith

-- Writing in one region keeps all of them backed.
IsBacked-set :
    (st : Arrays) (r : TbRegion) (p : ℕ) (old new : List ℕ)
    → get_elem? st p ≡ some old
    → length new ≡ length old
    → IsBacked st r
    → IsBacked (set st p new) r
IsBacked-set st r p old new h l b = elim (Bool-cases (p == r.array)) [
  | inl e ↦ record {
    bytes = new;
    there =
        ap (get_elem? (set st p new)) (sym ((==_iff p r.array).0 e))
        ∙ get_elem?-set_self st p new h;
    long =
        long (some-injective (sym b.there ∙ ap (get_elem? st) (sym ((==_iff p r.array).0 e)) ∙ h));
    base_bound = b.base_bound;
    size_bound = b.size_bound;
  }
  | inr e ↦ record {
    bytes = b.bytes;
    there = get_elem?-set_ne st p r.array new (ground arith) ∙ b.there;
    long = b.long;
    base_bound = b.base_bound;
    size_bound = b.size_bound;
  }
]
  where
    long : b.bytes ≡ old → r.size ≤ length new
    long e = rw (l, sym (ap length e)) b.long

pub AreBacked-set :
    (st : Arrays) (rs : List TbRegion) (p : ℕ) (old new : List ℕ)
    → get_elem? st p ≡ some old
    → length new ≡ length old
    → AreBacked st rs
    → AreBacked (set st p new) rs
AreBacked-set st [] p old new h l b = tt
AreBacked-set st (r ∷ rs) p old new h l (b, bs) =
    (IsBacked-set st r p old new h l b, AreBacked-set st rs p old new h l bs)

tb_read-found :
    (st : Arrays) (n : TbMemory) (addr d : ℕ) (r : TbRegion)
    → find_region n.slots addr ≡ some r
    → region_read st r addr ≡ done d
    → tb_read st n addr ≡ done (recorded n false addr d, d)
unfolding tb_read
tb_read-found st n addr d r e h = rw (tb_read, e) (>>=-done _ h refl)

-- A byte written to an address that one of the regions holds reads back, through any memory with
-- the same regions.
pub tb_write-tb_read :
    (st : Arrays) (m n : TbMemory) (addr d : ℕ)
    → AreBacked st m.slots
    → n.slots ≡ m.slots
    → tb_valid_addr m addr ≡ true
    → (st' : Arrays) × (tb_write st m addr d ≡ done (st', recorded m true addr d))
      × (tb_read st' n addr ≡ done (recorded n false addr d, d))
      × AreBacked st' m.slots
unfolding tb_write tb_valid_addr
tb_write-tb_read st m n addr d h same v = over (find_region m.slots addr) refl v
  where
    over :
        (f : Option TbRegion)
        → find_region m.slots addr ≡ f
        → elim f as (λ _. Bool) [ none ↦ false | some r ↦ true ] ≡ true
        → (st' : Arrays) × (tb_write st m addr d ≡ done (st', recorded m true addr d))
          × (tb_read st' n addr ≡ done (recorded n false addr d, d))
          × AreBacked st' m.slots
    over none e v = cc
    over (some r) e v =
        let (b, hit) = find_region-IsBacked st m.slots addr r h e in
        let new = set b.bytes (addr - r.base) d in
        (
          set st r.array new,
          rw (tb_write, e) (>>=-done _ (region_write-set st r addr d b hit) refl),
          tb_read-found _ n addr d r (ap (λ s. find_region s addr) same ∙ e)
              (region_read-set st r addr d b hit),
          AreBacked-set st m.slots r.array b.bytes new b.there
              (length-set b.bytes (addr - r.base) d) h,
        )
