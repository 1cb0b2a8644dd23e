-- ===== src/ElfLoad/Bytes.antt =====
-- The bytes of a section, loaded into a memory that keeps its promises.
use riscv_v2f_optimized.Prelude.{
  ℕ, zero, suc, ◌+◌, ◌-◌, ◌^◌, ◌<◌, ◌≤◌, Bool, true, false, ◌&&◌, ◌==◌, ==_iff, leb, ltb, List, [],
  ◌∷◌, length, Option, none, some, get_elem?, set, if◌then◌else◌, ◌≡◌, ◌≢◌, inl, inr, ◌∙◌, refl, ap,
  sym, arith, get_elem?-set_self, Bool-cases,
}
use riscv_v2f_optimized.Prelude.Outcome.{Outcome, done, >>=-done}
use riscv_v2f_optimized.Word.{add32}
use riscv_v2f_optimized.Cosim.Api.{CpuApi, MemApi}
use riscv_v2f_optimized.Cosim.{Cosim, CpuItem, MemItem, Dump, or_undefined}
use riscv_v2f_optimized.Cosim.Bus.{in_item, create_each, create_memories, bus_valid_addr, find_item}
use riscv_v2f_optimized.Cosim.Words.{MemLaws, with_objects, bus_write-one}
use Prim.Native.String.{String}
use riscv_v2f_optimized.Driver.{mem_create, mem_load}
use riscv_v2f_optimized.Driver.Simulator.{all_cpus}
use riscv_v2f_optimized.ElfLoad.{Section, non_null, load_bytes}

-- What a memory promises of create_memory as well: while it is ready for one more and where there is
-- room it succeeds, the new addresses are good, and the good ones stay so and keep their bytes.
pub record LoaderLaws {S : Type 0} (api : MemApi S) : Type 1 where
  pub memory : MemLaws api
  pub IsRoom : ℕ → ℕ → Type 0
  pub IsReady : ℕ → S → Type 0
  pub fewer : (k : ℕ) (s : S) → IsReady (suc k) s → IsReady k s
  pub create :
      (k : ℕ) (s : S) (a n : ℕ)
      → IsReady (suc k) s
      → IsRoom a n
      → (s' : S) × (api.create_memory s a n none ≡ done (s', true))
        × ((b : ℕ) → a ≤ b → b < a + n → memory.IsGood s' b)
        × ((b : ℕ) → memory.IsGood s b → memory.IsGood s' b)
        × ((b : ℕ) → memory.IsGood s b → api.read s' b ≡ api.read s b)
        × IsReady k s'
  pub steady :
      (k : ℕ) (s s' : S) (a d : ℕ)
      → d < 2 ^ 8
      → memory.IsGood s a
      → api.write s a d ≡ done s'
      → IsReady k s
      → IsReady k s'

abbrev pub AreBytes : List ℕ → Type 0
AreBytes [] = Unit
AreBytes (x ∷ xs) = (x < 2 ^ 8) × AreBytes xs

get_elem?-AreBytes : (xs : List ℕ) (i x : ℕ) → AreBytes xs → get_elem? xs i ≡ some x → x < 2 ^ 8
get_elem?-AreBytes [] i x h e = cc
get_elem?-AreBytes (y ∷ ys) zero x (h, hs) e = ground arith
get_elem?-AreBytes (y ∷ ys) (suc i) x (h, hs) e = get_elem?-AreBytes ys i x hs e

same_value :
    (xs : List ℕ) (i k v u : ℕ) → i ≡ k → get_elem? xs i ≡ some v → get_elem? xs k ≡ some u → v ≡ u
same_value xs i k v u e h l = cc

pub there : (xs : List ℕ) (i : ℕ) → i < length xs → (x : ℕ) × (get_elem? xs i ≡ some x)
there [] i h = absurd (omega arith)
there (x ∷ xs) zero h = (x, refl)
there (x ∷ xs) (suc i) h = there xs i (omega arith)

-- What a list puts at the addresses from `lo` on.
abbrev pub window : Bool → ℕ → ℕ → List ℕ → ℕ → Option ℕ
window c lo n l b = if c && leb lo b && ltb b (lo + n) then get_elem? l (b - lo) else none

pub window-some :
    (c : Bool) (lo n : ℕ) (l : List ℕ) (b v : ℕ)
    → window c lo n l b ≡ some v
    → (c ≡ true) × (lo ≤ b) × (b < lo + n) × (get_elem? l (b - lo) ≡ some v)
window-some false lo n l b v h = cc
window-some true lo n l b v h = elim (Bool-cases (leb lo b && ltb b (lo + n))) [
  | inl e ↦ (refl, ground arith, ground arith, rw e at h)
  | inr e ↦ let k : none ≡ some v = rw e at h in absurd cc
]

pub window-none :
    (lo n : ℕ) (l : List ℕ) (b k : ℕ)
    → window true lo n l b ≡ none
    → n ≤ length l
    → k < n
    → b ≢ lo + k
window-none lo n l b k h long small e =
    let (v, at_k) = there l (b - lo) (omega arith) in
    let here : (leb lo b && ltb b (lo + n)) ≡ true = ground arith in
    let gone : get_elem? l (b - lo) ≡ none = rw here at h in absurd cc

module _ {S : Type 0} (cpu : CpuApi S) (api : MemApi S) (laws : LoaderLaws api)
    (is_output : String → Bool) (cs : List CpuItem) (it : MemItem) (d : Option Dump)
    (inside : (s : S) → (b : ℕ) → laws.memory.IsGood s b → in_item b it ≡ true) where
  -- The callbacks that riscv_main gives the loader, in a testbench.
  abbrev pub fn_create : Cosim S → ℕ → ℕ → Outcome (Cosim S × Bool)
  fn_create = mem_create (all_cpus cpu api is_output)

  abbrev pub fn_load : Cosim S → ℕ → ℕ → Outcome (Cosim S × Bool)
  fn_load = mem_load (all_cpus cpu api is_output)

  -- The world with the one memory.
  abbrev pub world : List S → Cosim S
  world os = with_objects api laws.memory cs it d os

  fn_load-one :
      (os : List S) (s s' : S) (a b : ℕ)
      → get_elem? os it.mem ≡ some s
      → laws.memory.IsGood s a
      → api.write s a b ≡ done s'
      → fn_load (world os) a b ≡ done (world (set os it.mem s'), true)
  unfolding mem_load bus_valid_addr find_item
  fn_load-one os s s' a b e g w =
      >>=-done _ (bus_write-one api laws.memory cs it d os s s' a b e (inside s a g) w)
        (rw (inside s a g) refl)

  pub fn_create-one :
      (os : List S) (s s' : S) (a n : ℕ)
      → get_elem? os it.mem ≡ some s
      → api.create_memory s a n none ≡ done (s', true)
      → fn_create (world os) a n ≡ done (world (set os it.mem s'), true)
  unfolding mem_create create_memories create_each
  fn_create-one os s s' a n e c =
      >>=-done _ (>>=-done _ (ap or_undefined e) (>>=-done _ c refl)) refl

  -- The bytes of a section from `i` on.
  pub load_bytes-one :
      (shf_alloc sht_progbits left i : ℕ) (x : Section) (os : List S) (s : S)
      → get_elem? os it.mem ≡ some s
      → i + left ≤ length x.d_buf
      → AreBytes x.d_buf
      → x.sh_addr + i + left ≤ 2 ^ 32
      → ((k : ℕ) → i ≤ k → k < i + left → laws.memory.IsGood s (x.sh_addr + k))
      → (os' : List S) × (s' : S) × (load_bytes fn_create fn_load shf_alloc sht_progbits left i x
            (world os)
          ≡ done (world os', true))
        × (get_elem? os' it.mem ≡ some s')
        × ((k v : ℕ)
            → i ≤ k
            → k < i + left
            → get_elem? x.d_buf k ≡ some v
            → api.read s' (x.sh_addr + k) ≡ done v)
        × ((b : ℕ)
            → laws.memory.IsGood s b
            → ((k : ℕ) → i ≤ k → k < i + left → b ≢ x.sh_addr + k)
            → api.read s' b ≡ api.read s b)
        × ((b : ℕ) → laws.memory.IsGood s b → laws.memory.IsGood s' b)
        × ((k : ℕ) → laws.IsReady k s → laws.IsReady k s')
  unfolding load_bytes
  load_bytes-one shf_alloc sht_progbits zero i x os s e long bytes fits good =
      (os, s, refl, e, λ k v p q. absurd (omega arith), λ b g n. refl, λ b g. g, λ k r. r)
  load_bytes-one shf_alloc sht_progbits (suc left) i x os s e long bytes fits good =
      let (v, at_i) = there x.d_buf i (omega arith) in
      let (s1, w1, r1, others, keeps) =
        laws.memory.store s (x.sh_addr + i) v (get_elem?-AreBytes x.d_buf i v bytes at_i)
          (good i (omega arith) (omega arith)) in
      let os1 = set os it.mem s1 in
      let (os2, s2, w2, e2, here, frame, keeps2, steady2) =
        load_bytes-one shf_alloc sht_progbits left (i + 1) x os1 s1
          (get_elem?-set_self os it.mem s1 e) (omega arith) bytes (omega arith)
          (λ k p q. keeps (x.sh_addr + k) (good k (omega arith) (omega arith))) in
      (
        os2,
        s2,
        >>=-done _ (ap non_null at_i) (
            >>=-done _
              (ap (λ a. fn_load (world os) a v) (unfold add32 in omega arith)
                ∙ fn_load-one os s s1 (x.sh_addr + i) v e (good i (omega arith) (omega arith)) w1)
              w2),
        e2,
        λ k u p q h. elim (Bool-cases (i == k)) [
          | inl m ↦
              ap (λ t. api.read s2 (x.sh_addr + t)) (sym ((==_iff i k).0 m))
              ∙ frame (x.sh_addr + i) (keeps _ (good i (omega arith) (omega arith)))
                  (λ j y z w. omega arith)
              ∙ r1
              ∙ ap done (same_value x.d_buf i k v u ((==_iff i k).0 m) at_i h)
          | inr m ↦ here k u (ground arith) (omega arith) h
        ],
        λ b g n.
            frame b (keeps b g) (λ k p q. n k (omega arith) (omega arith))
            ∙ others b g (λ z. n i (omega arith) (omega arith) (sym z)),
        λ b g. keeps2 b (keeps b g),
        λ k r. steady2 k (
            laws.steady k s s1 (x.sh_addr + i) v (get_elem?-AreBytes x.d_buf i v bytes at_i)
              (good i (omega arith) (omega arith)) w1 r),
      )
