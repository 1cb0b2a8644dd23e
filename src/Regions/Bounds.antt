-- ===== src/Regions/Bounds.antt =====
-- Which addresses a region holds.
use riscv_v2f_optimized.Prelude.{
  ℕ, ◌+◌, ◌^◌, ◌<◌, Bool, true, false, ◌&&◌, ltb, leb, ◌≡◌, List, [], ◌∷◌, Option, none, some,
  arith, Bool-cases, inl, inr, refl,
}
use riscv_v2f_optimized.Prelude.Outcome.{
  Outcome, done, exited, aborted, undefined, Ensures, Ensures-bind,
}
use riscv_v2f_optimized.Word.{add32}
use riscv_v2f_optimized.Machine.{Region, Riscv}
use riscv_v2f_optimized.Memory.{load_memory}
use riscv_v2f_optimized.Regions.{in_region, load_regions, valid_addr, valid_addr_loop}

-- A region that ends below 2 ^ 32 holds its addresses; one that reaches 2 ^ 32 holds none, since
-- the sum of its base and its size wraps.
pub in_region_lem :
    (a : ℕ) (r : Region)
    → r.base < 2 ^ 32
    → r.size < 2 ^ 32
    → in_region a r ≡ (ltb (r.base + r.size) (2 ^ 32) && (leb r.base a && ltb a (r.base + r.size)))
unfolding in_region add32
in_region_lem a r hb hs = elim (Bool-cases (ltb (r.base + r.size) (2 ^ 32))) [
  | inl e ↦ ground arith
  | inr e ↦ ground arith
]

abbrev pub is_some : Option ℕ → Bool
is_some none = false
is_some (some v) = true

always : (m : Outcome ℕ) → Ensures (λ _. Unit {0}) m
always (done x) = tt
always (exited c) = tt
always aborted = tt
always undefined = tt

load_regions-valid_addr_loop :
    (rs : List Region) (a width : ℕ) (s : Bool)
    → Ensures (λ found. is_some found ≡ valid_addr_loop rs a) (load_regions rs a width s)
unfolding load_regions valid_addr_loop
load_regions-valid_addr_loop [] a width s = refl
load_regions-valid_addr_loop (r ∷ rs) a width s = elim (Bool-cases (in_region a r)) [
  | inl e ↦
      rw e (Ensures-bind (λ _. Unit {0}) _ (load_memory r.mem _ width s) _ (always _) λ v _. refl)
  | inr e ↦ rw e (load_regions-valid_addr_loop rs a width s)
]

-- An access that returns has found a region exactly where valid_addr says that there is one.
load_regions-valid_addr :
    (cpu : Riscv) (a width : ℕ) (s : Bool)
    → Ensures (λ found. is_some found ≡ valid_addr cpu a) (load_regions cpu.regions a width s)
unfolding valid_addr
load_regions-valid_addr cpu a width s = load_regions-valid_addr_loop cpu.regions a width s
