-- ===== src/Testbench.antt =====
-- top_cache_axi/tb/testbench.h: the calls of the testbench that reach its two memories, which the
-- instruction cache and the data cache of the processor read and write. Each region of one memory
-- has its array in common with the other.
pub mod Coherence
use riscv_v2f_optimized.Prelude.{
  ℕ, zero, suc, ◌+◌, ◌-◌, ◌*◌, ◌/◌, ◌^◌, Bool, true, false, if◌then◌else◌, List, [], ◌∷◌, length,
  Option, none, some, set,
}
use riscv_v2f_optimized.Prelude.Outcome.{Outcome, done, undefined, ◌>>=◌}
use riscv_v2f_optimized.Word.{add32, sub32}
use riscv_v2f_optimized.TbMemory.{
  Arrays, TbMemory, add_region, tb_valid_addr, tb_write, tb_read, get_array, array_at,
}

-- The arrays, and m_icache_mem and m_dcache_mem.
pub record Testbench : Type 0 where
  pub arrays : Arrays
  pub icache_mem : TbMemory
  pub dcache_mem : TbMemory
  pub cycles : ℕ

-- `while (valid_addr(base)) base += 1;`. A loop that never ends and does nothing else is undefined;
-- with 2 ^ 32 rounds every address was tried.
unfoldable pub free_base : ℕ → TbMemory → ℕ → Outcome ℕ
unfolding tb_valid_addr add32
free_base zero m base = undefined
free_base (suc rounds) m base = elim (tb_valid_addr m base) [
  | false ↦ done base
  | true ↦ free_base rounds m (add32 base 1)
]

-- `while (valid_addr(base + size - 1)) size -= 1;`
unfoldable pub free_size : ℕ → TbMemory → ℕ → ℕ → Outcome ℕ
unfolding tb_valid_addr add32 sub32
free_size zero m base size = undefined
free_size (suc rounds) m base size = elim (tb_valid_addr m (sub32 (add32 base size) 1)) [
  | false ↦ done size
  | true ↦ free_size rounds m base (sub32 size 1)
]

-- `x & ~(32-1)`
abbrev pub lines_of : ℕ → ℕ
lines_of x = x / 32 * 32

-- memset(p, 0, size)
unfoldable pub clear : ℕ → List ℕ → Outcome (List ℕ)
clear zero a = done a
clear (suc n) [] = undefined
clear (suc n) (x ∷ xs) = do rest ← clear n xs; done (0 ∷ rest)

-- `alloc size` is what `new uint8_t[size]` hands out. It returns true.
unfoldable pub tb_create_memory : (ℕ → List ℕ) → Testbench → ℕ → ℕ → Outcome Testbench
unfolding free_base free_size add_region get_array add32 clear
tb_create_memory alloc t base0 size0 = do
  base ← free_base (2 ^ 32) t.icache_mem (lines_of base0)
  size ← free_size (2 ^ 32) t.icache_mem base (lines_of (add32 size0 31))
  let (st, icache, ok) = add_region (alloc size) t.arrays t.icache_mem none base size
  p ← get_array icache base
  let (st2, dcache, ok2) = add_region [] st t.dcache_mem (some p) base size
  q ← get_array icache base
  a ← array_at st2 q
  a' ← clear size a
  done (record t { arrays = set st2 q a'; icache_mem = icache; dcache_mem = dcache })

-- testbench::write and read
unfoldable pub byte_write : Testbench → ℕ → ℕ → Outcome Testbench
byte_write t addr d = do
  (st, m) ← tb_write t.arrays t.dcache_mem addr d
  done (record t { arrays = st; dcache_mem = m })

unfoldable pub byte_read : Testbench → ℕ → Outcome (Testbench × ℕ)
byte_read t addr = do
  (m, d) ← tb_read t.arrays t.dcache_mem addr
  done (record t { dcache_mem = m }, d)
