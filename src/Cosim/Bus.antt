-- ===== src/Cosim/Bus.antt =====
-- cosim_api.cpp: the accesses of class cosim to the attached memories, and at_exit.
use riscv_v2f_optimized.Prelude.{
  ℕ, zero, suc, ◌+◌, ◌*◌, ◌%◌, ◌^◌, Bool, true, false, ◌&&◌, ltb, leb, if◌then◌else◌, List, [], ◌∷◌,
  Option, set, bit_or,
}
use riscv_v2f_optimized.Prelude.Outcome.{Outcome, done, ◌>>=◌}
use riscv_v2f_optimized.Word.{add32, shl32, shr32}
use riscv_v2f_optimized.Cosim.Api.{MemApi}
use riscv_v2f_optimized.Cosim.{Cosim, MemItem, deref}

-- `addr >= it->base && addr < (it->base + it->size)`, a sum of uint32_t.
unfoldable pub in_item : ℕ → MemItem → Bool
unfolding add32
in_item addr it = leb it.base addr && ltb addr (add32 it.base it.size)

unfoldable pub find_item : List MemItem → ℕ → Bool
unfolding in_item
find_item [] addr = false
find_item (it ∷ its) addr = if in_item addr it then true else find_item its addr

module _ {S : Type 0} (api : MemApi S) where
  unfoldable pub create_each :
      ℕ → ℕ → Option (List ℕ) → List MemItem → List S → Outcome (List S × Bool)
  create_each addr size mem [] os = done (os, true)
  create_each addr size mem (it ∷ its) os = do
    s ← deref os it.mem
    (s', ok) ← api.create_memory s addr size mem
    (os', rest) ← create_each addr size mem its (set os it.mem s')
    done (os', ok && rest)

  unfoldable pub create_memories : Cosim S → ℕ → ℕ → Option (List ℕ) → Outcome (Cosim S × Bool)
  unfolding create_each
  create_memories w addr size mem = do
    (os, ok) ← create_each addr size mem w.m_mem w.objects
    done (record w { objects = os }, ok)

  unfoldable pub bus_valid_addr : Cosim S → ℕ → Bool
  unfolding find_item
  bus_valid_addr w addr = find_item w.m_mem addr

  -- A byte goes to every memory that holds the address.
  unfoldable pub write_each : List MemItem → ℕ → ℕ → List S → Outcome (List S)
  unfolding in_item
  write_each [] addr d os = done os
  write_each (it ∷ its) addr d os =
      if in_item addr it
      then (do
        s ← deref os it.mem
        s' ← api.write s addr d
        write_each its addr d (set os it.mem s'))
      else write_each its addr d os

  unfoldable pub bus_write : Cosim S → ℕ → ℕ → Outcome (Cosim S)
  unfolding write_each
  bus_write w addr d = do os ← write_each w.m_mem addr d w.objects; done (record w { objects = os })

  -- A byte comes from the first memory that holds the address.
  unfoldable pub read_first : List MemItem → ℕ → List S → Outcome ℕ
  unfolding in_item
  read_first [] addr os = done 0
  read_first (it ∷ its) addr os =
      if in_item addr it then (do s ← deref os it.mem; api.read s addr) else read_first its addr os

  unfoldable pub bus_read : Cosim S → ℕ → Outcome ℕ
  unfolding read_first
  bus_read w addr = read_first w.m_mem addr w.objects

  -- `for (i=0;i<4;i++) write(addr + i, data >> (i*8));` from `i` on; the byte is cut to a uint8_t.
  unfoldable pub write_bytes : ℕ → ℕ → ℕ → ℕ → Cosim S → Outcome (Cosim S)
  unfolding add32 shr32
  write_bytes zero i addr d w = done w
  write_bytes (suc left) i addr d w = do
    w' ← bus_write w (add32 addr i) (shr32 d (i * 8) % 2 ^ 8)
    write_bytes left (i + 1) addr d w'

  unfoldable pub write_word : Cosim S → ℕ → ℕ → Outcome (Cosim S)
  unfolding write_bytes
  write_word w addr d = write_bytes 4 0 addr d w

  -- `for (i=0;i<4;i++) data |= ((uint32_t)read(addr + i)) << (i*8);`
  unfoldable pub read_bytes : ℕ → ℕ → ℕ → ℕ → Cosim S → Outcome ℕ
  unfolding add32 shl32
  read_bytes zero i addr d w = done d
  read_bytes (suc left) i addr d w = do
    b ← bus_read w (add32 addr i)
    read_bytes left (i + 1) addr (bit_or d (shl32 b (i * 8))) w

  unfoldable pub read_word : Cosim S → ℕ → Outcome ℕ
  unfolding read_bytes
  read_word w addr = read_bytes 4 0 addr 0 w
