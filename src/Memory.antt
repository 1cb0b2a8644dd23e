-- ===== src/Memory.antt =====
-- isa_sim/memory.h: SimpleMemory, a little-endian memory kept as an array of 32-bit words.
-- A failed assert is `aborted`; an access behind the end of the array is `undefined`.
pub mod Lanes
pub mod Bytes
pub mod Access
use riscv_v2f_optimized.Prelude.{
  ℕ, ◌-◌, ◌*◌, ◌/◌, ◌^◌, bit_and, bit_or, Bool, true, false, not, ltb, ◌==◌, List, length, get_or,
  set, if◌then◌else◌,
}
use riscv_v2f_optimized.Prelude.Outcome.{Outcome, done, aborted, undefined, ◌>>=◌, ◌>>◌}
use riscv_v2f_optimized.Word.{shl32, shr32, nonzero}

pub record SimpleMemory : Type 0 where
  pub words : List ℕ
  pub size : ℕ

abbrev pub assert : Bool → Outcome (Unit {0})
assert true = done tt
assert false = aborted

-- Mem[index], and its update.
unfoldable pub word_at : SimpleMemory → ℕ → Outcome ℕ
word_at m index = if ltb index (length m.words) then done (get_or m.words index 0) else undefined

unfoldable pub set_word : SimpleMemory → ℕ → ℕ → Outcome SimpleMemory
set_word m index w =
    if ltb index (length m.words)
    then done (record m { words = set m.words index w })
    else undefined

-- memset(Mem, 0, Size): when the size is no multiple of four, the last word keeps the bytes
-- behind it.
unfoldable pub clear_words : List ℕ → ℕ → List ℕ
clear_words List.[] size = List.[]
clear_words (List.◌∷◌ w ws) size =
    let rest = clear_words ws (size - 4) in
    List.◌∷◌ (if ltb size 4 then w / 2 ^ (8 * size) * 2 ^ (8 * size) else 0) rest

unfoldable pub reset_memory : SimpleMemory → SimpleMemory
reset_memory m = record m { words = clear_words m.words m.size }

-- The cases of `switch (address & 3)` in load and in store.
unfoldable pub load_lane : ℕ → ℕ → ℕ
unfolding shr32
load_lane w lane =
    if lane == 3
    then bit_and (shr32 w 24) 0xFF
    else if lane == 2
    then bit_and (shr32 w 16) 0xFF
    else if lane == 1
    then bit_and (shr32 w 8) 0xFF
    else bit_and (shr32 w 0) 0xFF

unfoldable pub store_lane : ℕ → ℕ → ℕ → ℕ
unfolding shl32
store_lane w lane d =
    if lane == 3
    then bit_or (bit_and w 0x00FF_FFFF) (bit_and (shl32 d 24) 0xFF00_0000)
    else if lane == 2
    then bit_or (bit_and w 0xFF00_FFFF) (bit_and (shl32 d 16) 0x00FF_0000)
    else if lane == 1
    then bit_or (bit_and w 0xFFFF_00FF) (bit_and (shl32 d 8) 0x0000_FF00)
    else bit_or (bit_and w 0xFFFF_FF00) (bit_and (shl32 d 0) 0x0000_00FF)

-- The two cases of `if (address & 2)`.
unfoldable pub load_half : ℕ → ℕ → ℕ
unfolding shr32
load_half w address =
    if nonzero (bit_and address 2) then bit_and (shr32 w 16) 0xFFFF else bit_and (shr32 w 0) 0xFFFF

unfoldable pub store_half : ℕ → ℕ → ℕ → ℕ
unfolding shl32
store_half w address d =
    if nonzero (bit_and address 2)
    then bit_or (bit_and w 0x0000_FFFF) (bit_and (shl32 d 16) 0xFFFF_0000)
    else bit_or (bit_and w 0xFFFF_0000) (bit_and (shl32 d 0) 0x0000_FFFF)

unfoldable pub sign_half : Bool → ℕ → ℕ
sign_half signed_load d =
    if signed_load then (if nonzero (bit_and d 0x8000) then bit_or d 0xFFFF_0000 else d) else d

unfoldable pub sign_byte : Bool → ℕ → ℕ
sign_byte signed_load d =
    if signed_load then (if nonzero (bit_and d 0x80) then bit_or d 0xFFFF_FF00 else d) else d

unfoldable pub load_memory : SimpleMemory → ℕ → ℕ → Bool → Outcome ℕ
load_memory m address width signed_load =
    if width == 4
    then (do assert (not (nonzero (bit_and address 3))); word_at m (address / 4))
    else if width == 2
    then (do
      assert (not (nonzero (bit_and address 1)))
      w ← word_at m (address / 4)
      done (sign_half signed_load (load_half w address)))
    else if width == 1
    then (do
      w ← word_at m (address / 4)
      done (sign_byte signed_load (load_lane w (bit_and address 3))))
    else done 0

unfoldable pub store_memory : SimpleMemory → ℕ → ℕ → ℕ → Outcome SimpleMemory
store_memory m address d width =
    if width == 4
    then (do assert (not (nonzero (bit_and address 3))); set_word m (address / 4) d)
    else if width == 2
    then (do
      assert (not (nonzero (bit_and address 1)))
      w ← word_at m (address / 4)
      set_word m (address / 4) (store_half w address d))
    else if width == 1
    then (do
      w ← word_at m (address / 4)
      set_word m (address / 4) (store_lane w (bit_and address 3) d))
    else done m
