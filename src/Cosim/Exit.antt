-- ===== src/Cosim/Exit.antt =====
-- cosim_api.cpp: at_exit, which writes the memory dump and ends the process.
-- Words are read from the buffer as a little-endian host does. Whether the file's name ends in
-- `.output` is strrchr and strcmp's answer, and a parameter. The `delete` of the buffer is taken as
-- delete[].
use Prim.Native.String.{String}
use riscv_v2f_optimized.Prelude.{
  ℕ, zero, suc, ◌+◌, ◌*◌, ◌/◌, ◌^◌, Bool, ltb, if◌then◌else◌, List, [], ◌∷◌, none, some, get_or,
}
use riscv_v2f_optimized.Prelude.Outcome.{Outcome, done, exited, aborted, ◌>>=◌}
use riscv_v2f_optimized.Word.{add32, sub32}
use riscv_v2f_optimized.Cosim.{Cosim, Dump}
use riscv_v2f_optimized.Cosim.Api.{MemApi}
use riscv_v2f_optimized.Cosim.Bus.{bus_read}

-- What at_exit writes: bytes, or lines of four words, printed with `%08x` one after the other.
pub data Content : Type 0 where
  binary : List ℕ → Content
  signature : List (List ℕ) → Content

-- `*(uint32_t*)&buffer[i]`
unfoldable pub buffer_word : List ℕ → ℕ → ℕ
buffer_word buffer i =
    get_or buffer i 0
    + 2 ^ 8 * get_or buffer (i + 1) 0
    + 2 ^ 16 * get_or buffer (i + 2) 0
    + 2 ^ 24 * get_or buffer (i + 3) 0

-- `for (int c=0;c<16;c+=4)`: from the last word of the row to the first.
unfoldable pub signature_row : List ℕ → ℕ → List ℕ
unfolding buffer_word
signature_row buffer r =
    buffer_word buffer (r * 16 + 12)
    ∷ buffer_word buffer (r * 16 + 8)
    ∷ buffer_word buffer (r * 16 + 4)
    ∷ buffer_word buffer (r * 16)
    ∷ []

unfoldable pub signature_rows : ℕ → ℕ → List ℕ → List (List ℕ)
unfolding signature_row
signature_rows zero r buffer = []
signature_rows (suc left) r buffer = signature_row buffer r ∷ signature_rows left (r + 1) buffer

module _ {S : Type 0} (api : MemApi S) (is_output : String → Bool) where
  -- The loop that fills the buffer.
  unfoldable pub fill : ℕ → ℕ → ℕ → Cosim S → Outcome (List ℕ)
  unfolding bus_read add32
  fill zero i start w = done []
  fill (suc left) i start w = do
    b ← bus_read api w (add32 start i)
    rest ← fill left (i + 1) start w
    done (b ∷ rest)

  -- The file that at_exit writes. The size is an int; a negative one makes `new` throw, which
  -- nothing catches.
  unfoldable pub dump_content : Cosim S → Dump → Outcome Content
  unfolding fill signature_rows sub32
  dump_content w d =
      let size = sub32 d.end d.start in
      if ltb size (2 ^ 31)
      then (do
        buffer ← fill size 0 d.start w
        done (
            if is_output d.file
            then signature (signature_rows (size / 16) 0 buffer)
            else binary buffer))
      else aborted

  -- at_exit never returns.
  unfoldable pub at_exit : Cosim S → ℕ → Outcome (Cosim S)
  unfolding dump_content
  at_exit w exit_code = elim w.m_dump [
    | none ↦ exited exit_code
    | some d ↦ do written ← dump_content w d; exited exit_code
  ]
