-- ===== src/SimMain.antt =====
-- top_cache_axi/tb/main.cpp: what sc_main makes of its command line and environment before the
-- simulation starts; top_tcm_axi/tb/main.cpp is the same. getenv and strtol are the C library's;
-- clocks, reset and the call of the simulation kernel are SystemC's.
pub mod Arguments
use Prim.Native.String.{String}
use text.Mathlib.Text.{◌==◌}
use riscv_v2f_optimized.Prelude.{
  ℕ, zero, suc, ◌+◌, ◌-◌, ◌%◌, ◌^◌, Bool, true, false, not, ◌&&◌, List, [], ◌∷◌, Option, none, some,
  if◌then◌else◌,
}
use riscv_v2f_optimized.Prelude.Outcome.{Outcome, done, undefined, ◌>>=◌}
use riscv_v2f_optimized.Word.{nonzero}

-- !strcmp(a, b)
abbrev pub same_text : String → String → Bool
same_text a b = a == b

-- The local variables of sc_main. vcd_name is none for NULL, and seed an int, kept as its 32 bits.
pub record Settings : Type 0 where
  pub trace : Bool
  pub seed : ℕ
  pub last_argc : ℕ
  pub vcd_name : Option String

abbrev pub initial_settings : Settings
initial_settings = record { trace = true; seed = 1; last_argc = 0; vcd_name = some "sysc_wave" }

pub data Switch : Type 0 where
  trace_switch seed_switch vcd_switch : Switch

-- The three tests of the loop, in their order.
unfoldable pub switch_of : String → Option Switch
switch_of a =
    if same_text a "--trace"
    then some trace_switch
    else if same_text a "--seed"
    then some seed_switch
    else if same_text a "--vcd_name"
    then some vcd_switch
    else none

module _ (strtol : String → ℕ) where
  -- argv[i+1] read and used; it is NULL at the end of argv, which strtol must not be given.
  unfoldable pub set_switch : Switch → Option String → Settings → Outcome Settings
  set_switch trace_switch (some v) s = done (record s { trace = nonzero (strtol v % 2 ^ 64) })
  set_switch seed_switch (some v) s = done (record s { seed = strtol v % 2 ^ 32 })
  set_switch vcd_switch v s = done (record s { vcd_name = v })
  set_switch trace_switch none s = undefined
  set_switch seed_switch none s = undefined

  -- The loop over argv[i], …, argv[argc-1].
  unfoldable pub parse_switches : ℕ → List String → Settings → Outcome Settings
  parse_switches i [] s = done s
  parse_switches i (a ∷ []) s = elim (switch_of a) [
    | none ↦ done (record s { last_argc = i - 1 })
    | some w ↦ set_switch w none s
  ]
  parse_switches i (a ∷ v ∷ rest) s = elim (switch_of a) [
    | none ↦ done (record s { last_argc = i - 1 })
    | some w ↦ do s' ← set_switch w (some v) s; parse_switches (i + 2) rest s'
  ]

-- `if (s && strcmp(s, "")) seed = strtol(s, NULL, 0);`
unfoldable pub env_seed : (String → ℕ) → Option String → Settings → Settings
env_seed strtol none s = s
env_seed strtol (some t) s =
    if not (same_text t "") then record s { seed = strtol t % 2 ^ 32 } else s

abbrev pub says_no : Option String → Bool
says_no none = false
says_no (some t) = same_text t "no"

-- What the testbench is started with: add_trace is called on a file of the given name, and
-- set_argcv gets `&argv[last_argc]`.
pub record Launch : Type 0 where
  pub seeded : ℕ
  pub traced : Bool
  pub trace_file : Option String
  pub arguments : List String

unfoldable pub drop_words : ℕ → List String → List String
drop_words n [] = []
drop_words zero (a ∷ rest) = a ∷ rest
drop_words (suc n) (a ∷ rest) = drop_words n rest

unfoldable pub tail_words : List String → List String
tail_words [] = []
tail_words (a ∷ rest) = rest

unfoldable pub sc_main : (String → ℕ) → (String → Option String) → List String → Outcome Launch
unfolding env_seed tail_words
sc_main strtol getenv argv = do
  let s0 = env_seed strtol (getenv "SEED") initial_settings
  s ← parse_switches strtol 1 (tail_words argv) s0
  done (record {
    seeded = s.seed;
    traced = s.trace && not (says_no (getenv "ENABLE_WAVES"));
    trace_file = s.vcd_name;
    arguments = drop_words s.last_argc argv;
  })
