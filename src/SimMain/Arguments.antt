-- ===== src/SimMain/Arguments.antt =====
-- The switches in front of the command line are read, the last of each kind counts, and riscv_main
-- gets the rest.
use Prim.Native.String.{String}
use riscv_v2f_optimized.Prelude.{
  ℕ, suc, ◌+◌, ◌-◌, ◌%◌, ◌^◌, Bool, true, false, not, ◌&&◌, List, [], ◌∷◌, ◌++◌, Option, none, some,
  if◌then◌else◌, ◌≡◌, refl, ap, ◌∙◌, arith,
}
use riscv_v2f_optimized.Prelude.Outcome.{done, >>=-done}
use riscv_v2f_optimized.Word.{nonzero}
use riscv_v2f_optimized.SimMain.{
  Settings, initial_settings, Switch, trace_switch, seed_switch, vcd_switch, switch_of, set_switch,
  parse_switches, env_seed, says_no, Launch, drop_words, tail_words, sc_main,
}

-- Switches with their values, as they are written.
abbrev pub word_of : Switch → String
word_of trace_switch = "--trace"
word_of seed_switch = "--seed"
word_of vcd_switch = "--vcd_name"

abbrev pub Given : Type 0
Given = List (Switch × String)

abbrev pub spell : Given → List String
spell [] = []
spell ((w, v) ∷ more) = word_of w ∷ v ∷ spell more

abbrev pub count : Given → ℕ
count [] = 0
count (x ∷ more) = suc (suc (count more))

-- The value given last.
abbrev pub same_switch : Switch → Switch → Bool
same_switch trace_switch trace_switch = true
same_switch seed_switch seed_switch = true
same_switch vcd_switch vcd_switch = true
same_switch u w = false

abbrev pub or_else {ℓ} : {A : Type ℓ} → Option A → Option A → Option A
or_else (some x) y = some x
or_else none y = y

abbrev pub last_of : Switch → Given → Option String
last_of w [] = none
last_of w ((u, v) ∷ more) = or_else (last_of w more) (if same_switch u w then some v else none)

abbrev pub value_or {ℓ} : {A : Type ℓ} → (String → A) → A → Option String → A
value_or f d none = d
value_or f d (some v) = f v

value_or-some {ℓ} :
    {A : Type ℓ} (f : String → A) (d : A) (o : Option String) (v : String)
    → value_or f (f v) o ≡ value_or f d (or_else o (some v))
value_or-some f d none v = refl
value_or-some f d (some x) v = refl

value_or-none {ℓ} :
    {A : Type ℓ} (f : String → A) (d : A) (o : Option String)
    → value_or f d o ≡ value_or f d (or_else o none)
value_or-none f d none = refl
value_or-none f d (some x) = refl

-- argv[last_argc]
abbrev pub last_word : String → Given → String
last_word p [] = p
last_word p ((w, v) ∷ more) = last_word v more

switch_of_word : (w : Switch) → switch_of (word_of w) ≡ some w
unfolding switch_of
switch_of_word trace_switch = refl
switch_of_word seed_switch = refl
switch_of_word vcd_switch = refl

module _ (strtol : String → ℕ) where
  apply : Switch → String → Settings → Settings
  apply trace_switch v s = record s { trace = nonzero (strtol v % 2 ^ 64) }
  apply seed_switch v s = record s { seed = strtol v % 2 ^ 32 }
  apply vcd_switch v s = record s { vcd_name = some v }

  apply_all : Given → Settings → Settings
  apply_all [] s = s
  apply_all ((w, v) ∷ more) s = apply_all more (apply w v s)

  set_switch-apply :
      (w : Switch) (v : String) (s : Settings) → set_switch strtol w (some v) s ≡ done (apply w v s)
  unfolding set_switch apply
  set_switch-apply trace_switch v s = refl
  set_switch-apply seed_switch v s = refl
  set_switch-apply vcd_switch v s = refl

  parse-spell :
      (opts : Given) (i : ℕ) (a : String) (rest : List String) (s : Settings)
      → switch_of a ≡ none
      → parse_switches strtol i (spell opts ++ a ∷ rest) s
        ≡ done (record (apply_all opts s) { last_argc = i + count opts - 1 })
  unfolding parse_switches apply_all
  parse-spell [] i a [] s h =
      rw (h, parse_switches) (ap (λ n. done (record s { last_argc = n })) (omega arith))
  parse-spell [] i a (b ∷ rest) s h =
      rw (h, parse_switches) (ap (λ n. done (record s { last_argc = n })) (omega arith))
  parse-spell ((w, v) ∷ more) i a rest s h =
      rw (switch_of_word w, parse_switches)
        (>>=-done _ (set_switch-apply w v s) (
          parse-spell more (i + 2) a rest (apply w v s) h
          ∙ ap (λ n. done (record (apply_all more (apply w v s)) { last_argc = n })) (omega arith)))

  parse-spell_only :
      (opts : Given) (i : ℕ) (s : Settings)
      → parse_switches strtol i (spell opts) s ≡ done (apply_all opts s)
  unfolding parse_switches apply_all
  parse-spell_only [] i s = refl
  parse-spell_only ((w, v) ∷ more) i s =
      rw (switch_of_word w, parse_switches)
        (>>=-done _ (set_switch-apply w v s) (parse-spell_only more (i + 2) (apply w v s)))

  last_seed :
      (opts : Given) (s : Settings)
      → (apply_all opts s).seed
        ≡ value_or (λ v. strtol v % 2 ^ 32) s.seed (last_of seed_switch opts)
  unfolding apply_all apply
  last_seed [] s = refl
  last_seed ((trace_switch, v) ∷ more) s =
      last_seed more _ ∙ value_or-none (λ v. strtol v % 2 ^ 32) s.seed (last_of seed_switch more)
  last_seed ((seed_switch, v) ∷ more) s =
      last_seed more _ ∙ value_or-some (λ v. strtol v % 2 ^ 32) s.seed (last_of seed_switch more) v
  last_seed ((vcd_switch, v) ∷ more) s =
      last_seed more _ ∙ value_or-none (λ v. strtol v % 2 ^ 32) s.seed (last_of seed_switch more)

  last_trace :
      (opts : Given) (s : Settings)
      → (apply_all opts s).trace
        ≡ value_or (λ v. nonzero (strtol v % 2 ^ 64)) s.trace (last_of trace_switch opts)
  unfolding apply_all apply
  last_trace [] s = refl
  last_trace ((trace_switch, v) ∷ more) s =
      last_trace more _
      ∙ value_or-some (λ v. nonzero (strtol v % 2 ^ 64)) s.trace (last_of trace_switch more) v
  last_trace ((seed_switch, v) ∷ more) s =
      last_trace more _
      ∙ value_or-none (λ v. nonzero (strtol v % 2 ^ 64)) s.trace (last_of trace_switch more)
  last_trace ((vcd_switch, v) ∷ more) s =
      last_trace more _
      ∙ value_or-none (λ v. nonzero (strtol v % 2 ^ 64)) s.trace (last_of trace_switch more)

  last_vcd :
      (opts : Given) (s : Settings)
      → (apply_all opts s).vcd_name ≡ value_or (some) s.vcd_name (last_of vcd_switch opts)
  unfolding apply_all apply
  last_vcd [] s = refl
  last_vcd ((trace_switch, v) ∷ more) s =
      last_vcd more _ ∙ value_or-none (some) s.vcd_name (last_of vcd_switch more)
  last_vcd ((seed_switch, v) ∷ more) s =
      last_vcd more _ ∙ value_or-none (some) s.vcd_name (last_of vcd_switch more)
  last_vcd ((vcd_switch, v) ∷ more) s =
      last_vcd more _ ∙ value_or-some (some) s.vcd_name (last_of vcd_switch more) v

  same_argc : (opts : Given) (s : Settings) → (apply_all opts s).last_argc ≡ s.last_argc
  unfolding apply_all apply
  same_argc [] s = refl
  same_argc ((trace_switch, v) ∷ more) s = same_argc more _
  same_argc ((seed_switch, v) ∷ more) s = same_argc more _
  same_argc ((vcd_switch, v) ∷ more) s = same_argc more _

  env_argc : (t : Option String) (s : Settings) → (env_seed strtol t s).last_argc ≡ s.last_argc
  unfolding env_seed
  env_argc none s = refl
  env_argc (some t) s = ground arith

drop_words-spell :
    (p : String) (opts : Given) (a : String) (rest : List String)
    → drop_words (count opts) (p ∷ spell opts ++ a ∷ rest) ≡ last_word p opts ∷ a ∷ rest
unfolding drop_words
drop_words-spell p [] a rest = refl
drop_words-spell p ((w, v) ∷ more) a rest = drop_words-spell v more a rest

-- What the switches and the environment ask for.
abbrev pub launched : (String → ℕ) → (String → Option String) → Given → List String → Launch
launched strtol getenv opts words =
    let s = env_seed strtol (getenv "SEED") initial_settings in
    record {
      seeded = value_or (λ v. strtol v % 2 ^ 32) s.seed (last_of seed_switch opts);
      traced =
          value_or (λ v. nonzero (strtol v % 2 ^ 64)) s.trace (last_of trace_switch opts)
          && not (says_no (getenv "ENABLE_WAVES"));
      trace_file = value_or some s.vcd_name (last_of vcd_switch opts);
      arguments = words;
    }

launched-eq :
    (strtol : String → ℕ) (getenv : String → Option String) (opts : Given) (words : List String)
    → let s = apply_all strtol opts (env_seed strtol (getenv "SEED") initial_settings) in
      ◌≡◌ {A = Launch}
        (record {
          seeded = s.seed;
          traced = s.trace && not (says_no (getenv "ENABLE_WAVES"));
          trace_file = s.vcd_name;
          arguments = words;
        })
        (launched strtol getenv opts words)
launched-eq strtol getenv opts words =
    rw (last_seed strtol opts _, last_trace strtol opts _, last_vcd strtol opts _) refl

-- On a command line of switches with their values, then a word that is no switch and anything more,
-- sc_main takes the last value of each kind of switch, before the environment's seed and the
-- defaults, traces unless ENABLE_WAVES is `no`, and gives riscv_main the remaining words behind one
-- word in the place of the program's name; on switches alone it gives riscv_main the whole line.
pub sc_main-launched :
    (strtol : String → ℕ) (getenv : String → Option String) (prog a : String) (opts : Given)
    (rest : List String)
    → switch_of a ≡ none
    → (sc_main strtol getenv (prog ∷ spell opts ++ a ∷ rest)
        ≡ done (launched strtol getenv opts (last_word prog opts ∷ a ∷ rest)))
      × (sc_main strtol getenv (prog ∷ spell opts)
          ≡ done (launched strtol getenv opts (prog ∷ spell opts)))
unfolding sc_main tail_words drop_words
sc_main-launched strtol getenv prog a opts rest h = (
  >>=-done _ (parse-spell strtol opts 1 a rest s0 h)
      (rw (behind, drop_words-spell prog opts a rest) (ap done (launched-eq strtol getenv opts _))),
  >>=-done _ (parse-spell_only strtol opts 1 s0) (
      rw (same_argc strtol opts s0 ∙ env_argc strtol (getenv "SEED") initial_settings)
        (ap done (launched-eq strtol getenv opts _))),
)
  where
    s0 : Settings
    s0 = env_seed strtol (getenv "SEED") initial_settings

    behind : 1 + count opts - 1 ≡ count opts
    behind = omega arith
