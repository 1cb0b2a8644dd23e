-- ===== src/Driver.antt =====
-- isa_sim/riscv_main.cpp: the command line, the two callbacks of the loader, and the loop that
-- steps the simulated processor. The world `W` is what cosim::instance() reaches; `Target W` holds
-- the calls that riscv_main makes on `sim` and on cosim::instance().
-- getopt and strtoul are the C library's: getopt's answers come as a list of option characters
-- with their arguments, and strtoul is a parameter.
pub mod Loop
pub mod Simulator
use Prim.Native.String.{String}
use riscv_v2f_optimized.Prelude.{
  ℕ, zero, suc, ◌-◌, ◌*◌, ◌%◌, ◌^◌, Bool, true, false, not, ◌&&◌, ◌||◌, ◌==◌, if◌then◌else◌, List,
  [], ◌∷◌, Option, none, some,
}
use riscv_v2f_optimized.Prelude.Outcome.{Outcome, done, exited, undefined, ◌>>=◌}
use riscv_v2f_optimized.Word.{add32}

-- What riscv_main calls: the processor's methods, and cosim::instance()'s.
pub record Target (W : Type 0) : Type 0 where
  pub reset : W → ℕ → Outcome W
  pub get_fault : W → Outcome Bool
  pub get_stopped : W → Outcome Bool
  pub get_pc : W → Outcome ℕ
  pub step : W → Outcome W
  pub enable_trace : W → ℕ → Outcome W
  pub create_memory : W → ℕ → ℕ → Outcome (W × Bool)
  pub write : W → ℕ → ℕ → Outcome W
  pub valid_addr : W → ℕ → Bool
  pub dump_on_exit : W → String → ℕ → ℕ → W
  pub at_exit : W → ℕ → Outcome W

-- The local variables that the options set. max_cycles is an int, kept as its 32 bits; so is trace.
pub record Options : Type 0 where
  pub max_cycles : ℕ
  pub filename : Option String
  pub help : Bool
  pub trace : ℕ
  pub trace_mask : ℕ
  pub stop_pc : ℕ
  pub trace_pc : ℕ
  pub mem_base : ℕ
  pub mem_size : ℕ
  pub explicit_mem : Bool
  pub dump_file : Option String
  pub dump_sym_start : Option String
  pub dump_sym_end : Option String

-- The int -1.
abbrev pub no_limit : ℕ
no_limit = 2 ^ 32 - 1

abbrev pub default_options : Options
default_options = record {
  max_cycles = no_limit;
  filename = none;
  help = false;
  trace = 0;
  trace_mask = 1;
  stop_pc = 2 ^ 32 - 1;
  trace_pc = 2 ^ 32 - 1;
  mem_base = 0;
  mem_size = 32 * 1024 * 1024;
  explicit_mem = false;
  dump_file = none;
  dump_sym_start = none;
  dump_sym_end = none;
}

-- The switch over the character that getopt returned; `value` is strtoul(optarg, NULL, 0).
unfoldable pub set_option : (String → ℕ) → Options → ℕ → String → Options
set_option strtoul o c optarg =
    let value = strtoul optarg % 2 ^ 32 in
    if c == 116
    then record o { trace = value }
    else if c == 118
    then record o { trace_mask = value }
    else if c == 114
    then record o { stop_pc = value }
    else if c == 102
    then record o { filename = some optarg }
    else if c == 99
    then record o { max_cycles = value }
    else if c == 98
    then record o { mem_base = value; explicit_mem = true }
    else if c == 115
    then record o { mem_size = value; explicit_mem = true }
    else if c == 101
    then record o { trace_pc = value }
    else if c == 112
    then record o { dump_file = some optarg }
    else if c == 106
    then record o { dump_sym_start = some optarg }
    else if c == 107
    then record o { dump_sym_end = some optarg }
    else record o { help = true }

unfoldable pub get_options : (String → ℕ) → Options → List (ℕ × String) → Options
unfolding set_option
get_options strtoul o [] = o
get_options strtoul o ((c, optarg) ∷ more) =
    get_options strtoul (set_option strtoul o c optarg) more

module _ {W : Type 0} (sim : Target W) where
  unfoldable pub mem_create : W → ℕ → ℕ → Outcome (W × Bool)
  mem_create w base size = sim.create_memory w base size

  unfoldable pub mem_load : W → ℕ → ℕ → Outcome (W × Bool)
  mem_load w addr d = do w' ← sim.write w addr d; done (w', sim.valid_addr w' addr)

  -- `!sim->get_fault() && !sim->get_stopped() && current_pc != stop_pc`
  unfoldable pub goes_on : Options → ℕ → W → Outcome Bool
  goes_on o current_pc w = do
    fault ← sim.get_fault w
    elim fault [
      | true ↦ done false
      | false ↦ do stopped ← sim.get_stopped w; done (not stopped && not (current_pc == o.stop_pc))
    ]

  -- `max_cycles != -1 && max_cycles == _cycles`
  abbrev pub at_limit : Options → ℕ → Bool
  at_limit o cycles = not (o.max_cycles == no_limit) && o.max_cycles == cycles

  unfoldable pub trace_from : Options → ℕ → W → Outcome W
  trace_from o current_pc w =
      if o.trace_pc == current_pc then sim.enable_trace w o.trace_mask else done w

  -- The while loop, for at most `fuel` rounds; none when they are used up.
  unfoldable pub run : ℕ → Options → ℕ → ℕ → W → Outcome (Option W)
  unfolding goes_on trace_from add32
  run zero o cycles current_pc w = done none
  run (suc fuel) o cycles current_pc w = do
    on ← goes_on o current_pc w
    elim on [
      | false ↦ done (some w)
      | true ↦ do
        pc ← sim.get_pc w
        w1 ← sim.step w
        elim (at_limit o (add32 cycles 1)) [
          | true ↦ done (some w1)
          | false ↦ do w2 ← trace_from o pc w1; run fuel o (add32 cycles 1) pc w2
        ]
    ]

  abbrev pub exit_code : Bool → ℕ
  exit_code fault = if fault then 1 else 0

  -- elf_get_symbol's answer goes through uint32_t; a NULL symbol name is given to strcmp.
  unfoldable pub set_dump : (String → String → ℕ) → String → Options → W → Outcome W
  set_dump symbol file o w = elim o.dump_file [
    | none ↦ done w
    | some f ↦ elim o.dump_sym_start [
      | none ↦ undefined
      | some start ↦ elim o.dump_sym_end [
        | none ↦ undefined
        | some end ↦
            done (sim.dump_on_exit w f (symbol file start % 2 ^ 32) (symbol file end % 2 ^ 32))
      ]
    ]
  ]

  -- From `Reset CPU to given start PC` to at_exit.
  unfoldable pub simulate : ℕ → Options → ℕ → W → Outcome (Option W)
  unfolding run
  simulate fuel o start_addr w = do
    w1 ← sim.reset w start_addr
    w2 ← (if o.trace == 0 then done w1 else sim.enable_trace w1 o.trace_mask)
    ended ← run fuel o 0 0 w2
    elim ended [
      | none ↦ done none
      | some w3 ↦ do fault ← sim.get_fault w3; w4 ← sim.at_exit w3 (exit_code fault); done (some w4)
    ]

  -- elf_load's answer: the start address, or none when it returned 0.
  unfoldable pub loaded :
      ℕ → (String → String → ℕ) → String → Options → Option ℕ → W → Outcome (Option W)
  unfolding set_dump simulate
  loaded fuel symbol file o none w = done (some w)
  loaded fuel symbol file o (some start_addr) w = do
    w' ← set_dump symbol file o w
    simulate fuel o start_addr w'

  -- riscv_main's exit code, with elf_load and elf_get_symbol as parameters here. A usage error
  -- leaves by exit(-1).
  unfoldable pub riscv_main :
      ℕ
      → (String → W → Outcome (W × Option ℕ))
      → (String → String → ℕ)
      → Options
      → W
      → Outcome (Option (W × ℕ))
  unfolding mem_create loaded
  riscv_main fuel load symbol o w = elim o.filename [
    | none ↦ exited 255
    | some file ↦ elim o.help [
      | true ↦ exited 255
      | false ↦ do
        w1 ←
            (if o.explicit_mem
              then (do (w', ok) ← mem_create w o.mem_base o.mem_size; done w')
              else done w)
        (w2, start_addr) ← load file w1
        ended ← loaded fuel symbol file o start_addr w2
        elim ended [
          | none ↦ done none
          | some w3 ↦ do fault ← sim.get_fault w3; done (some (w3, exit_code fault))
        ]
    ]
  ]
