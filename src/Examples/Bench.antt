-- ===== src/Examples/Bench.antt =====
-- A testbench with one region of four bytes, and an AXI4 burst.
use riscv_v2f_optimized.Prelude.{
  ℕ, true, false, List, if◌then◌else◌, ◌==◌, ◌++◌, ◌≡◌, refl, arith, inl, inr, [], ◌∷◌, length,
  some, get_elem?, replicate,
}
use riscv_v2f_optimized.Prelude.Outcome.{done, Ensures}
use riscv_v2f_optimized.TbMemory.{
  Arrays, TbRegion, TbMemory, region_matches, find_region, tb_valid_addr, tb_write, tb_read,
  recorded,
}
use riscv_v2f_optimized.TbMemory.Backed.{AreBacked, tb_write-tb_read}
use riscv_v2f_optimized.Testbench.{Testbench, tb_create_memory, byte_write}
use riscv_v2f_optimized.Testbench.Coherence.{
  SameSlots, tb_create_memory-SameSlots, byte_write-tb_read,
}
use riscv_v2f_optimized.Axi.{Master, Slave, init_master, init_slave}
use riscv_v2f_optimized.AxiMemory.{
  AxiMemory, read_command, write_command, write_data, clear_read, read_response, clear_write,
  write_response, handshake, delay_cycle, unroll, calc_next_addr, cycle,
}
use riscv_v2f_optimized.AxiMemory.Burst.{read_command-wrap, read_command-incr}
use riscv_v2f_optimized.AxiMemory.Handshake.{SameRead, SameWrite, cycle-SameRead, cycle-SameWrite}
use riscv_v2f_optimized.AxiMemory.Queues.{AreBounded, Rounds-AreBounded, begin, round}

abbrev region : TbRegion
region = record { base = 0x1000; size = 4; array = 0; traced = false }

abbrev arrays : Arrays
arrays = (1 ∷ 2 ∷ 3 ∷ 4 ∷ []) ∷ []

abbrev memory : TbMemory
memory = record { slots = region ∷ []; record_accesses = true; accesses = [] }

abbrev bench : Testbench
bench = record { arrays = arrays; icache_mem = memory; dcache_mem = memory; cycles = 0 }

arrays-AreBacked : AreBacked arrays (region ∷ [])
arrays-AreBacked = (
  record {
    bytes = 1 ∷ 2 ∷ 3 ∷ 4 ∷ [];
    there = refl;
    long = omega arith;
    base_bound = omega arith;
    size_bound = omega arith;
  },
  tt,
)

in_range : tb_valid_addr memory 0x1002 ≡ true
unfolding tb_valid_addr find_region region_matches
in_range = refl

-- A wrapping burst of four beats, and an incrementing one of two.
abbrev wrap_request : Master
wrap_request = record init_master { arvalid = true; araddr = 0x1008; arlen = 3; arburst = 2 }

abbrev incr_request : Master
incr_request = record init_master { arvalid = true; araddr = 0xFFFF_FFFC; arlen = 1; arburst = 1 }

-- A response waits on each channel.
abbrev waiting : Slave
waiting = record init_slave {
  rvalid = true;
  rdata = 7;
  bvalid = true;
  arready = true;
  wready = true;
}

abbrev axi_memory : AxiMemory
axi_memory = record {
  arrays = arrays;
  mem = memory;
  enable_delays = true;
  rands = 0;
  rd_q = incr_request ∷ [];
  wr_q = [];
  wr_req = init_master;
}

abbrev rand : ℕ → ℕ
rand n = n

tb_write-tb_read_example :
    (st : Arrays) × (tb_write arrays memory 0x1002 9 ≡ done (st, recorded memory true 0x1002 9))
    × (tb_read st memory 0x1002 ≡ done (recorded memory false 0x1002 9, 9))
    × AreBacked st memory.slots
tb_write-tb_read_example =
    tb_write-tb_read arrays memory memory 0x1002 9 arrays-AreBacked refl in_range

tb_create_memory-SameSlots_example :
    Ensures SameSlots (tb_create_memory (λ n. replicate n 0) bench 0x2000 64)
tb_create_memory-SameSlots_example =
    tb_create_memory-SameSlots (λ n. replicate n 0) bench 0x2000 64 refl

byte_write-tb_read_example :
    (t : Testbench) × (byte_write bench 0x1002 9 ≡ done t)
    × ((m : TbMemory) × (tb_read t.arrays t.icache_mem 0x1002 ≡ done (m, 9)))
    × SameSlots t
    × AreBacked t.arrays t.dcache_mem.slots
byte_write-tb_read_example = byte_write-tb_read bench 0x1002 9 refl arrays-AreBacked in_range

read_command-wrap_example :
    (burst : List Master) × ((read_command rand wrap_request waiting axi_memory).rd_q
      ≡ incr_request ∷ [] ++ burst)
    × (length burst ≡ 4)
    × (get_elem? burst 3 ≡ some (record wrap_request { araddr = 0x1004; wlast = true }))
read_command-wrap_example =
    read_command-wrap rand wrap_request waiting axi_memory 3 refl refl (omega arith) refl
      (inr (inl refl)) (omega arith)

read_command-incr_example :
    (burst : List Master) × ((read_command rand incr_request waiting axi_memory).rd_q
      ≡ incr_request ∷ [] ++ burst)
    × (length burst ≡ 2)
    × (get_elem? burst 1 ≡ some (record incr_request { araddr = 0; wlast = true }))
read_command-incr_example =
    read_command-incr rand incr_request waiting axi_memory 1 refl refl (omega arith) refl
      (omega arith)

cycle-SameRead_example :
    Ensures (λ r. SameRead waiting r.1) (cycle rand wrap_request waiting axi_memory)
cycle-SameRead_example = cycle-SameRead rand wrap_request waiting axi_memory refl refl

cycle-SameWrite_example :
    Ensures (λ r. SameWrite waiting r.1) (cycle rand wrap_request waiting axi_memory)
cycle-SameWrite_example = cycle-SameWrite rand wrap_request waiting axi_memory refl refl

-- A sequence of answers of rand that lets the first round give ARREADY and delays all else: the memory
-- at its start, after a round without a request, and after one that takes a burst of two words.
abbrev rand_once : ℕ → ℕ
rand_once n = if n == 0 then 0 else 1

abbrev idle : AxiMemory
idle = record axi_memory { rd_q = [] }

abbrev taking : AxiMemory
taking = record idle { rands = 2 }

abbrev taken : AxiMemory
taken = record idle {
  rands = 5;
  rd_q =
      record incr_request { wlast = false } ∷ record incr_request { araddr = 0; wlast = true } ∷ [];
}

first_round :
    cycle rand_once init_master init_slave idle
    ≡ done (taking, record init_slave { arready = true })
unfolding cycle read_command write_command write_data clear_read read_response clear_write
    write_response handshake delay_cycle
first_round = refl

second_round :
    cycle rand_once incr_request (record init_slave { arready = true }) taking
    ≡ done (taken, init_slave)
unfolding cycle read_command write_command write_data clear_read read_response clear_write
    write_response handshake delay_cycle unroll calc_next_addr
second_round = refl

Rounds-AreBounded_example : AreBounded init_slave taken
Rounds-AreBounded_example = Rounds-AreBounded rand_once (
    round incr_request (round init_master (begin refl refl refl) (omega arith) first_round)
      (omega arith) second_round)
