-- ===== src/Lib.antt =====
-- The RISC-V instruction-set simulator of isa_sim/: class Riscv executes RV32IM with machine,
-- supervisor and user mode, traps and interrupts, Sv32 address translation, and memory regions. Around
-- it: the framework that steps several models in lockstep, the driver with its ELF loader, and the two
-- SystemC testbenches with their wrappers of the cores, trace files, memories and AXI4 port.
--
-- How the parts interact. Exec.step is one call of Riscv::step. It translates the pc (Mmu), reads the
-- instruction word through the memory regions (Regions, Memory), decodes it and runs one branch of
-- execute (Exec and its children), which may load or store (LoadStore), access a CSR (CsrAccess) or
-- trap (Trap); then the result is written back, a pending interrupt is taken (Trap), the timer ticks
-- and a breakpoint is checked (Breakpoints).
--
-- Class cosim (Cosim) calls processors and memories through two abstract classes, which are records of
-- operations (Cosim.Api); the objects stand in a store, and a pointer is an index into it, so that one
-- object may be attached as a processor and as a memory. riscv_main (Driver) loads a file through
-- callbacks (ElfLoad), resets the processor and steps it. It runs on one simulator (isa_sim/main.cpp) or
-- on cosim itself (the testbenches): Driver.Simulator fills the driver's interface both ways. The
-- testbench (Testbench) loads through the data side what the instruction side fetches: its two memories
-- (TbMemory) share their arrays. An AXI4 port (AxiMemory) serves bursts from such a memory, over the
-- signals that a wrapper (RiscvTop) copies to and from its core. The other testbench (TcmBench) reaches
-- the memory inside its core, behind the wrapper TcmTop. sc_main (SimMain) reads the command line, makes a
-- testbench and passes the remaining words to riscv_main.
--
-- ElfLoad.Bytes has the interface that the loader's result rests on, LoaderLaws: the simulator fills it in
-- Driver.Simulator.Loading and the TCM testbench in TcmBench.Loading.
--
-- Files and the code they model:
--   Prelude     helpers: tests, lists, integers, and Outcome, the ways in which a call ends
--   Word        uint32_t arithmetic written out with its wrap-around, bits and masks
--   Isa         isa_sim/riscv_isa.h: encodings, CSR numbers and masks, privilege, paging constants
--   Memory      isa_sim/memory.h: SimpleMemory
--   Machine     isa_sim/riscv.h: the members of class Riscv; isa_sim/cosim_api.h: the event queues
--   Regions     isa_sim/riscv.cpp: error, create_memory, attach_memory, valid_addr, read, write,
--               read32, write32, get_opcode
--   Breakpoints isa_sim/riscv.cpp: get_break, set_breakpoint, clr_breakpoint, check_breakpoint
--   Trap        isa_sim/riscv.cpp: exception; of execute: mret, sret, the pending interrupt
--   Mmu         isa_sim/riscv.cpp: mmu_read_word, mmu_walk, mmu_i_translate, mmu_d_translate; Mmu/Sv32 says
--               what page tables mean, apart from the code
--   LoadStore   isa_sim/riscv.cpp: load, store, and event_push of isa_sim/cosim_api.h
--   Registers   isa_sim/riscv.cpp: set_pc, set_register, get_register, reset, set_interrupt
--   CsrAccess   isa_sim/riscv.cpp: access_csr
--   Exec        isa_sim/riscv.cpp: execute, step
--   Printer     isa_sim/riscv_inst_dump.cpp: riscv_inst_decode, riscv_inst_print; Printer/Words: the lines
--               that execute of isa_sim/riscv.cpp traces for instructions
--   Cosim       isa_sim/cosim_api.h: the abstract classes; isa_sim/cosim_api.cpp: class cosim, with
--               its memory accesses in Cosim/Bus and at_exit in Cosim/Exit
--   Driver      isa_sim/riscv_main.cpp; Driver/Simulator: isa_sim/main.cpp and riscv.h's methods
--   ElfLoad     isa_sim/elf_load.cpp: elf_load, elf_get_symbol
--   TbMemory    top_cache_axi/tb/tb_memory.h
--   Testbench   top_cache_axi/tb/testbench.h: create_memory, write, read
--   TcmBench    top_tcm_axi/tb/testbench.h
--   Axi         top_cache_axi/tb/axi4.h: the two records of signals
--   AxiLite     top_tcm_axi/tb/axi4_lite.h: the two records of signals
--   AxiMemory   top_cache_axi/tb/tb_axi4_mem.cpp and tb_axi4_mem.h
--   RiscvTop    top_cache_axi/tb/riscv_top.cpp: the bindings of the constructor, async_outputs
--   TcmTop      top_tcm_axi/tb/riscv_tcm_top_rtl.cpp: the same
--   Delta       the scheduling of the wrappers' processes
--   Waves       top_cache_axi/tb/testbench_vbase.h, trace_enable and trace_rtl of the wrappers, and the
--               ways to leave of top_cache_axi/tb/main.cpp
--   SimMain     top_cache_axi/tb/main.cpp: sc_main up to the start of the simulation
--   Invariant   the state invariant and its preservation
--   Examples    a small machine, a platform and a bench on which the theorems are applied
--
-- Conventions. A uint32_t is a natural number below 2 ^ 32, and an int is its bit pattern. A call ends
-- in an Outcome: `done`, `exited` with a status (exit(); Riscv::error always leaves with 255),
-- `aborted` (a failed assert) or `undefined` (what the C++ standard leaves undefined: an index behind
-- an array, a shift by 32 or more). The signed product of MUL is taken to wrap. CONFIG_MMU is on, as
-- in the makefile. The console's getchar is a stream of values, a parameter of the state; putchar and
-- printf are recorded in `output`. Traces and the statistics interface are left out of execute; the
-- lines that it traces for instructions stand in Printer.Words.
--
-- Loops. The loops over regions, breakpoints and CSR labels recurse on the list. The page walk
-- recurses on its two levels and goes one round further where the code does. The interrupt loop has
-- 11 rounds, IRQ_MIN to IRQ_MAX, and the copy of a format string 1023, the size of its buffer: these
-- are the loops' own bounds. The driver's main loop runs on fuel and says when it is used up; with a
-- limit of cycles that many rounds are enough. The testbench's searches for a free address have 2 ^ 32
-- rounds: after them every address was tried, and a loop that never ends and does nothing is undefined.
--
-- Parameters: getopt's answers and strtoul, the answers of libelf and bfd, the words that `new` hands
-- out, rand, and the test of a file name's ending are the C library's or another library's. at_exit's
-- `delete` of its buffer is taken as delete[].
--
-- The classes that Verilator makes of the cores are not in the repository: the wrappers drive and read
-- their ports, and the TCM testbench has a record of their clock edge and of the two functions that
-- tcm_mem.v makes public. SystemC's scheduler is a relation: a process runs at the start and after each
-- update that changed what it is sensitive to, at least, and what it writes takes effect at the next update
-- (Delta). getenv and strtol are the C library's.
--
-- Not modelled: sc_trace, the stream operators of the signals and messages, which are output only; the
-- reset generator, which writes true and then false once; the copies of axi4.h, main.cpp and
-- testbench_vbase.h in top_tcm_axi, which are the same; the FPGA top level (top_v2f) and the Verilog cores
-- (core, top_tcm_wrapper).
pub mod Prelude
pub mod Waves
pub mod Word
pub mod Isa
pub mod Memory
pub mod Machine
pub mod RiscvTop
pub mod TcmBench
pub mod TcmTop
pub mod Regions
pub mod Breakpoints
pub mod Trap
pub mod Mmu
pub mod LoadStore
pub mod Registers
pub mod CsrAccess
pub mod Exec
pub mod Printer
pub mod Cosim
pub mod Driver
pub mod ElfLoad
pub mod SimMain
pub mod TbMemory
pub mod Testbench
pub mod Axi
pub mod AxiLite
pub mod AxiMemory
pub mod Invariant
pub mod Examples
pub mod Delta
