-- ===== src/AxiMemory.antt =====
-- top_cache_axi/tb/tb_axi4_mem.cpp and tb_axi4_mem.h: the memory behind an AXI4 port of the testbench.
-- One call of `cycle` is one round of process()'s loop, between two wait(); the queues and the
-- write request are its local variables. `rand` is the C library's, as the sequence of its answers
-- with the number of calls made.
pub mod Burst
pub mod Handshake
pub mod Queues
use riscv_v2f_optimized.Prelude.{
  ℕ, zero, suc, ◌+◌, ◌*◌, ◌/◌, ◌%◌, ◌^◌, Bool, true, false, not, ◌&&◌, ◌==◌, ltb, if◌then◌else◌,
  List, [], ◌∷◌, ◌++◌, length, bit_and, bit_or,
}
use riscv_v2f_optimized.Prelude.Outcome.{Outcome, done, aborted, ◌>>=◌}
use riscv_v2f_optimized.Word.{add32, shl32, shr32, not32}
use riscv_v2f_optimized.TbMemory.{Arrays, TbMemory, tb_write, tb_read}
use riscv_v2f_optimized.Axi.{Master, Slave}

abbrev pub burst_incr : ℕ
burst_incr = 1

abbrev pub burst_wrap : ℕ
burst_wrap = 2

abbrev pub resp_okay : ℕ
resp_okay = 0

-- tb_axi4_mem with the local variables of process(), and the arrays of its regions.
pub record AxiMemory : Type 0 where
  pub arrays : Arrays
  pub mem : TbMemory
  pub enable_delays : Bool
  pub rands : ℕ
  pub rd_q : List Master
  pub wr_q : List Master
  pub wr_req : Master

-- tb_axi4_mem::enable_delays
unfoldable pub enable_delays_of : AxiMemory → Bool → AxiMemory
enable_delays_of s enable = record s { enable_delays = enable }

unfoldable pub calc_wrap_mask : ℕ → ℕ
calc_wrap_mask len =
    if len == 0
    then 0x03
    else if len == 1
    then 0x07
    else if len == 3
    then 0x0F
    else if len == 7
    then 0x1F
    else 0x3F

unfoldable pub calc_next_addr : ℕ → ℕ → ℕ → ℕ
unfolding calc_wrap_mask add32 not32
calc_next_addr addr type len =
    if type == burst_wrap
    then bit_or (bit_and addr (not32 (calc_wrap_mask len)))
        (bit_and (add32 addr 4) (calc_wrap_mask len))
    else if type == burst_incr
    then add32 addr 4
    else addr

-- One beat of a read burst.
abbrev pub beat : Master → ℕ → ℕ → Master
beat first addr i = record first { arvalid = true; araddr = addr; wlast = i == first.arlen }

-- The loop that unrolls a burst, from beat `i` on.
unfoldable pub unroll : ℕ → ℕ → ℕ → Master → List Master
unfolding calc_next_addr
unroll zero i addr first = []
unroll (suc left) i addr first =
    beat first addr i ∷ unroll left (i + 1) (calc_next_addr addr first.arburst first.arlen) first

module _ (rand : ℕ → ℕ) where
  -- `m_enable_delays ? rand() & 1 : 0`
  unfoldable pub delay_cycle : AxiMemory → AxiMemory × Bool
  delay_cycle s =
      if s.enable_delays
      then (record s { rands = s.rands + 1 }, not (bit_and (rand s.rands) 1 == 0))
      else (s, false)

  -- `Read command`
  unfoldable pub read_command : Master → Slave → AxiMemory → AxiMemory
  unfolding unroll calc_wrap_mask not32
  read_command i o s =
      if i.arvalid && o.arready
      then record s {
        rd_q = s.rd_q ++ unroll (i.arlen + 1) 0 (bit_and i.araddr (not32 (calc_wrap_mask 0))) i;
      }
      else s

  -- `Write command`
  unfoldable pub write_command : Master → Slave → AxiMemory → AxiMemory
  write_command i o s = if i.awvalid && o.awready then record s { wr_req = i } else s

  -- `Write data`
  unfoldable pub write_data : Master → Slave → AxiMemory → Outcome AxiMemory
  unfolding calc_next_addr
  write_data i o s =
      if i.wvalid && o.wready
      then if s.wr_req.awvalid
        then done (record s {
          wr_q =
              s.wr_q
              ++ record s.wr_req {
                awvalid = true;
                wvalid = true;
                wdata = i.wdata;
                wstrb = i.wstrb;
                wlast = i.wlast;
              }
                ∷ [];
          wr_req = record s.wr_req {
            awaddr = calc_next_addr s.wr_req.awaddr s.wr_req.awburst s.wr_req.awlen;
            awvalid = if i.wlast then false else s.wr_req.awvalid;
          };
        })
        else aborted
      else done s

  -- write32: the bytes whose strobe is set.
  unfoldable pub write_lanes : ℕ → ℕ → ℕ → ℕ → ℕ → Arrays → TbMemory → Outcome (Arrays × TbMemory)
  unfolding tb_write add32 shr32
  write_lanes zero k addr d strb st m = done (st, m)
  write_lanes (suc left) k addr d strb st m = do
    (st', m') ←
        (if bit_and strb (2 ^ k) == 0
          then done (st, m)
          else tb_write st m (add32 addr k) (shr32 d (k * 8) % 2 ^ 8))
    write_lanes left (k + 1) addr d strb st' m'

  unfoldable pub axi_write32 : AxiMemory → ℕ → ℕ → ℕ → Outcome AxiMemory
  unfolding write_lanes
  axi_write32 s addr d strb = do
    (st, m) ← write_lanes 4 0 addr d strb s.arrays s.mem
    done (record s { arrays = st; mem = m })

  unfoldable pub read_lanes : ℕ → ℕ → ℕ → ℕ → Arrays → TbMemory → Outcome (TbMemory × ℕ)
  unfolding tb_read add32 shl32
  read_lanes zero k addr d st m = done (m, d)
  read_lanes (suc left) k addr d st m = do
    (m', b) ← tb_read st m (add32 addr k)
    read_lanes left (k + 1) addr (bit_or d (shl32 b (k * 8))) st m'

  unfoldable pub axi_read32 : AxiMemory → ℕ → Outcome (AxiMemory × ℕ)
  unfolding read_lanes
  axi_read32 s addr = do
    (m, d) ← read_lanes 4 0 addr 0 s.arrays s.mem
    done (record s { mem = m }, d)

  -- `axi_o.RVALID && axi_i.RREADY`
  unfoldable pub clear_read : Master → Slave → Slave
  clear_read i o =
      if o.rvalid && i.rready
      then record o { rvalid = false; rdata = 0; rid = 0; rresp = 0; rlast = false }
      else o

  -- `!axi_o.RVALID && axi_rd_q.size() > 0 && !delay_cycle()`
  unfoldable pub read_response : Slave → AxiMemory → Outcome (AxiMemory × Slave)
  unfolding delay_cycle axi_read32
  read_response o s = elim o.rvalid [
    | true ↦ done (s, o)
    | false ↦ elim s.rd_q [
      | [] ↦ done (s, o)
      | item ∷ rest ↦ elim (delay_cycle s).1 [
        | true ↦ done ((delay_cycle s).0, o)
        | false ↦ do
          (s', d) ← axi_read32 (record (delay_cycle s).0 { rd_q = rest }) item.araddr
          done (
            s',
            record o {
              rvalid = true;
              rdata = d;
              rid = item.arid;
              rlast = item.wlast;
              rresp = resp_okay;
            },
          )
      ]
    ]
  ]

  unfoldable pub clear_write : Master → Slave → Slave
  clear_write i o =
      if o.bvalid && i.bready then record o { bvalid = false; bid = 0; bresp = 0 } else o

  unfoldable pub write_response : Slave → AxiMemory → Outcome (AxiMemory × Slave)
  unfolding delay_cycle axi_write32
  write_response o s = elim o.bvalid [
    | true ↦ done (s, o)
    | false ↦ elim s.wr_q [
      | [] ↦ done (s, o)
      | item ∷ rest ↦ elim (delay_cycle s).1 [
        | true ↦ done ((delay_cycle s).0, o)
        | false ↦ do
          s' ←
              axi_write32 (record (delay_cycle s).0 { wr_q = rest }) item.awaddr item.wdata
                item.wstrb
          done (s', record o { bvalid = item.wlast; bid = item.awid; bresp = resp_okay })
      ]
    ]
  ]

  -- `Randomize handshaking`
  unfoldable pub handshake : Slave → AxiMemory → AxiMemory × Slave
  unfolding delay_cycle
  handshake o s =
      let (s1, d1) = delay_cycle s in
      let (s2, d2) = delay_cycle s1 in
      let aw = not d2 && ltb (length s.wr_q) 128 in
      let (s3, d3) = if aw then delay_cycle s2 else (s2, false) in
      (
        s3,
        record o {
          arready = not d1 && ltb (length s.rd_q) 128;
          wready = aw && not d3;
          awready = aw && not s.wr_req.awvalid;
        },
      )

  unfoldable pub cycle : Master → Slave → AxiMemory → Outcome (AxiMemory × Slave)
  unfolding read_command write_command write_data clear_read read_response clear_write
      write_response handshake
  cycle i o s = do
    s1 ← write_data i o (write_command i o (read_command i o s))
    (s2, o2) ← read_response (clear_read i o) s1
    (s3, o3) ← write_response (clear_write i o2) s2
    done (handshake o3 s3)
