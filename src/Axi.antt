-- ===== src/Axi.antt =====
-- top_cache_axi/tb/axi4.h: the signals that an AXI4 master and an AXI4 slave drive. A signal of
-- one bit is a Bool, a wider sc_uint a number that keeps within its width. The other copy of the
-- header, in top_tcm_axi/tb, is the same. sc_trace and the stream operators are output only, and
-- the MEMBER_COPY macros copy field by field.
pub mod Equality
use riscv_v2f_optimized.Prelude.{ℕ, Bool, true, false, not, ◌&&◌, ◌==◌}

-- axi4_master
pub record Master : Type 0 where
  pub awvalid : Bool
  pub awaddr : ℕ
  pub awid : ℕ
  pub awlen : ℕ
  pub awburst : ℕ
  pub wvalid : Bool
  pub wdata : ℕ
  pub wstrb : ℕ
  pub wlast : Bool
  pub bready : Bool
  pub arvalid : Bool
  pub araddr : ℕ
  pub arid : ℕ
  pub arlen : ℕ
  pub arburst : ℕ
  pub rready : Bool

abbrev pub init_master : Master
init_master = record {
  awvalid = false;
  awaddr = 0;
  awid = 0;
  awlen = 0;
  awburst = 0;
  wvalid = false;
  wdata = 0;
  wstrb = 0;
  wlast = false;
  bready = false;
  arvalid = false;
  araddr = 0;
  arid = 0;
  arlen = 0;
  arburst = 0;
  rready = false;
}

abbrev pub same_bit : Bool → Bool → Bool
same_bit true b = b
same_bit false b = not b

-- operator ==
unfoldable pub same_master : Master → Master → Bool
same_master u v =
    same_bit u.awvalid v.awvalid
    && u.awaddr == v.awaddr
    && u.awid == v.awid
    && u.awlen == v.awlen
    && u.awburst == v.awburst
    && same_bit u.wvalid v.wvalid
    && u.wdata == v.wdata
    && u.wstrb == v.wstrb
    && same_bit u.wlast v.wlast
    && same_bit u.bready v.bready
    && same_bit u.arvalid v.arvalid
    && u.araddr == v.araddr
    && u.arid == v.arid
    && u.arlen == v.arlen
    && u.arburst == v.arburst
    && same_bit u.rready v.rready

-- axi4_slave
pub record Slave : Type 0 where
  pub awready : Bool
  pub wready : Bool
  pub bvalid : Bool
  pub bresp : ℕ
  pub bid : ℕ
  pub arready : Bool
  pub rvalid : Bool
  pub rdata : ℕ
  pub rresp : ℕ
  pub rid : ℕ
  pub rlast : Bool

abbrev pub init_slave : Slave
init_slave = record {
  awready = false;
  wready = false;
  bvalid = false;
  bresp = 0;
  bid = 0;
  arready = false;
  rvalid = false;
  rdata = 0;
  rresp = 0;
  rid = 0;
  rlast = false;
}

unfoldable pub same_slave : Slave → Slave → Bool
same_slave u v =
    same_bit u.awready v.awready
    && same_bit u.wready v.wready
    && same_bit u.bvalid v.bvalid
    && u.bresp == v.bresp
    && u.bid == v.bid
    && same_bit u.arready v.arready
    && same_bit u.rvalid v.rvalid
    && u.rdata == v.rdata
    && u.rresp == v.rresp
    && u.rid == v.rid
    && same_bit u.rlast v.rlast
