-- ===== src/AxiLite.antt =====
-- top_tcm_axi/tb/axi4_lite.h: the signals that an AXI4-Lite master and slave drive. A signal of one
-- bit is a Bool. sc_trace and the stream operators are output only.
pub mod Equality
use riscv_v2f_optimized.Prelude.{ℕ, Bool, true, false, ◌&&◌, ◌==◌}
use riscv_v2f_optimized.Axi.{same_bit}

-- axi4_lite_master
pub record LiteMaster : Type 0 where
  pub awvalid : Bool
  pub awaddr : ℕ
  pub wvalid : Bool
  pub wdata : ℕ
  pub wstrb : ℕ
  pub bready : Bool
  pub arvalid : Bool
  pub araddr : ℕ
  pub rready : Bool

abbrev pub init_lite_master : LiteMaster
init_lite_master = record {
  awvalid = false;
  awaddr = 0;
  wvalid = false;
  wdata = 0;
  wstrb = 0;
  bready = false;
  arvalid = false;
  araddr = 0;
  rready = false;
}

-- operator ==
unfoldable pub same_lite_master : LiteMaster → LiteMaster → Bool
same_lite_master u v =
    same_bit u.awvalid v.awvalid
    && u.awaddr == v.awaddr
    && same_bit u.wvalid v.wvalid
    && u.wdata == v.wdata
    && u.wstrb == v.wstrb
    && same_bit u.bready v.bready
    && same_bit u.arvalid v.arvalid
    && u.araddr == v.araddr
    && same_bit u.rready v.rready

-- axi4_lite_slave
pub record LiteSlave : Type 0 where
  pub awready : Bool
  pub wready : Bool
  pub bvalid : Bool
  pub bresp : ℕ
  pub arready : Bool
  pub rvalid : Bool
  pub rdata : ℕ
  pub rresp : ℕ

abbrev pub init_lite_slave : LiteSlave
init_lite_slave = record {
  awready = false;
  wready = false;
  bvalid = false;
  bresp = 0;
  arready = false;
  rvalid = false;
  rdata = 0;
  rresp = 0;
}

-- operator ==
unfoldable pub same_lite_slave : LiteSlave → LiteSlave → Bool
same_lite_slave u v =
    same_bit u.awready v.awready
    && same_bit u.wready v.wready
    && same_bit u.bvalid v.bvalid
    && u.bresp == v.bresp
    && same_bit u.arready v.arready
    && same_bit u.rvalid v.rvalid
    && u.rdata == v.rdata
    && u.rresp == v.rresp
