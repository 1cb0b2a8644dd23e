-- ===== src/RiscvTop/Copy.antt =====
-- top_cache_axi/tb/riscv_top.cpp: the constructor's bindings, and async_outputs.
use riscv_v2f_optimized.Prelude.{ℕ, Bool}
use riscv_v2f_optimized.Axi.{Master, Slave}
use riscv_v2f_optimized.RiscvTop.Signals.{RtlInputs, RtlOutputs, InSignals, OutSignals}

-- The ports of type sc_in.
pub record Pins : Type 0 where
  pub clk_in : Bool
  pub rst_in : Bool
  pub intr_in : Bool
  pub reset_vector_in : ℕ
  pub axi_i_in : Slave
  pub axi_d_in : Slave

-- The module: what its environment drives, the signals to the core, and the ports of type sc_out.
pub record RiscvTop : Type 0 where
  pub pins : Pins
  pub rtl : RtlOutputs
  pub ins : InSignals
  pub axi_i_out : Master
  pub axi_d_out : Master

-- m_rtl->PORT(SIGNAL)
unfoldable pub bind_inputs : InSignals → RtlInputs
bind_inputs s = record {
  clk_i = s.m_clk_in;
  rst_i = s.m_rst_in;
  axi_i_awready_i = s.m_axi_i_awready_in;
  axi_i_wready_i = s.m_axi_i_wready_in;
  axi_i_bvalid_i = s.m_axi_i_bvalid_in;
  axi_i_bresp_i = s.m_axi_i_bresp_in;
  axi_i_bid_i = s.m_axi_i_bid_in;
  axi_i_arready_i = s.m_axi_i_arready_in;
  axi_i_rvalid_i = s.m_axi_i_rvalid_in;
  axi_i_rdata_i = s.m_axi_i_rdata_in;
  axi_i_rresp_i = s.m_axi_i_rresp_in;
  axi_i_rid_i = s.m_axi_i_rid_in;
  axi_i_rlast_i = s.m_axi_i_rlast_in;
  axi_d_awready_i = s.m_axi_d_awready_in;
  axi_d_wready_i = s.m_axi_d_wready_in;
  axi_d_bvalid_i = s.m_axi_d_bvalid_in;
  axi_d_bresp_i = s.m_axi_d_bresp_in;
  axi_d_bid_i = s.m_axi_d_bid_in;
  axi_d_arready_i = s.m_axi_d_arready_in;
  axi_d_rvalid_i = s.m_axi_d_rvalid_in;
  axi_d_rdata_i = s.m_axi_d_rdata_in;
  axi_d_rresp_i = s.m_axi_d_rresp_in;
  axi_d_rid_i = s.m_axi_d_rid_in;
  axi_d_rlast_i = s.m_axi_d_rlast_in;
  intr_i = s.m_intr_in;
  reset_vector_i = s.m_reset_vector_in;
}

unfoldable pub bind_outputs : RtlOutputs → OutSignals
bind_outputs o = record {
  m_axi_i_awvalid_out = o.axi_i_awvalid_o;
  m_axi_i_awaddr_out = o.axi_i_awaddr_o;
  m_axi_i_awid_out = o.axi_i_awid_o;
  m_axi_i_awlen_out = o.axi_i_awlen_o;
  m_axi_i_awburst_out = o.axi_i_awburst_o;
  m_axi_i_wvalid_out = o.axi_i_wvalid_o;
  m_axi_i_wdata_out = o.axi_i_wdata_o;
  m_axi_i_wstrb_out = o.axi_i_wstrb_o;
  m_axi_i_wlast_out = o.axi_i_wlast_o;
  m_axi_i_bready_out = o.axi_i_bready_o;
  m_axi_i_arvalid_out = o.axi_i_arvalid_o;
  m_axi_i_araddr_out = o.axi_i_araddr_o;
  m_axi_i_arid_out = o.axi_i_arid_o;
  m_axi_i_arlen_out = o.axi_i_arlen_o;
  m_axi_i_arburst_out = o.axi_i_arburst_o;
  m_axi_i_rready_out = o.axi_i_rready_o;
  m_axi_d_awvalid_out = o.axi_d_awvalid_o;
  m_axi_d_awaddr_out = o.axi_d_awaddr_o;
  m_axi_d_awid_out = o.axi_d_awid_o;
  m_axi_d_awlen_out = o.axi_d_awlen_o;
  m_axi_d_awburst_out = o.axi_d_awburst_o;
  m_axi_d_wvalid_out = o.axi_d_wvalid_o;
  m_axi_d_wdata_out = o.axi_d_wdata_o;
  m_axi_d_wstrb_out = o.axi_d_wstrb_o;
  m_axi_d_wlast_out = o.axi_d_wlast_o;
  m_axi_d_bready_out = o.axi_d_bready_o;
  m_axi_d_arvalid_out = o.axi_d_arvalid_o;
  m_axi_d_araddr_out = o.axi_d_araddr_o;
  m_axi_d_arid_out = o.axi_d_arid_o;
  m_axi_d_arlen_out = o.axi_d_arlen_o;
  m_axi_d_arburst_out = o.axi_d_arburst_o;
  m_axi_d_rready_out = o.axi_d_rready_o;
}

-- async_outputs: what it writes to the signals of the core, and to the ports.
unfoldable pub copy_inputs : RiscvTop → InSignals
copy_inputs t = record {
  m_clk_in = t.pins.clk_in;
  m_rst_in = t.pins.rst_in;
  m_intr_in = t.pins.intr_in;
  m_reset_vector_in = t.pins.reset_vector_in;
  m_axi_i_awready_in = t.pins.axi_i_in.awready;
  m_axi_i_wready_in = t.pins.axi_i_in.wready;
  m_axi_i_bvalid_in = t.pins.axi_i_in.bvalid;
  m_axi_i_bresp_in = t.pins.axi_i_in.bresp;
  m_axi_i_bid_in = t.pins.axi_i_in.bid;
  m_axi_i_arready_in = t.pins.axi_i_in.arready;
  m_axi_i_rvalid_in = t.pins.axi_i_in.rvalid;
  m_axi_i_rdata_in = t.pins.axi_i_in.rdata;
  m_axi_i_rresp_in = t.pins.axi_i_in.rresp;
  m_axi_i_rid_in = t.pins.axi_i_in.rid;
  m_axi_i_rlast_in = t.pins.axi_i_in.rlast;
  m_axi_d_awready_in = t.pins.axi_d_in.awready;
  m_axi_d_wready_in = t.pins.axi_d_in.wready;
  m_axi_d_bvalid_in = t.pins.axi_d_in.bvalid;
  m_axi_d_bresp_in = t.pins.axi_d_in.bresp;
  m_axi_d_bid_in = t.pins.axi_d_in.bid;
  m_axi_d_arready_in = t.pins.axi_d_in.arready;
  m_axi_d_rvalid_in = t.pins.axi_d_in.rvalid;
  m_axi_d_rdata_in = t.pins.axi_d_in.rdata;
  m_axi_d_rresp_in = t.pins.axi_d_in.rresp;
  m_axi_d_rid_in = t.pins.axi_d_in.rid;
  m_axi_d_rlast_in = t.pins.axi_d_in.rlast;
}

unfoldable pub copy_axi_i_out : RiscvTop → Master
copy_axi_i_out t =
    let s = bind_outputs t.rtl in
    record {
      awvalid = s.m_axi_i_awvalid_out;
      awaddr = s.m_axi_i_awaddr_out;
      awid = s.m_axi_i_awid_out;
      awlen = s.m_axi_i_awlen_out;
      awburst = s.m_axi_i_awburst_out;
      wvalid = s.m_axi_i_wvalid_out;
      wdata = s.m_axi_i_wdata_out;
      wstrb = s.m_axi_i_wstrb_out;
      wlast = s.m_axi_i_wlast_out;
      bready = s.m_axi_i_bready_out;
      arvalid = s.m_axi_i_arvalid_out;
      araddr = s.m_axi_i_araddr_out;
      arid = s.m_axi_i_arid_out;
      arlen = s.m_axi_i_arlen_out;
      arburst = s.m_axi_i_arburst_out;
      rready = s.m_axi_i_rready_out;
    }

unfoldable pub copy_axi_d_out : RiscvTop → Master
copy_axi_d_out t =
    let s = bind_outputs t.rtl in
    record {
      awvalid = s.m_axi_d_awvalid_out;
      awaddr = s.m_axi_d_awaddr_out;
      awid = s.m_axi_d_awid_out;
      awlen = s.m_axi_d_awlen_out;
      awburst = s.m_axi_d_awburst_out;
      wvalid = s.m_axi_d_wvalid_out;
      wdata = s.m_axi_d_wdata_out;
      wstrb = s.m_axi_d_wstrb_out;
      wlast = s.m_axi_d_wlast_out;
      bready = s.m_axi_d_bready_out;
      arvalid = s.m_axi_d_arvalid_out;
      araddr = s.m_axi_d_araddr_out;
      arid = s.m_axi_d_arid_out;
      arlen = s.m_axi_d_arlen_out;
      arburst = s.m_axi_d_arburst_out;
      rready = s.m_axi_d_rready_out;
    }

unfoldable pub async_outputs : RiscvTop → RiscvTop
async_outputs t = record t {
  ins = copy_inputs t;
  axi_i_out = copy_axi_i_out t;
  axi_d_out = copy_axi_d_out t;
}
