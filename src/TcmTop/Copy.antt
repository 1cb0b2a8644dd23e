-- ===== src/TcmTop/Copy.antt =====
-- top_tcm_axi/tb/riscv_tcm_top_rtl.cpp: the constructor's bindings, and async_outputs.
use riscv_v2f_optimized.Prelude.{ℕ, Bool}
use riscv_v2f_optimized.Axi.{Master, Slave}
use riscv_v2f_optimized.AxiLite.{LiteMaster, LiteSlave}
use riscv_v2f_optimized.TcmTop.Signals.{TcmRtlInputs, TcmRtlOutputs, TcmInSignals, TcmOutSignals}

-- The ports of type sc_in.
pub record TcmPins : Type 0 where
  pub clk_in : Bool
  pub rst_in : Bool
  pub rst_cpu_in : Bool
  pub intr_in : ℕ
  pub axi_i_in : LiteSlave
  pub axi_t_in : Master

-- The module: what its environment drives, the signals to the core, and the ports of type sc_out.
pub record RiscvTcmTop : Type 0 where
  pub pins : TcmPins
  pub rtl : TcmRtlOutputs
  pub ins : TcmInSignals
  pub axi_i_out : LiteMaster
  pub axi_t_out : Slave

-- m_rtl->PORT(SIGNAL)
unfoldable pub tcm_bind_inputs : TcmInSignals → TcmRtlInputs
tcm_bind_inputs s = record {
  clk_i = s.m_clk_in;
  rst_i = s.m_rst_in;
  rst_cpu_i = s.m_rst_cpu_in;
  axi_i_awready_i = s.m_axi_i_awready_in;
  axi_i_wready_i = s.m_axi_i_wready_in;
  axi_i_bvalid_i = s.m_axi_i_bvalid_in;
  axi_i_bresp_i = s.m_axi_i_bresp_in;
  axi_i_arready_i = s.m_axi_i_arready_in;
  axi_i_rvalid_i = s.m_axi_i_rvalid_in;
  axi_i_rdata_i = s.m_axi_i_rdata_in;
  axi_i_rresp_i = s.m_axi_i_rresp_in;
  axi_t_awvalid_i = s.m_axi_t_awvalid_in;
  axi_t_awaddr_i = s.m_axi_t_awaddr_in;
  axi_t_awid_i = s.m_axi_t_awid_in;
  axi_t_awlen_i = s.m_axi_t_awlen_in;
  axi_t_awburst_i = s.m_axi_t_awburst_in;
  axi_t_wvalid_i = s.m_axi_t_wvalid_in;
  axi_t_wdata_i = s.m_axi_t_wdata_in;
  axi_t_wstrb_i = s.m_axi_t_wstrb_in;
  axi_t_wlast_i = s.m_axi_t_wlast_in;
  axi_t_bready_i = s.m_axi_t_bready_in;
  axi_t_arvalid_i = s.m_axi_t_arvalid_in;
  axi_t_araddr_i = s.m_axi_t_araddr_in;
  axi_t_arid_i = s.m_axi_t_arid_in;
  axi_t_arlen_i = s.m_axi_t_arlen_in;
  axi_t_arburst_i = s.m_axi_t_arburst_in;
  axi_t_rready_i = s.m_axi_t_rready_in;
  intr_i = s.m_intr_in;
}

unfoldable pub tcm_bind_outputs : TcmRtlOutputs → TcmOutSignals
tcm_bind_outputs o = record {
  m_axi_i_awvalid_out = o.axi_i_awvalid_o;
  m_axi_i_awaddr_out = o.axi_i_awaddr_o;
  m_axi_i_wvalid_out = o.axi_i_wvalid_o;
  m_axi_i_wdata_out = o.axi_i_wdata_o;
  m_axi_i_wstrb_out = o.axi_i_wstrb_o;
  m_axi_i_bready_out = o.axi_i_bready_o;
  m_axi_i_arvalid_out = o.axi_i_arvalid_o;
  m_axi_i_araddr_out = o.axi_i_araddr_o;
  m_axi_i_rready_out = o.axi_i_rready_o;
  m_axi_t_awready_out = o.axi_t_awready_o;
  m_axi_t_wready_out = o.axi_t_wready_o;
  m_axi_t_bvalid_out = o.axi_t_bvalid_o;
  m_axi_t_bresp_out = o.axi_t_bresp_o;
  m_axi_t_bid_out = o.axi_t_bid_o;
  m_axi_t_arready_out = o.axi_t_arready_o;
  m_axi_t_rvalid_out = o.axi_t_rvalid_o;
  m_axi_t_rdata_out = o.axi_t_rdata_o;
  m_axi_t_rresp_out = o.axi_t_rresp_o;
  m_axi_t_rid_out = o.axi_t_rid_o;
  m_axi_t_rlast_out = o.axi_t_rlast_o;
}

-- async_outputs: what it writes to the signals of the core, and to the ports.
unfoldable pub tcm_copy_inputs : RiscvTcmTop → TcmInSignals
tcm_copy_inputs t = record {
  m_clk_in = t.pins.clk_in;
  m_rst_in = t.pins.rst_in;
  m_rst_cpu_in = t.pins.rst_cpu_in;
  m_intr_in = t.pins.intr_in;
  m_axi_i_awready_in = t.pins.axi_i_in.awready;
  m_axi_i_wready_in = t.pins.axi_i_in.wready;
  m_axi_i_bvalid_in = t.pins.axi_i_in.bvalid;
  m_axi_i_bresp_in = t.pins.axi_i_in.bresp;
  m_axi_i_arready_in = t.pins.axi_i_in.arready;
  m_axi_i_rvalid_in = t.pins.axi_i_in.rvalid;
  m_axi_i_rdata_in = t.pins.axi_i_in.rdata;
  m_axi_i_rresp_in = t.pins.axi_i_in.rresp;
  m_axi_t_awvalid_in = t.pins.axi_t_in.awvalid;
  m_axi_t_awaddr_in = t.pins.axi_t_in.awaddr;
  m_axi_t_awid_in = t.pins.axi_t_in.awid;
  m_axi_t_awlen_in = t.pins.axi_t_in.awlen;
  m_axi_t_awburst_in = t.pins.axi_t_in.awburst;
  m_axi_t_wvalid_in = t.pins.axi_t_in.wvalid;
  m_axi_t_wdata_in = t.pins.axi_t_in.wdata;
  m_axi_t_wstrb_in = t.pins.axi_t_in.wstrb;
  m_axi_t_wlast_in = t.pins.axi_t_in.wlast;
  m_axi_t_bready_in = t.pins.axi_t_in.bready;
  m_axi_t_arvalid_in = t.pins.axi_t_in.arvalid;
  m_axi_t_araddr_in = t.pins.axi_t_in.araddr;
  m_axi_t_arid_in = t.pins.axi_t_in.arid;
  m_axi_t_arlen_in = t.pins.axi_t_in.arlen;
  m_axi_t_arburst_in = t.pins.axi_t_in.arburst;
  m_axi_t_rready_in = t.pins.axi_t_in.rready;
}

unfoldable pub tcm_copy_axi_i_out : RiscvTcmTop → LiteMaster
tcm_copy_axi_i_out t =
    let s = tcm_bind_outputs t.rtl in
    record {
      awvalid = s.m_axi_i_awvalid_out;
      awaddr = s.m_axi_i_awaddr_out;
      wvalid = s.m_axi_i_wvalid_out;
      wdata = s.m_axi_i_wdata_out;
      wstrb = s.m_axi_i_wstrb_out;
      bready = s.m_axi_i_bready_out;
      arvalid = s.m_axi_i_arvalid_out;
      araddr = s.m_axi_i_araddr_out;
      rready = s.m_axi_i_rready_out;
    }

unfoldable pub tcm_copy_axi_t_out : RiscvTcmTop → Slave
tcm_copy_axi_t_out t =
    let s = tcm_bind_outputs t.rtl in
    record {
      awready = s.m_axi_t_awready_out;
      wready = s.m_axi_t_wready_out;
      bvalid = s.m_axi_t_bvalid_out;
      bresp = s.m_axi_t_bresp_out;
      bid = s.m_axi_t_bid_out;
      arready = s.m_axi_t_arready_out;
      rvalid = s.m_axi_t_rvalid_out;
      rdata = s.m_axi_t_rdata_out;
      rresp = s.m_axi_t_rresp_out;
      rid = s.m_axi_t_rid_out;
      rlast = s.m_axi_t_rlast_out;
    }

unfoldable pub tcm_async_outputs : RiscvTcmTop → RiscvTcmTop
tcm_async_outputs t = record t {
  ins = tcm_copy_inputs t;
  axi_i_out = tcm_copy_axi_i_out t;
  axi_t_out = tcm_copy_axi_t_out t;
}
