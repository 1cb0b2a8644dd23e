-- ===== src/RiscvTop/Signals.antt =====
-- top_cache_axi/tb/riscv_top.cpp: the ports of the core, and the signals bound to them.
use riscv_v2f_optimized.Prelude.{ℕ, Bool}

-- The ports of Vriscv_top that the constructor binds, inputs and outputs.
pub record RtlInputs : Type 0 where
  pub clk_i : Bool
  pub rst_i : Bool
  pub axi_i_awready_i : Bool
  pub axi_i_wready_i : Bool
  pub axi_i_bvalid_i : Bool
  pub axi_i_bresp_i : ℕ
  pub axi_i_bid_i : ℕ
  pub axi_i_arready_i : Bool
  pub axi_i_rvalid_i : Bool
  pub axi_i_rdata_i : ℕ
  pub axi_i_rresp_i : ℕ
  pub axi_i_rid_i : ℕ
  pub axi_i_rlast_i : Bool
  pub axi_d_awready_i : Bool
  pub axi_d_wready_i : Bool
  pub axi_d_bvalid_i : Bool
  pub axi_d_bresp_i : ℕ
  pub axi_d_bid_i : ℕ
  pub axi_d_arready_i : Bool
  pub axi_d_rvalid_i : Bool
  pub axi_d_rdata_i : ℕ
  pub axi_d_rresp_i : ℕ
  pub axi_d_rid_i : ℕ
  pub axi_d_rlast_i : Bool
  pub intr_i : Bool
  pub reset_vector_i : ℕ

pub record RtlOutputs : Type 0 where
  pub axi_i_awvalid_o : Bool
  pub axi_i_awaddr_o : ℕ
  pub axi_i_awid_o : ℕ
  pub axi_i_awlen_o : ℕ
  pub axi_i_awburst_o : ℕ
  pub axi_i_wvalid_o : Bool
  pub axi_i_wdata_o : ℕ
  pub axi_i_wstrb_o : ℕ
  pub axi_i_wlast_o : Bool
  pub axi_i_bready_o : Bool
  pub axi_i_arvalid_o : Bool
  pub axi_i_araddr_o : ℕ
  pub axi_i_arid_o : ℕ
  pub axi_i_arlen_o : ℕ
  pub axi_i_arburst_o : ℕ
  pub axi_i_rready_o : Bool
  pub axi_d_awvalid_o : Bool
  pub axi_d_awaddr_o : ℕ
  pub axi_d_awid_o : ℕ
  pub axi_d_awlen_o : ℕ
  pub axi_d_awburst_o : ℕ
  pub axi_d_wvalid_o : Bool
  pub axi_d_wdata_o : ℕ
  pub axi_d_wstrb_o : ℕ
  pub axi_d_wlast_o : Bool
  pub axi_d_bready_o : Bool
  pub axi_d_arvalid_o : Bool
  pub axi_d_araddr_o : ℕ
  pub axi_d_arid_o : ℕ
  pub axi_d_arlen_o : ℕ
  pub axi_d_arburst_o : ℕ
  pub axi_d_rready_o : Bool

-- The signals bound to them.
pub record InSignals : Type 0 where
  pub m_clk_in : Bool
  pub m_rst_in : Bool
  pub m_axi_i_awready_in : Bool
  pub m_axi_i_wready_in : Bool
  pub m_axi_i_bvalid_in : Bool
  pub m_axi_i_bresp_in : ℕ
  pub m_axi_i_bid_in : ℕ
  pub m_axi_i_arready_in : Bool
  pub m_axi_i_rvalid_in : Bool
  pub m_axi_i_rdata_in : ℕ
  pub m_axi_i_rresp_in : ℕ
  pub m_axi_i_rid_in : ℕ
  pub m_axi_i_rlast_in : Bool
  pub m_axi_d_awready_in : Bool
  pub m_axi_d_wready_in : Bool
  pub m_axi_d_bvalid_in : Bool
  pub m_axi_d_bresp_in : ℕ
  pub m_axi_d_bid_in : ℕ
  pub m_axi_d_arready_in : Bool
  pub m_axi_d_rvalid_in : Bool
  pub m_axi_d_rdata_in : ℕ
  pub m_axi_d_rresp_in : ℕ
  pub m_axi_d_rid_in : ℕ
  pub m_axi_d_rlast_in : Bool
  pub m_intr_in : Bool
  pub m_reset_vector_in : ℕ

pub record OutSignals : Type 0 where
  pub m_axi_i_awvalid_out : Bool
  pub m_axi_i_awaddr_out : ℕ
  pub m_axi_i_awid_out : ℕ
  pub m_axi_i_awlen_out : ℕ
  pub m_axi_i_awburst_out : ℕ
  pub m_axi_i_wvalid_out : Bool
  pub m_axi_i_wdata_out : ℕ
  pub m_axi_i_wstrb_out : ℕ
  pub m_axi_i_wlast_out : Bool
  pub m_axi_i_bready_out : Bool
  pub m_axi_i_arvalid_out : Bool
  pub m_axi_i_araddr_out : ℕ
  pub m_axi_i_arid_out : ℕ
  pub m_axi_i_arlen_out : ℕ
  pub m_axi_i_arburst_out : ℕ
  pub m_axi_i_rready_out : Bool
  pub m_axi_d_awvalid_out : Bool
  pub m_axi_d_awaddr_out : ℕ
  pub m_axi_d_awid_out : ℕ
  pub m_axi_d_awlen_out : ℕ
  pub m_axi_d_awburst_out : ℕ
  pub m_axi_d_wvalid_out : Bool
  pub m_axi_d_wdata_out : ℕ
  pub m_axi_d_wstrb_out : ℕ
  pub m_axi_d_wlast_out : Bool
  pub m_axi_d_bready_out : Bool
  pub m_axi_d_arvalid_out : Bool
  pub m_axi_d_araddr_out : ℕ
  pub m_axi_d_arid_out : ℕ
  pub m_axi_d_arlen_out : ℕ
  pub m_axi_d_arburst_out : ℕ
  pub m_axi_d_rready_out : Bool
