-- ===== src/TcmTop/Signals.antt =====
-- top_tcm_axi/tb/riscv_tcm_top_rtl.cpp: the ports of the core, and the signals bound to them.
use riscv_v2f_optimized.Prelude.{ℕ, Bool}

-- The ports of Vriscv_tcm_top that the constructor binds, inputs and outputs.
pub record TcmRtlInputs : Type 0 where
  pub clk_i : Bool
  pub rst_i : Bool
  pub rst_cpu_i : Bool
  pub axi_i_awready_i : Bool
  pub axi_i_wready_i : Bool
  pub axi_i_bvalid_i : Bool
  pub axi_i_bresp_i : ℕ
  pub axi_i_arready_i : Bool
  pub axi_i_rvalid_i : Bool
  pub axi_i_rdata_i : ℕ
  pub axi_i_rresp_i : ℕ
  pub axi_t_awvalid_i : Bool
  pub axi_t_awaddr_i : ℕ
  pub axi_t_awid_i : ℕ
  pub axi_t_awlen_i : ℕ
  pub axi_t_awburst_i : ℕ
  pub axi_t_wvalid_i : Bool
  pub axi_t_wdata_i : ℕ
  pub axi_t_wstrb_i : ℕ
  pub axi_t_wlast_i : Bool
  pub axi_t_bready_i : Bool
  pub axi_t_arvalid_i : Bool
  pub axi_t_araddr_i : ℕ
  pub axi_t_arid_i : ℕ
  pub axi_t_arlen_i : ℕ
  pub axi_t_arburst_i : ℕ
  pub axi_t_rready_i : Bool
  pub intr_i : ℕ

pub record TcmRtlOutputs : Type 0 where
  pub axi_i_awvalid_o : Bool
  pub axi_i_awaddr_o : ℕ
  pub axi_i_wvalid_o : Bool
  pub axi_i_wdata_o : ℕ
  pub axi_i_wstrb_o : ℕ
  pub axi_i_bready_o : Bool
  pub axi_i_arvalid_o : Bool
  pub axi_i_araddr_o : ℕ
  pub axi_i_rready_o : Bool
  pub axi_t_awready_o : Bool
  pub axi_t_wready_o : Bool
  pub axi_t_bvalid_o : Bool
  pub axi_t_bresp_o : ℕ
  pub axi_t_bid_o : ℕ
  pub axi_t_arready_o : Bool
  pub axi_t_rvalid_o : Bool
  pub axi_t_rdata_o : ℕ
  pub axi_t_rresp_o : ℕ
  pub axi_t_rid_o : ℕ
  pub axi_t_rlast_o : Bool

-- The signals bound to them.
pub record TcmInSignals : Type 0 where
  pub m_clk_in : Bool
  pub m_rst_in : Bool
  pub m_rst_cpu_in : Bool
  pub m_axi_i_awready_in : Bool
  pub m_axi_i_wready_in : Bool
  pub m_axi_i_bvalid_in : Bool
  pub m_axi_i_bresp_in : ℕ
  pub m_axi_i_arready_in : Bool
  pub m_axi_i_rvalid_in : Bool
  pub m_axi_i_rdata_in : ℕ
  pub m_axi_i_rresp_in : ℕ
  pub m_axi_t_awvalid_in : Bool
  pub m_axi_t_awaddr_in : ℕ
  pub m_axi_t_awid_in : ℕ
  pub m_axi_t_awlen_in : ℕ
  pub m_axi_t_awburst_in : ℕ
  pub m_axi_t_wvalid_in : Bool
  pub m_axi_t_wdata_in : ℕ
  pub m_axi_t_wstrb_in : ℕ
  pub m_axi_t_wlast_in : Bool
  pub m_axi_t_bready_in : Bool
  pub m_axi_t_arvalid_in : Bool
  pub m_axi_t_araddr_in : ℕ
  pub m_axi_t_arid_in : ℕ
  pub m_axi_t_arlen_in : ℕ
  pub m_axi_t_arburst_in : ℕ
  pub m_axi_t_rready_in : Bool
  pub m_intr_in : ℕ

pub record TcmOutSignals : Type 0 where
  pub m_axi_i_awvalid_out : Bool
  pub m_axi_i_awaddr_out : ℕ
  pub m_axi_i_wvalid_out : Bool
  pub m_axi_i_wdata_out : ℕ
  pub m_axi_i_wstrb_out : ℕ
  pub m_axi_i_bready_out : Bool
  pub m_axi_i_arvalid_out : Bool
  pub m_axi_i_araddr_out : ℕ
  pub m_axi_i_rready_out : Bool
  pub m_axi_t_awready_out : Bool
  pub m_axi_t_wready_out : Bool
  pub m_axi_t_bvalid_out : Bool
  pub m_axi_t_bresp_out : ℕ
  pub m_axi_t_bid_out : ℕ
  pub m_axi_t_arready_out : Bool
  pub m_axi_t_rvalid_out : Bool
  pub m_axi_t_rdata_out : ℕ
  pub m_axi_t_rresp_out : ℕ
  pub m_axi_t_rid_out : ℕ
  pub m_axi_t_rlast_out : Bool
