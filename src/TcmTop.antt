-- ===== src/TcmTop.antt =====
-- top_tcm_axi/tb/riscv_tcm_top_rtl.cpp and .h: the wrapper that copies signals between the ports of the
-- testbench and those of the core made by Verilator. The core is not in the repository: its outputs are
-- driven by its environment. A signal of one bit is a Bool.
pub mod Signals
pub mod Copy
pub mod Connected
use riscv_v2f_optimized.Prelude.{ℕ, Bool, ◌≡◌}
use riscv_v2f_optimized.Axi.{Master, Slave}
use riscv_v2f_optimized.AxiLite.{LiteMaster, LiteSlave}
use riscv_v2f_optimized.Delta.{Delta, Reaches, Update}
use riscv_v2f_optimized.TcmTop.Signals.{TcmRtlInputs, TcmRtlOutputs, TcmInSignals, TcmOutSignals}
use riscv_v2f_optimized.TcmTop.Copy.{
  TcmPins, RiscvTcmTop, tcm_bind_inputs, tcm_bind_outputs, tcm_copy_inputs, tcm_copy_axi_i_out,
  tcm_copy_axi_t_out, tcm_async_outputs,
}

-- What the process is sensitive to.
pub record TcmWatched : Type 0 where
  pub watched_clk_in : Bool
  pub watched_rst_in : Bool
  pub watched_rst_cpu_in : Bool
  pub watched_intr_in : ℕ
  pub watched_axi_i_in : LiteSlave
  pub watched_axi_t_in : Master
  pub m_axi_i_awvalid_out : Bool
  pub m_axi_i_awaddr_out : ℕ
  pub m_axi_i_wvalid_out : Bool
  pub m_axi_i_wdata_out : ℕ
  pub m_axi_i_wstrb_out : ℕ
  pub m_axi_i_bready_out : Bool
  pub m_axi_i_arvalid_out : Bool
  pub m_axi_i_araddr_out : ℕ
  pub m_axi_i_rready_out : Bool
  pub m_axi_t_awready_out : Bool
  pub m_axi_t_wready_out : Bool
  pub m_axi_t_bvalid_out : Bool
  pub m_axi_t_bresp_out : ℕ
  pub m_axi_t_bid_out : ℕ
  pub m_axi_t_arready_out : Bool
  pub m_axi_t_rvalid_out : Bool
  pub m_axi_t_rdata_out : ℕ
  pub m_axi_t_rresp_out : ℕ
  pub m_axi_t_rid_out : ℕ
  pub m_axi_t_rlast_out : Bool

unfoldable pub tcm_watched : RiscvTcmTop → TcmWatched
tcm_watched t =
    let s = tcm_bind_outputs t.rtl in
    record {
      watched_clk_in = t.pins.clk_in;
      watched_rst_in = t.pins.rst_in;
      watched_rst_cpu_in = t.pins.rst_cpu_in;
      watched_intr_in = t.pins.intr_in;
      watched_axi_i_in = t.pins.axi_i_in;
      watched_axi_t_in = t.pins.axi_t_in;
      m_axi_i_awvalid_out = s.m_axi_i_awvalid_out;
      m_axi_i_awaddr_out = s.m_axi_i_awaddr_out;
      m_axi_i_wvalid_out = s.m_axi_i_wvalid_out;
      m_axi_i_wdata_out = s.m_axi_i_wdata_out;
      m_axi_i_wstrb_out = s.m_axi_i_wstrb_out;
      m_axi_i_bready_out = s.m_axi_i_bready_out;
      m_axi_i_arvalid_out = s.m_axi_i_arvalid_out;
      m_axi_i_araddr_out = s.m_axi_i_araddr_out;
      m_axi_i_rready_out = s.m_axi_i_rready_out;
      m_axi_t_awready_out = s.m_axi_t_awready_out;
      m_axi_t_wready_out = s.m_axi_t_wready_out;
      m_axi_t_bvalid_out = s.m_axi_t_bvalid_out;
      m_axi_t_bresp_out = s.m_axi_t_bresp_out;
      m_axi_t_bid_out = s.m_axi_t_bid_out;
      m_axi_t_arready_out = s.m_axi_t_arready_out;
      m_axi_t_rvalid_out = s.m_axi_t_rvalid_out;
      m_axi_t_rdata_out = s.m_axi_t_rdata_out;
      m_axi_t_rresp_out = s.m_axi_t_rresp_out;
      m_axi_t_rid_out = s.m_axi_t_rid_out;
      m_axi_t_rlast_out = s.m_axi_t_rlast_out;
    }

-- What the environment writes to the ports and the core to its outputs.
unfoldable pub tcm_drive : TcmPins × TcmRtlOutputs → RiscvTcmTop → RiscvTcmTop
tcm_drive (pins, rtl) t = record t { pins = pins; rtl = rtl }

-- The wrapper under SystemC's scheduler.
abbrev pub TcmReaches : RiscvTcmTop → Delta RiscvTcmTop → Type 0
TcmReaches = Reaches tcm_async_outputs tcm_drive tcm_watched

abbrev pub TcmUpdate : Delta RiscvTcmTop → Delta RiscvTcmTop → Type 0
TcmUpdate = Update tcm_async_outputs tcm_drive tcm_watched
