-- ===== src/RiscvTop.antt =====
-- top_cache_axi/tb/riscv_top.cpp and .h: the wrapper that copies signals between the ports of the
-- testbench and those of the core made by Verilator. The core is not in the repository: its outputs are
-- driven by its environment. A signal of one bit is a Bool.
pub mod Signals
pub mod Copy
pub mod Connected
use riscv_v2f_optimized.Prelude.{ℕ, Bool, ◌≡◌}
use riscv_v2f_optimized.Axi.{Master, Slave}
use riscv_v2f_optimized.Delta.{Delta, Reaches, Update}
use riscv_v2f_optimized.RiscvTop.Signals.{RtlInputs, RtlOutputs, InSignals, OutSignals}
use riscv_v2f_optimized.RiscvTop.Copy.{
  Pins, RiscvTop, bind_inputs, bind_outputs, copy_inputs, copy_axi_i_out, copy_axi_d_out,
  async_outputs,
}

-- What the process is sensitive to.
pub record Watched : Type 0 where
  pub watched_clk_in : Bool
  pub watched_rst_in : Bool
  pub watched_intr_in : Bool
  pub watched_reset_vector_in : ℕ
  pub watched_axi_i_in : Slave
  pub watched_axi_d_in : Slave
  pub m_axi_i_awvalid_out : Bool
  pub m_axi_i_awaddr_out : ℕ
  pub m_axi_i_awid_out : ℕ
  pub m_axi_i_awlen_out : ℕ
  pub m_axi_i_awburst_out : ℕ
  pub m_axi_i_wvalid_out : Bool
  pub m_axi_i_wdata_out : ℕ
  pub m_axi_i_wstrb_out : ℕ
  pub m_axi_i_wlast_out : Bool
  pub m_axi_i_bready_out : Bool
  pub m_axi_i_arvalid_out : Bool
  pub m_axi_i_araddr_out : ℕ
  pub m_axi_i_arid_out : ℕ
  pub m_axi_i_arlen_out : ℕ
  pub m_axi_i_arburst_out : ℕ
  pub m_axi_i_rready_out : Bool
  pub m_axi_d_awvalid_out : Bool
  pub m_axi_d_awaddr_out : ℕ
  pub m_axi_d_awid_out : ℕ
  pub m_axi_d_awlen_out : ℕ
  pub m_axi_d_awburst_out : ℕ
  pub m_axi_d_wvalid_out : Bool
  pub m_axi_d_wdata_out : ℕ
  pub m_axi_d_wstrb_out : ℕ
  pub m_axi_d_wlast_out : Bool
  pub m_axi_d_bready_out : Bool
  pub m_axi_d_arvalid_out : Bool
  pub m_axi_d_araddr_out : ℕ
  pub m_axi_d_arid_out : ℕ
  pub m_axi_d_arlen_out : ℕ
  pub m_axi_d_arburst_out : ℕ
  pub m_axi_d_rready_out : Bool

unfoldable pub watched : RiscvTop → Watched
watched t =
    let s = bind_outputs t.rtl in
    record {
      watched_clk_in = t.pins.clk_in;
      watched_rst_in = t.pins.rst_in;
      watched_intr_in = t.pins.intr_in;
      watched_reset_vector_in = t.pins.reset_vector_in;
      watched_axi_i_in = t.pins.axi_i_in;
      watched_axi_d_in = t.pins.axi_d_in;
      m_axi_i_awvalid_out = s.m_axi_i_awvalid_out;
      m_axi_i_awaddr_out = s.m_axi_i_awaddr_out;
      m_axi_i_awid_out = s.m_axi_i_awid_out;
      m_axi_i_awlen_out = s.m_axi_i_awlen_out;
      m_axi_i_awburst_out = s.m_axi_i_awburst_out;
      m_axi_i_wvalid_out = s.m_axi_i_wvalid_out;
      m_axi_i_wdata_out = s.m_axi_i_wdata_out;
      m_axi_i_wstrb_out = s.m_axi_i_wstrb_out;
      m_axi_i_wlast_out = s.m_axi_i_wlast_out;
      m_axi_i_bready_out = s.m_axi_i_bready_out;
      m_axi_i_arvalid_out = s.m_axi_i_arvalid_out;
      m_axi_i_araddr_out = s.m_axi_i_araddr_out;
      m_axi_i_arid_out = s.m_axi_i_arid_out;
      m_axi_i_arlen_out = s.m_axi_i_arlen_out;
      m_axi_i_arburst_out = s.m_axi_i_arburst_out;
      m_axi_i_rready_out = s.m_axi_i_rready_out;
      m_axi_d_awvalid_out = s.m_axi_d_awvalid_out;
      m_axi_d_awaddr_out = s.m_axi_d_awaddr_out;
      m_axi_d_awid_out = s.m_axi_d_awid_out;
      m_axi_d_awlen_out = s.m_axi_d_awlen_out;
      m_axi_d_awburst_out = s.m_axi_d_awburst_out;
      m_axi_d_wvalid_out = s.m_axi_d_wvalid_out;
      m_axi_d_wdata_out = s.m_axi_d_wdata_out;
      m_axi_d_wstrb_out = s.m_axi_d_wstrb_out;
      m_axi_d_wlast_out = s.m_axi_d_wlast_out;
      m_axi_d_bready_out = s.m_axi_d_bready_out;
      m_axi_d_arvalid_out = s.m_axi_d_arvalid_out;
      m_axi_d_araddr_out = s.m_axi_d_araddr_out;
      m_axi_d_arid_out = s.m_axi_d_arid_out;
      m_axi_d_arlen_out = s.m_axi_d_arlen_out;
      m_axi_d_arburst_out = s.m_axi_d_arburst_out;
      m_axi_d_rready_out = s.m_axi_d_rready_out;
    }

-- What the environment writes to the ports and the core to its outputs.
unfoldable pub drive : Pins × RtlOutputs → RiscvTop → RiscvTop
drive (pins, rtl) t = record t { pins = pins; rtl = rtl }

-- The wrapper under SystemC's scheduler.
abbrev pub TopReaches : RiscvTop → Delta RiscvTop → Type 0
TopReaches = Reaches async_outputs drive watched

abbrev pub TopUpdate : Delta RiscvTop → Delta RiscvTop → Type 0
TopUpdate = Update async_outputs drive watched
