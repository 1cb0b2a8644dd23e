-- ===== src/RiscvTop/Connected.antt =====
-- The core sees the ports, and the ports show what the core drives, one delta cycle later.
use riscv_v2f_optimized.Prelude.{◌≡◌, refl, ap}
use riscv_v2f_optimized.Axi.{Master, Master}
use riscv_v2f_optimized.RiscvTop.Signals.{RtlInputs, RtlOutputs}
use riscv_v2f_optimized.RiscvTop.Copy.{
  Pins, RiscvTop, bind_inputs, bind_outputs, copy_inputs, copy_axi_i_out, copy_axi_d_out,
  async_outputs,
}
use riscv_v2f_optimized.Delta.{Delta, Update-Follows}
use riscv_v2f_optimized.RiscvTop.{Watched, watched, drive, TopReaches, TopUpdate}

-- The direct connection of the core.
abbrev pub inputs_of : Pins → RtlInputs
inputs_of p = record {
  clk_i = p.clk_in;
  rst_i = p.rst_in;
  axi_i_awready_i = p.axi_i_in.awready;
  axi_i_wready_i = p.axi_i_in.wready;
  axi_i_bvalid_i = p.axi_i_in.bvalid;
  axi_i_bresp_i = p.axi_i_in.bresp;
  axi_i_bid_i = p.axi_i_in.bid;
  axi_i_arready_i = p.axi_i_in.arready;
  axi_i_rvalid_i = p.axi_i_in.rvalid;
  axi_i_rdata_i = p.axi_i_in.rdata;
  axi_i_rresp_i = p.axi_i_in.rresp;
  axi_i_rid_i = p.axi_i_in.rid;
  axi_i_rlast_i = p.axi_i_in.rlast;
  axi_d_awready_i = p.axi_d_in.awready;
  axi_d_wready_i = p.axi_d_in.wready;
  axi_d_bvalid_i = p.axi_d_in.bvalid;
  axi_d_bresp_i = p.axi_d_in.bresp;
  axi_d_bid_i = p.axi_d_in.bid;
  axi_d_arready_i = p.axi_d_in.arready;
  axi_d_rvalid_i = p.axi_d_in.rvalid;
  axi_d_rdata_i = p.axi_d_in.rdata;
  axi_d_rresp_i = p.axi_d_in.rresp;
  axi_d_rid_i = p.axi_d_in.rid;
  axi_d_rlast_i = p.axi_d_in.rlast;
  intr_i = p.intr_in;
  reset_vector_i = p.reset_vector_in;
}

abbrev pub driven_axi_i : RtlOutputs → Master
driven_axi_i o = record {
  awvalid = o.axi_i_awvalid_o;
  awaddr = o.axi_i_awaddr_o;
  awid = o.axi_i_awid_o;
  awlen = o.axi_i_awlen_o;
  awburst = o.axi_i_awburst_o;
  wvalid = o.axi_i_wvalid_o;
  wdata = o.axi_i_wdata_o;
  wstrb = o.axi_i_wstrb_o;
  wlast = o.axi_i_wlast_o;
  bready = o.axi_i_bready_o;
  arvalid = o.axi_i_arvalid_o;
  araddr = o.axi_i_araddr_o;
  arid = o.axi_i_arid_o;
  arlen = o.axi_i_arlen_o;
  arburst = o.axi_i_arburst_o;
  rready = o.axi_i_rready_o;
}

abbrev pub driven_axi_d : RtlOutputs → Master
driven_axi_d o = record {
  awvalid = o.axi_d_awvalid_o;
  awaddr = o.axi_d_awaddr_o;
  awid = o.axi_d_awid_o;
  awlen = o.axi_d_awlen_o;
  awburst = o.axi_d_awburst_o;
  wvalid = o.axi_d_wvalid_o;
  wdata = o.axi_d_wdata_o;
  wstrb = o.axi_d_wstrb_o;
  wlast = o.axi_d_wlast_o;
  bready = o.axi_d_bready_o;
  arvalid = o.axi_d_arvalid_o;
  araddr = o.axi_d_araddr_o;
  arid = o.axi_d_arid_o;
  arlen = o.axi_d_arlen_o;
  arburst = o.axi_d_arburst_o;
  rready = o.axi_d_rready_o;
}

-- The core sees in `new` the ports of `old`, and the ports for output carry what it drove there.
abbrev pub IsConnected : RiscvTop → RiscvTop → Type 0
IsConnected old new =
    (bind_inputs new.ins ≡ inputs_of old.pins)
    × (new.axi_i_out ≡ driven_axi_i old.rtl)
    × (new.axi_d_out ≡ driven_axi_d old.rtl)

async_outputs-IsConnected : (t : RiscvTop) → IsConnected t (async_outputs t)
unfolding bind_inputs bind_outputs copy_inputs copy_axi_i_out copy_axi_d_out async_outputs
async_outputs-IsConnected t = (refl, refl, refl)

-- What the process reads is what it is sensitive to.
watched_pins : Watched → Pins
watched_pins w = record {
  clk_in = w.watched_clk_in;
  rst_in = w.watched_rst_in;
  intr_in = w.watched_intr_in;
  reset_vector_in = w.watched_reset_vector_in;
  axi_i_in = w.watched_axi_i_in;
  axi_d_in = w.watched_axi_d_in;
}

watched_rtl : Watched → RtlOutputs
watched_rtl w = record {
  axi_i_awvalid_o = w.m_axi_i_awvalid_out;
  axi_i_awaddr_o = w.m_axi_i_awaddr_out;
  axi_i_awid_o = w.m_axi_i_awid_out;
  axi_i_awlen_o = w.m_axi_i_awlen_out;
  axi_i_awburst_o = w.m_axi_i_awburst_out;
  axi_i_wvalid_o = w.m_axi_i_wvalid_out;
  axi_i_wdata_o = w.m_axi_i_wdata_out;
  axi_i_wstrb_o = w.m_axi_i_wstrb_out;
  axi_i_wlast_o = w.m_axi_i_wlast_out;
  axi_i_bready_o = w.m_axi_i_bready_out;
  axi_i_arvalid_o = w.m_axi_i_arvalid_out;
  axi_i_araddr_o = w.m_axi_i_araddr_out;
  axi_i_arid_o = w.m_axi_i_arid_out;
  axi_i_arlen_o = w.m_axi_i_arlen_out;
  axi_i_arburst_o = w.m_axi_i_arburst_out;
  axi_i_rready_o = w.m_axi_i_rready_out;
  axi_d_awvalid_o = w.m_axi_d_awvalid_out;
  axi_d_awaddr_o = w.m_axi_d_awaddr_out;
  axi_d_awid_o = w.m_axi_d_awid_out;
  axi_d_awlen_o = w.m_axi_d_awlen_out;
  axi_d_awburst_o = w.m_axi_d_awburst_out;
  axi_d_wvalid_o = w.m_axi_d_wvalid_out;
  axi_d_wdata_o = w.m_axi_d_wdata_out;
  axi_d_wstrb_o = w.m_axi_d_wstrb_out;
  axi_d_wlast_o = w.m_axi_d_wlast_out;
  axi_d_bready_o = w.m_axi_d_bready_out;
  axi_d_arvalid_o = w.m_axi_d_arvalid_out;
  axi_d_araddr_o = w.m_axi_d_araddr_out;
  axi_d_arid_o = w.m_axi_d_arid_out;
  axi_d_arlen_o = w.m_axi_d_arlen_out;
  axi_d_arburst_o = w.m_axi_d_arburst_out;
  axi_d_rready_o = w.m_axi_d_rready_out;
}

same_pins : (t u : RiscvTop) → watched t ≡ watched u → t.pins ≡ u.pins
unfolding watched bind_outputs watched_pins
same_pins t u e = ap watched_pins e

same_rtl : (t u : RiscvTop) → watched t ≡ watched u → t.rtl ≡ u.rtl
unfolding watched bind_outputs watched_rtl
same_rtl t u e = ap watched_rtl e

driven-IsConnected :
    (env : Pins × RtlOutputs) (a b : RiscvTop) → IsConnected a b → IsConnected a (drive env b)
unfolding drive
driven-IsConnected env a b h = h

stays-IsConnected :
    (env : Pins × RtlOutputs) (a b : RiscvTop)
    → watched (drive env b) ≡ watched a
    → IsConnected a b
    → IsConnected (drive env b) (drive env b)
unfolding drive
stays-IsConnected env a b w h =
    let p = same_pins (drive env b) a w in let r = same_rtl (drive env b) a w in rw p (rw r h)

-- At each update phase of the simulation the core made by Verilator gets at its inputs what stood at
-- the ports of the wrapper before the update, and the two ports for output get what the core drove
-- before it: a direct connection, one delta cycle late, although async_outputs runs only when
-- something that it is sensitive to has changed.
pub Update-IsConnected :
    {start : RiscvTop} {d u : Delta RiscvTop}
    → TopReaches start d
    → TopUpdate d u
    → IsConnected d.now u.now
Update-IsConnected r u =
    Update-Follows async_outputs drive watched IsConnected async_outputs-IsConnected
      driven-IsConnected stays-IsConnected r u
