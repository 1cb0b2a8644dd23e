-- ===== src/TcmTop/Connected.antt =====
-- The core sees the ports, and the ports show what the core drives, one delta cycle later.
use riscv_v2f_optimized.Prelude.{◌≡◌, refl, ap}
use riscv_v2f_optimized.Axi.{Slave}
use riscv_v2f_optimized.AxiLite.{LiteMaster}
use riscv_v2f_optimized.TcmTop.Signals.{TcmRtlInputs, TcmRtlOutputs}
use riscv_v2f_optimized.TcmTop.Copy.{
  TcmPins, RiscvTcmTop, tcm_bind_inputs, tcm_bind_outputs, tcm_copy_inputs, tcm_copy_axi_i_out,
  tcm_copy_axi_t_out, tcm_async_outputs,
}
use riscv_v2f_optimized.Delta.{Delta, Update-Follows}
use riscv_v2f_optimized.TcmTop.{TcmWatched, tcm_watched, tcm_drive, TcmReaches, TcmUpdate}

-- The direct connection of the core.
abbrev pub tcm_inputs_of : TcmPins → TcmRtlInputs
tcm_inputs_of p = record {
  clk_i = p.clk_in;
  rst_i = p.rst_in;
  rst_cpu_i = p.rst_cpu_in;
  axi_i_awready_i = p.axi_i_in.awready;
  axi_i_wready_i = p.axi_i_in.wready;
  axi_i_bvalid_i = p.axi_i_in.bvalid;
  axi_i_bresp_i = p.axi_i_in.bresp;
  axi_i_arready_i = p.axi_i_in.arready;
  axi_i_rvalid_i = p.axi_i_in.rvalid;
  axi_i_rdata_i = p.axi_i_in.rdata;
  axi_i_rresp_i = p.axi_i_in.rresp;
  axi_t_awvalid_i = p.axi_t_in.awvalid;
  axi_t_awaddr_i = p.axi_t_in.awaddr;
  axi_t_awid_i = p.axi_t_in.awid;
  axi_t_awlen_i = p.axi_t_in.awlen;
  axi_t_awburst_i = p.axi_t_in.awburst;
  axi_t_wvalid_i = p.axi_t_in.wvalid;
  axi_t_wdata_i = p.axi_t_in.wdata;
  axi_t_wstrb_i = p.axi_t_in.wstrb;
  axi_t_wlast_i = p.axi_t_in.wlast;
  axi_t_bready_i = p.axi_t_in.bready;
  axi_t_arvalid_i = p.axi_t_in.arvalid;
  axi_t_araddr_i = p.axi_t_in.araddr;
  axi_t_arid_i = p.axi_t_in.arid;
  axi_t_arlen_i = p.axi_t_in.arlen;
  axi_t_arburst_i = p.axi_t_in.arburst;
  axi_t_rready_i = p.axi_t_in.rready;
  intr_i = p.intr_in;
}

abbrev pub tcm_driven_axi_i : TcmRtlOutputs → LiteMaster
tcm_driven_axi_i o = record {
  awvalid = o.axi_i_awvalid_o;
  awaddr = o.axi_i_awaddr_o;
  wvalid = o.axi_i_wvalid_o;
  wdata = o.axi_i_wdata_o;
  wstrb = o.axi_i_wstrb_o;
  bready = o.axi_i_bready_o;
  arvalid = o.axi_i_arvalid_o;
  araddr = o.axi_i_araddr_o;
  rready = o.axi_i_rready_o;
}

abbrev pub tcm_driven_axi_t : TcmRtlOutputs → Slave
tcm_driven_axi_t o = record {
  awready = o.axi_t_awready_o;
  wready = o.axi_t_wready_o;
  bvalid = o.axi_t_bvalid_o;
  bresp = o.axi_t_bresp_o;
  bid = o.axi_t_bid_o;
  arready = o.axi_t_arready_o;
  rvalid = o.axi_t_rvalid_o;
  rdata = o.axi_t_rdata_o;
  rresp = o.axi_t_rresp_o;
  rid = o.axi_t_rid_o;
  rlast = o.axi_t_rlast_o;
}

-- The core sees in `new` the ports of `old`, and the ports for output carry what it drove there.
abbrev pub IsTcmConnected : RiscvTcmTop → RiscvTcmTop → Type 0
IsTcmConnected old new =
    (tcm_bind_inputs new.ins ≡ tcm_inputs_of old.pins)
    × (new.axi_i_out ≡ tcm_driven_axi_i old.rtl)
    × (new.axi_t_out ≡ tcm_driven_axi_t old.rtl)

async_outputs-IsTcmConnected : (t : RiscvTcmTop) → IsTcmConnected t (tcm_async_outputs t)
unfolding tcm_bind_inputs tcm_bind_outputs tcm_copy_inputs tcm_copy_axi_i_out tcm_copy_axi_t_out
    tcm_async_outputs
async_outputs-IsTcmConnected t = (refl, refl, refl)

-- What the process reads is what it is sensitive to.
watched_pins : TcmWatched → TcmPins
watched_pins w = record {
  clk_in = w.watched_clk_in;
  rst_in = w.watched_rst_in;
  rst_cpu_in = w.watched_rst_cpu_in;
  intr_in = w.watched_intr_in;
  axi_i_in = w.watched_axi_i_in;
  axi_t_in = w.watched_axi_t_in;
}

watched_rtl : TcmWatched → TcmRtlOutputs
watched_rtl w = record {
  axi_i_awvalid_o = w.m_axi_i_awvalid_out;
  axi_i_awaddr_o = w.m_axi_i_awaddr_out;
  axi_i_wvalid_o = w.m_axi_i_wvalid_out;
  axi_i_wdata_o = w.m_axi_i_wdata_out;
  axi_i_wstrb_o = w.m_axi_i_wstrb_out;
  axi_i_bready_o = w.m_axi_i_bready_out;
  axi_i_arvalid_o = w.m_axi_i_arvalid_out;
  axi_i_araddr_o = w.m_axi_i_araddr_out;
  axi_i_rready_o = w.m_axi_i_rready_out;
  axi_t_awready_o = w.m_axi_t_awready_out;
  axi_t_wready_o = w.m_axi_t_wready_out;
  axi_t_bvalid_o = w.m_axi_t_bvalid_out;
  axi_t_bresp_o = w.m_axi_t_bresp_out;
  axi_t_bid_o = w.m_axi_t_bid_out;
  axi_t_arready_o = w.m_axi_t_arready_out;
  axi_t_rvalid_o = w.m_axi_t_rvalid_out;
  axi_t_rdata_o = w.m_axi_t_rdata_out;
  axi_t_rresp_o = w.m_axi_t_rresp_out;
  axi_t_rid_o = w.m_axi_t_rid_out;
  axi_t_rlast_o = w.m_axi_t_rlast_out;
}

same_pins : (t u : RiscvTcmTop) → tcm_watched t ≡ tcm_watched u → t.pins ≡ u.pins
unfolding tcm_watched tcm_bind_outputs watched_pins
same_pins t u e = ap watched_pins e

same_rtl : (t u : RiscvTcmTop) → tcm_watched t ≡ tcm_watched u → t.rtl ≡ u.rtl
unfolding tcm_watched tcm_bind_outputs watched_rtl
same_rtl t u e = ap watched_rtl e

driven-IsTcmConnected :
    (env : TcmPins × TcmRtlOutputs) (a b : RiscvTcmTop)
    → IsTcmConnected a b
    → IsTcmConnected a (tcm_drive env b)
unfolding tcm_drive
driven-IsTcmConnected env a b h = h

stays-IsTcmConnected :
    (env : TcmPins × TcmRtlOutputs) (a b : RiscvTcmTop)
    → tcm_watched (tcm_drive env b) ≡ tcm_watched a
    → IsTcmConnected a b
    → IsTcmConnected (tcm_drive env b) (tcm_drive env b)
unfolding tcm_drive
stays-IsTcmConnected env a b w h =
    let p = same_pins (tcm_drive env b) a w in
    let r = same_rtl (tcm_drive env b) a w in rw p (rw r h)

-- At each update phase of the simulation the core made by Verilator gets at its inputs what stood at
-- the ports of the wrapper before the update, and the two ports for output get what the core drove
-- before it: a direct connection, one delta cycle late, although async_outputs runs only when
-- something that it is sensitive to has changed.
pub Update-IsTcmConnected :
    {start : RiscvTcmTop} {d u : Delta RiscvTcmTop}
    → TcmReaches start d
    → TcmUpdate d u
    → IsTcmConnected d.now u.now
Update-IsTcmConnected r u =
    Update-Follows tcm_async_outputs tcm_drive tcm_watched IsTcmConnected
      async_outputs-IsTcmConnected driven-IsTcmConnected stays-IsTcmConnected r u
