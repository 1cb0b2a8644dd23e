-- ===== src/Examples/Wrappers.antt =====
-- The wrappers with a request on their ports, a command line, and the end of a run.
use Prim.Native.String.{String}
use riscv_v2f_optimized.Prelude.{
  ℕ, true, false, ◌++◌, [], ◌∷◌, Option, none, some, ◌≡◌, refl, if◌then◌else◌,
}
use riscv_v2f_optimized.Prelude.Outcome.{done, undefined}
use riscv_v2f_optimized.Axi.{init_slave, init_master}
use riscv_v2f_optimized.AxiLite.{init_lite_master, init_lite_slave}
use riscv_v2f_optimized.RiscvTop.Signals.{RtlOutputs, InSignals}
use riscv_v2f_optimized.RiscvTop.Copy.{Pins, RiscvTop, async_outputs}
use riscv_v2f_optimized.Delta.{wakes, sleeps, starts, evaluates, updates}
use riscv_v2f_optimized.RiscvTop.{drive, watched}
use riscv_v2f_optimized.RiscvTop.Connected.{IsConnected, Update-IsConnected}
use riscv_v2f_optimized.TcmTop.Signals.{TcmRtlOutputs, TcmInSignals}
use riscv_v2f_optimized.TcmTop.Copy.{TcmPins, RiscvTcmTop, tcm_async_outputs}
use riscv_v2f_optimized.TcmTop.{tcm_drive, tcm_watched}
use riscv_v2f_optimized.TcmTop.Connected.{IsTcmConnected, Update-IsTcmConnected}
use riscv_v2f_optimized.SimMain.{switch_of, seed_switch, sc_main}
use riscv_v2f_optimized.SimMain.Arguments.{spell, launched, sc_main-launched}
use riscv_v2f_optimized.Waves.{
  verilator_trace_enable, waves_enabled, tcm_trace_enable, new_trace, null, leave, sigint_handler,
}
use riscv_v2f_optimized.Waves.Closing.{status_of, leave-verilator_trace_enable}

abbrev quiet_pins : Pins
quiet_pins = record {
  clk_in = false;
  rst_in = false;
  intr_in = false;
  reset_vector_in = 0;
  axi_i_in = init_slave;
  axi_d_in = init_slave;
}

-- The core reads from 0x80000000.
abbrev reading : RtlOutputs
reading = record {
  axi_i_awvalid_o = false;
  axi_i_awaddr_o = 0;
  axi_i_awid_o = 0;
  axi_i_awlen_o = 0;
  axi_i_awburst_o = 0;
  axi_i_wvalid_o = false;
  axi_i_wdata_o = 0;
  axi_i_wstrb_o = 0;
  axi_i_wlast_o = false;
  axi_i_bready_o = false;
  axi_i_arvalid_o = true;
  axi_i_araddr_o = 0x8000_0000;
  axi_i_arid_o = 0;
  axi_i_arlen_o = 0;
  axi_i_arburst_o = 0;
  axi_i_rready_o = false;
  axi_d_awvalid_o = false;
  axi_d_awaddr_o = 0;
  axi_d_awid_o = 0;
  axi_d_awlen_o = 0;
  axi_d_awburst_o = 0;
  axi_d_wvalid_o = false;
  axi_d_wdata_o = 0;
  axi_d_wstrb_o = 0;
  axi_d_wlast_o = false;
  axi_d_bready_o = false;
  axi_d_arvalid_o = false;
  axi_d_araddr_o = 0;
  axi_d_arid_o = 0;
  axi_d_arlen_o = 0;
  axi_d_arburst_o = 0;
  axi_d_rready_o = false;
}

abbrev quiet_signals : InSignals
quiet_signals = record {
  m_clk_in = false;
  m_rst_in = false;
  m_axi_i_awready_in = false;
  m_axi_i_wready_in = false;
  m_axi_i_bvalid_in = false;
  m_axi_i_bresp_in = 0;
  m_axi_i_bid_in = 0;
  m_axi_i_arready_in = false;
  m_axi_i_rvalid_in = false;
  m_axi_i_rdata_in = 0;
  m_axi_i_rresp_in = 0;
  m_axi_i_rid_in = 0;
  m_axi_i_rlast_in = false;
  m_axi_d_awready_in = false;
  m_axi_d_wready_in = false;
  m_axi_d_bvalid_in = false;
  m_axi_d_bresp_in = 0;
  m_axi_d_bid_in = 0;
  m_axi_d_arready_in = false;
  m_axi_d_rvalid_in = false;
  m_axi_d_rdata_in = 0;
  m_axi_d_rresp_in = 0;
  m_axi_d_rid_in = 0;
  m_axi_d_rlast_in = false;
  m_intr_in = false;
  m_reset_vector_in = 0;
}

abbrev top : RiscvTop
top = record {
  pins = quiet_pins;
  rtl = reading;
  ins = quiet_signals;
  axi_i_out = init_master;
  axi_d_out = init_master;
}

-- The clock rises while the process runs for the first time; it runs again, and then nothing changes.
abbrev rising : Pins × RtlOutputs
rising = (record quiet_pins { clk_in = true }, reading)

abbrev risen : RiscvTop
risen = drive rising (async_outputs top)

unchanged : watched (drive rising (async_outputs risen)) ≡ watched risen
unfolding async_outputs watched drive
unchanged = refl

Update-IsConnected_example : IsConnected risen (drive rising (async_outputs risen))
Update-IsConnected_example =
    Update-IsConnected {start = top}
      (evaluates (updates (evaluates starts) (wakes top (async_outputs top) rising)))
      (sleeps risen (async_outputs risen) rising unchanged)

abbrev tcm_quiet_pins : TcmPins
tcm_quiet_pins = record {
  clk_in = false;
  rst_in = false;
  rst_cpu_in = false;
  intr_in = 0;
  axi_i_in = init_lite_slave;
  axi_t_in = init_master;
}

-- The core reads from 0x80000000.
abbrev tcm_reading : TcmRtlOutputs
tcm_reading = record {
  axi_i_awvalid_o = false;
  axi_i_awaddr_o = 0;
  axi_i_wvalid_o = false;
  axi_i_wdata_o = 0;
  axi_i_wstrb_o = 0;
  axi_i_bready_o = false;
  axi_i_arvalid_o = true;
  axi_i_araddr_o = 0x8000_0000;
  axi_i_rready_o = false;
  axi_t_awready_o = false;
  axi_t_wready_o = false;
  axi_t_bvalid_o = false;
  axi_t_bresp_o = 0;
  axi_t_bid_o = 0;
  axi_t_arready_o = false;
  axi_t_rvalid_o = false;
  axi_t_rdata_o = 0;
  axi_t_rresp_o = 0;
  axi_t_rid_o = 0;
  axi_t_rlast_o = false;
}

abbrev tcm_quiet_signals : TcmInSignals
tcm_quiet_signals = record {
  m_clk_in = false;
  m_rst_in = false;
  m_rst_cpu_in = false;
  m_axi_i_awready_in = false;
  m_axi_i_wready_in = false;
  m_axi_i_bvalid_in = false;
  m_axi_i_bresp_in = 0;
  m_axi_i_arready_in = false;
  m_axi_i_rvalid_in = false;
  m_axi_i_rdata_in = 0;
  m_axi_i_rresp_in = 0;
  m_axi_t_awvalid_in = false;
  m_axi_t_awaddr_in = 0;
  m_axi_t_awid_in = 0;
  m_axi_t_awlen_in = 0;
  m_axi_t_awburst_in = 0;
  m_axi_t_wvalid_in = false;
  m_axi_t_wdata_in = 0;
  m_axi_t_wstrb_in = 0;
  m_axi_t_wlast_in = false;
  m_axi_t_bready_in = false;
  m_axi_t_arvalid_in = false;
  m_axi_t_araddr_in = 0;
  m_axi_t_arid_in = 0;
  m_axi_t_arlen_in = 0;
  m_axi_t_arburst_in = 0;
  m_axi_t_rready_in = false;
  m_intr_in = 0;
}

abbrev tcm_top : RiscvTcmTop
tcm_top = record {
  pins = tcm_quiet_pins;
  rtl = tcm_reading;
  ins = tcm_quiet_signals;
  axi_i_out = init_lite_master;
  axi_t_out = init_slave;
}

-- The clock rises while the process runs for the first time; it runs again, and then nothing changes.
abbrev tcm_rising : TcmPins × TcmRtlOutputs
tcm_rising = (record tcm_quiet_pins { clk_in = true }, tcm_reading)

abbrev tcm_risen : RiscvTcmTop
tcm_risen = tcm_drive tcm_rising (tcm_async_outputs tcm_top)

tcm_unchanged :
    tcm_watched (tcm_drive tcm_rising (tcm_async_outputs tcm_risen)) ≡ tcm_watched tcm_risen
unfolding tcm_async_outputs tcm_watched tcm_drive
tcm_unchanged = refl

Update-IsTcmConnected_example :
    IsTcmConnected tcm_risen (tcm_drive tcm_rising (tcm_async_outputs tcm_risen))
Update-IsTcmConnected_example =
    Update-IsTcmConnected {start = tcm_top}
      (evaluates
        (updates (evaluates starts) (wakes tcm_top (tcm_async_outputs tcm_top) tcm_rising)))
      (sleeps tcm_risen (tcm_async_outputs tcm_risen) tcm_rising tcm_unchanged)

-- No variable is set; every text is the number 7.
abbrev no_variables : String → Option String
no_variables name = none

abbrev seven : String → ℕ
seven text = 7

no_switch : switch_of "-f" ≡ none
unfolding switch_of
no_switch = refl

sc_main-launched_example :
    (sc_main seven no_variables ("sim" ∷ spell ((seed_switch, "7") ∷ []) ++ "-f" ∷ "test.elf" ∷ [])
      ≡ done (launched seven no_variables ((seed_switch, "7") ∷ []) ("7" ∷ "-f" ∷ "test.elf" ∷ [])))
    × (sc_main seven no_variables ("sim" ∷ spell ((seed_switch, "7") ∷ []))
        ≡ done (
            launched seven no_variables
              ((seed_switch, "7") ∷ [])
              ("sim" ∷ spell ((seed_switch, "7") ∷ []))))
sc_main-launched_example =
    sc_main-launched seven no_variables "sim" "-f" ((seed_switch, "7") ∷ []) ("test.elf" ∷ [])
      no_switch

leave-verilator_trace_enable_example :
    leave sigint_handler
      (some (verilator_trace_enable no_variables seven tcm_trace_enable new_trace).0)
    ≡ (if waves_enabled no_variables
        then done (some (record { verilate_vcd = null; closed = 1 }), status_of sigint_handler)
        else undefined)
leave-verilator_trace_enable_example =
    leave-verilator_trace_enable no_variables seven tcm_trace_enable new_trace sigint_handler
