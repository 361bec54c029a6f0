-- ===== src/Bench/AxiLite/Tests.antt =====
-- The tests of tb_axi_lite.cpp, from any registers, and the transfers at concrete inputs.
use fpga_network_processing.Base.{
  ap, ap₂, arith, false, if◌then◌else◌, refl, replicate, set, true, ℕ, ◌&&◌, ◌∙◌, ◌≡◌,
}
use fpga_network_processing.RegisterIface
use fpga_network_processing.RegisterIface.{
  RegisterIface, Inputs, Counters, w_idle, r_idle, read_mux,
}
use fpga_network_processing.Bench.Clock.{pre, post, tick, ticks, drive}
use fpga_network_processing.Bench.AxiLite.{
  Bus, new_bus, axi_write, axi_read, test_write_read, test_stats_read, test_multiple_writes, main,
}
use fpga_network_processing.Bench.AxiLite.Transfer.{IsIdle, axi_read-axi_write}

write_read_passes : (dut : RegisterIface) (x : ℕ) → test_write_read dut x ≡ true
unfolding test_write_read RegisterIface.posedge ticks drive tick pre post
write_read_passes dut x = refl

stats_read_passes : (dut : RegisterIface) (x : ℕ) → test_stats_read dut x ≡ true
unfolding test_stats_read RegisterIface.posedge ticks drive tick pre post
stats_read_passes dut x = refl

multiple_writes_passes : (dut : RegisterIface) (x : ℕ) → test_multiple_writes dut x ≡ true
unfolding test_multiple_writes RegisterIface.posedge ticks drive tick pre post
multiple_writes_passes dut x = refl

-- A bus after a reset, with a word in one register.
abbrev idle_bus : Bus
idle_bus =
    let s =
      new_bus
        (record {
          write = record {
            regs = set (replicate 64 0) 5 77;
            wstate = w_idle;
            s_axi_awready = false;
            s_axi_wready = false;
            s_axi_bvalid = false;
            s_axi_bresp = 0;
            waddr_q = 0;
          };
          read = record {
            rstate = r_idle;
            s_axi_arready = false;
            s_axi_rvalid = false;
            s_axi_rdata = 0;
            s_axi_rresp = 0;
          };
        })
        0 in
    record s { ports = record s.ports { rst_n = true } }

idle_bus-IsIdle : IsIdle idle_bus
idle_bus-IsIdle = record { on = refl; no_write = refl; no_read = refl }

axi_read-axi_write_example : (axi_read 6 (axi_write 6 99 idle_bus).1).0 ≡ 99
axi_read-axi_write_example =
    axi_read-axi_write 6 6 99 idle_bus idle_bus-IsIdle (omega arith) (omega arith) refl

axi_lite_passes : (d1 d2 d3 : RegisterIface) (x : ℕ) → main d1 d2 d3 x ≡ 0
unfolding main
axi_lite_passes d1 d2 d3 x =
    ap₂ (λ a b. if a && b && test_multiple_writes d3 x then 0 else 1) (write_read_passes d1 x)
      (stats_read_passes d2 x)
    ∙ ap (λ c. if c then 0 else 1) (multiple_writes_passes d3 x)
