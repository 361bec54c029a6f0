-- ===== src/Bench/AxiLite.antt =====
-- sim/testbenches/tb_axi_lite.cpp: the reads and writes of `Sim`, and its three tests. What goes to
-- `std::cout` is left out.
pub mod Transfer
mod Tests
use fpga_network_processing.Base.{
  Bool, bit_or, false, if◌then◌else◌, suc, true, zero, ℕ, ◌%◌, ◌&&◌, ◌*◌, ◌+◌, ◌==◌, ◌^◌,
}
use fpga_network_processing.RegisterIface
use fpga_network_processing.RegisterIface.{RegisterIface, Inputs, Counters}
use fpga_network_processing.Bench.Clock.{Sim, pre, post, tick, ticks, drive}

abbrev pub Bus : Type 0
Bus = Sim RegisterIface Inputs

-- `Sim sim;`: Verilator starts the ports at 0; the registers may hold anything, and so may a read
-- past `regs`.
abbrev pub new_bus : RegisterIface → ℕ → Bus
new_bus dut out_of_range = record {
  dut = dut;
  ports = record {
    rst_n = false;
    s_axi_awaddr = 0;
    s_axi_awvalid = false;
    s_axi_wdata = 0;
    s_axi_wvalid = false;
    s_axi_bready = false;
    s_axi_araddr = 0;
    s_axi_arvalid = false;
    s_axi_rready = false;
    counters = record {
      cnt_packets = 0;
      cnt_bytes = 0;
      cnt_ipv4 = 0;
      cnt_tcp = 0;
      cnt_udp = 0;
      cnt_arp = 0;
      cnt_drops = 0;
      cnt_errors = 0;
    };
    out_of_range = out_of_range;
  };
  clk = false;
}

unfoldable pub reset : Bus → Bus
reset s =
    let low =
      ticks RegisterIface.posedge 4 (record s { ports = record s.ports { rst_n = false } }) in
    tick RegisterIface.posedge (record low { ports = record low.ports { rst_n = true } })

abbrev pub write_ports : ℕ → ℕ → Inputs → Inputs
write_ports addr word p = record p {
  s_axi_awaddr = addr;
  s_axi_awvalid = true;
  s_axi_wdata = word;
  s_axi_wvalid = true;
  s_axi_bready = true;
  s_axi_arvalid = false;
  s_axi_rready = false;
}

unfoldable pub deassert_w : Bus → Bus
deassert_w s =
    drive RegisterIface.posedge (λ p. record p { s_axi_awvalid = false; s_axi_wvalid = false }) s

unfoldable pub axi_write : ℕ → ℕ → Bus → Bool × Bus
unfolding deassert_w
axi_write addr word s = (
  true,
  tick RegisterIface.posedge (
      tick RegisterIface.posedge
        (deassert_w (drive RegisterIface.posedge (write_ports addr word) s))),
)

abbrev pub read_ports : ℕ → Inputs → Inputs
read_ports addr p = record p {
  s_axi_araddr = addr;
  s_axi_arvalid = true;
  s_axi_rready = true;
  s_axi_awvalid = false;
  s_axi_wvalid = false;
  s_axi_bready = false;
}

unfoldable pub axi_read : ℕ → Bus → ℕ × Bus
axi_read addr s =
    let asked = tick RegisterIface.posedge (drive RegisterIface.posedge (read_ports addr) s) in
    let low = pre RegisterIface.posedge asked in
    (
      low.dut.read.s_axi_rdata,
      post RegisterIface.posedge
          (record low { ports = record low.ports { s_axi_arvalid = false } }),
    )

unfoldable pub test_write_read : RegisterIface → ℕ → Bool
unfolding reset axi_write axi_read
test_write_read dut x =
    let (wrote, s1) = axi_write 0x10 0xdeadbeef (reset (new_bus dut x)) in
    let (readback, _) = axi_read 0x10 s1 in wrote && readback == 0xdeadbeef

-- The counters that the test presents.
abbrev pub with_counters : ℕ → ℕ → Bus → Bus
with_counters packets bytes s = record s {
  ports = record s.ports {
    counters = record s.ports.counters { cnt_packets = packets; cnt_bytes = bytes };
  };
}

-- `packets` is put together from two reads; the 64-bit word has room for both.
unfoldable pub test_stats_read : RegisterIface → ℕ → Bool
unfolding reset axi_read
test_stats_read dut x =
    let (pkt_lo, s1) = axi_read 0x50 (with_counters 12345 999999 (reset (new_bus dut x))) in
    let (pkt_hi, s2) = axi_read 0x51 s1 in
    let (byt_lo, _) = axi_read 0x52 s2 in
    bit_or (pkt_hi * 2 ^ 32 % 2 ^ 64) pkt_lo == 12345 && byt_lo == 999999

-- The loop of writes, from `i` on.
unfoldable pub write_each : ℕ → ℕ → Bool → Bus → Bool × Bus
unfolding axi_write
write_each zero i ok s = (ok, s)
write_each (suc left) i ok s =
    let (wrote, s') = axi_write (0x20 + i) ((0xa0000000 + i) % 2 ^ 32) s in
    write_each left (i + 1) (wrote && ok) s'

unfoldable pub test_multiple_writes : RegisterIface → ℕ → Bool
unfolding reset write_each axi_read
test_multiple_writes dut x =
    let (ok, s0) = write_each 4 0 true (reset (new_bus dut x)) in
    let (r0, s1) = axi_read 0x20 s0 in
    let (r1, s2) = axi_read 0x21 s1 in
    let (r2, s3) = axi_read 0x22 s2 in
    let (r3, _) = axi_read 0x23 s3 in
    ok && r0 == 0xa0000000 && r1 == 0xa0000001 && r2 == 0xa0000002 && r3 == 0xa0000003

-- The exit code; each test has a new device.
unfoldable pub main : RegisterIface → RegisterIface → RegisterIface → ℕ → ℕ
unfolding test_write_read test_stats_read test_multiple_writes
main d1 d2 d3 x =
    if test_write_read d1 x && test_stats_read d2 x && test_multiple_writes d3 x then 0 else 1
