-- ===== src/Bench/FifoTest/Basic.antt =====
-- `test_fifo_basic` of tb_axis_fifo.cpp.
use Prim.{tt}
use fpga_network_processing.Base.{
  Bool, Option, [], ap, ap₂, arith, length, none, some, true, ℕ, ◌&&◌, ◌<◌, ◌==◌, ◌∙◌, ◌∷◌, ◌≡◌,
}
use fpga_network_processing.Fifo.{Fifo}
use fpga_network_processing.Generator.Carries.{AllBytes}
use fpga_network_processing.Generator.Build.{PacketGen, make_udp_packet}
use fpga_network_processing.Generator.Bytes.{AllBytes-make_udp_packet}
use fpga_network_processing.Monitor.Scoreboard.{PacketMon, pending}
use fpga_network_processing.Bench.FifoDriver.{AxisBeat}
use fpga_network_processing.Bench.FifoTest.{basic_packets, smac, dmac, test_fifo_basic}
use fpga_network_processing.Bench.FifoTest.Session.{AllPackets, session_lem}

five_bytes :
    (g : PacketGen) (sport dport a b c d e : ℕ)
    → AllBytes (a ∷ b ∷ c ∷ d ∷ e ∷ [])
    → let pkt =
        (make_udp_packet g smac dmac 0xc0a80001 0xc0a80002 sport dport
          (a ∷ b ∷ c ∷ d ∷ e ∷ [])).0 in
      (0 < length pkt) × AllBytes pkt
five_bytes g sport dport a b c d e h =
    let (bytes, size) =
      AllBytes-make_udp_packet g smac dmac 0xc0a80001 0xc0a80002 sport dport
        (a ∷ b ∷ c ∷ d ∷ e ∷ []) (omega arith) (omega arith) h in
    (omega (arith, size), bytes)

basic_packets-AllPackets : AllPackets basic_packets
unfolding basic_packets
basic_packets-AllPackets =
    let g : PacketGen = record { ip_id_counter = 0 } in
    let (some1, b1) = five_bytes g 1234 80 72 101 108 108 111 (omega arith) in
    let g' =
      (make_udp_packet g smac dmac 0xc0a80001 0xc0a80002 1234 80
        (72 ∷ 101 ∷ 108 ∷ 108 ∷ 111 ∷ [])).1 in
    let (some2, b2) = five_bytes g' 5678 53 87 111 114 108 100 (omega arith) in
    (some1, b1, (some2, b2, tt))

abbrev verdict : Option PacketMon → Option Bool
verdict o = elim o [ none ↦ none | some mon ↦ some (mon.error_count == 0 && pending mon == 0) ]

-- The test of two packets ends and passes, whatever the registers of the device held before its
-- reset.
pub test_fifo_basic_lem : (dut : Fifo AxisBeat) → test_fifo_basic dut ≡ some true
unfolding test_fifo_basic
test_fifo_basic_lem dut =
    let (m, e, _, no_error, none_pending) =
      session_lem dut basic_packets basic_packets-AllPackets in
    ap verdict e ∙ ap₂ (λ k n. some (k == 0 && n == 0)) no_error none_pending
