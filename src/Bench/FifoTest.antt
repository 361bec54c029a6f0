-- ===== src/Bench/FifoTest.antt =====
-- The three tests of sim/testbenches/tb_axis_fifo.cpp, and the body of `test_fifo_basic` for any
-- packets. Verilator starts the ports of a new device at 0; the registers may hold
-- anything. What goes to `std::cout` is left out.
pub mod Session
pub mod Basic
pub mod Balance
pub mod Backpressure
mod Tests
use fpga_network_processing.Base.{
  Bool, List, Option, [], bit_and, false, if◌then◌else◌, none, replicate, some, suc, true, zero, ℕ,
  ◌%◌, ◌&&◌, ◌+◌, ◌-◌, ◌==◌, ◌^◌, ◌∷◌,
}
use fpga_network_processing.Fifo.{Fifo, empty, full, used}
use fpga_network_processing.Generator.Header.{Mac}
use fpga_network_processing.Generator.Build.{PacketGen, make_udp_packet}
use fpga_network_processing.Monitor.Scoreboard.{PacketMon, expect, pending}
use fpga_network_processing.Bench.FifoDriver.{
  AxisBeat, SimContext, push_packet, drain_all, ticks, eval_pre, eval_post, count_cycle,
}
use fpga_network_processing.Bench.Words.{vlwide_set_bytes}
use fpga_network_processing.Bench.FifoDriver

-- `SimContext sim;`
abbrev pub new_context : Fifo AxisBeat → SimContext
new_context dut = record {
  dut = dut;
  rst_n = false;
  s_beat = record { tdata = replicate 16 0; tkeep = 0; tlast = false };
  s_tvalid = false;
  m_tready = false;
  clk = false;
  sim_cycles = 0;
}

-- `PacketMon mon;`
abbrev pub new_monitor : PacketMon
new_monitor = record { rx_beats = []; rx_bytes = []; expected = []; pkt_count = 0; error_count = 0 }

-- The reset, and the ports set after it.
unfoldable pub start : Fifo AxisBeat → SimContext
unfolding FifoDriver.reset
start dut = record (FifoDriver.reset 4 (new_context dut)) { m_tready = false; s_tvalid = false }

unfoldable pub expect_all : List (List ℕ) → PacketMon → PacketMon
expect_all [] m = m
expect_all (pkt ∷ pkts) m = expect_all pkts (expect pkt m)

unfoldable pub push_all : List (List ℕ) → SimContext → PacketMon → Option (SimContext × PacketMon)
push_all [] s m = some (s, m)
push_all (pkt ∷ pkts) s m = elim (push_packet s m pkt 8) [
  | none ↦ none
  | some (s', m') ↦ push_all pkts s' m'
]

-- The body of `test_fifo_basic`, for any packets.
unfoldable pub session : Fifo AxisBeat → List (List ℕ) → Option PacketMon
unfolding start expect_all push_all
session dut pkts = elim (push_all pkts (start dut) (expect_all pkts new_monitor)) [
  | none ↦ none
  | some (s, m) ↦ some (drain_all s m 8).1
]

abbrev pub smac : Mac
smac = record { b0 = 2; b1 = 0; b2 = 0; b3 = 0; b4 = 0; b5 = 1 }

abbrev pub dmac : Mac
dmac = record { b0 = 2; b1 = 0; b2 = 0; b3 = 0; b4 = 0; b5 = 2 }

-- The two packets, "Hello" and "World".
unfoldable pub basic_packets : List (List ℕ)
unfolding make_udp_packet
basic_packets =
    let (pkt1, gen) =
      make_udp_packet (record { ip_id_counter = 0 }) smac dmac 0xc0a80001 0xc0a80002 1234 80
        (72 ∷ 101 ∷ 108 ∷ 108 ∷ 111 ∷ []) in
    let (pkt2, gen') =
      make_udp_packet gen smac dmac 0xc0a80001 0xc0a80002 5678 53
        (87 ∷ 111 ∷ 114 ∷ 108 ∷ 100 ∷ []) in
    pkt1 ∷ pkt2 ∷ []

-- `none` if a loop did not end.
unfoldable pub test_fifo_basic : Fifo AxisBeat → Option Bool
unfolding session basic_packets
test_fifo_basic dut = elim (session dut basic_packets) [
  | none ↦ none
  | some mon ↦ some (mon.error_count == 0 && pending mon == 0)
]

-- A device after its reset and one more cycle.
abbrev flags_of : SimContext → Bool × Bool × ℕ
flags_of s = (empty s.dut, full s.dut, used s.dut)

-- A cycle of `test_fifo_flags`, with the assignments between its evaluations.
unfoldable cycle : (SimContext → SimContext) → SimContext → SimContext
cycle assign s = count_cycle (eval_post (assign (eval_pre s)))

-- `while (tries--)`
unfoldable pub flags_drain : ℕ → SimContext → SimContext
unfolding cycle
flags_drain zero s = s
flags_drain (suc tries) s =
    let next = cycle (λ low. low) s in
    elim ((eval_pre s).dut.m_tvalid && (eval_pre s).m_tready) [
      | true ↦ next
      | false ↦ elim (empty next.dut) [ true ↦ next | false ↦ flags_drain tries next ]
    ]

-- The flags that the test prints at its start, after a beat is pushed, and after it is drained; it
-- returns true.
unfoldable pub test_fifo_flags :
    Fifo AxisBeat → (Bool × Bool × ℕ) × (Bool × Bool × ℕ) × (Bool × Bool × ℕ) × Bool
unfolding start cycle flags_drain
test_fifo_flags dut =
    let s0 = ticks 1 (start dut) in
    let beat : List ℕ → AxisBeat = λ (words : List ℕ). record {
      tdata = vlwide_set_bytes words (1 ∷ 2 ∷ 3 ∷ 4 ∷ 5 ∷ 6 ∷ 7 ∷ 8 ∷ []);
      tkeep = 0xff;
      tlast = true;
    } in
    let s1 = cycle (λ low. record low { s_beat = beat low.s_beat.tdata; s_tvalid = true }) s0 in
    let s2 = cycle (λ low. record low { s_tvalid = false }) s1 in
    let s3 = flags_drain 100 (record s2 { m_tready = true }) in
    (flags_of s0, flags_of s2, flags_of s3, true)

-- The packet of round `i` of `test_fifo_backpressure`; `r` is what `rand()` gives.
unfoldable pub backpressure_packet : ℕ → ℕ → PacketGen → List ℕ × PacketGen
unfolding make_udp_packet
backpressure_packet r i gen =
    let len = 64 + r % 500 in
    make_udp_packet gen smac dmac 0xc0a80001 0xc0a80002 ((1234 + i) % 2 ^ 16) ((80 + i) % 2 ^ 16)
      (replicate (len - 42) (bit_and i 0xff))

-- The loop of `test_fifo_backpressure` from round `i` on; `rand` is a function of the round.
unfoldable pub backpressure_loop :
    (ℕ → ℕ) → ℕ → ℕ → PacketGen → SimContext → PacketMon → Option (SimContext × PacketMon)
unfolding backpressure_packet
backpressure_loop rand zero i gen s m = some (s, m)
backpressure_loop rand (suc left) i gen s m =
    let made = backpressure_packet (rand i) i gen in
    elim (push_packet s (expect made.0 m) made.0 8) [
      | none ↦ none
      | some (s', m') ↦ backpressure_loop rand left (i + 1) made.1 s' m'
    ]

unfoldable pub test_fifo_backpressure : (ℕ → ℕ) → Fifo AxisBeat → Option Bool
unfolding start backpressure_loop
test_fifo_backpressure rand dut =
    elim (backpressure_loop rand 10 0 (record { ip_id_counter = 0 }) (start dut) new_monitor) [
      | none ↦ none
      | some (s, m) ↦
          (let mon = (drain_all s m 8).1 in some (mon.error_count == 0 && pending mon == 0))
    ]

-- The exit code; each test has a new device.
unfoldable pub main : (ℕ → ℕ) → Fifo AxisBeat → Fifo AxisBeat → Fifo AxisBeat → Option ℕ
unfolding test_fifo_basic test_fifo_flags test_fifo_backpressure
main rand d1 d2 d3 = elim (test_fifo_basic d1) [
  | none ↦ none
  | some a ↦ elim (test_fifo_backpressure rand d3) [
    | none ↦ none
    | some c ↦ some (if a && (test_fifo_flags d2).3 && c then 0 else 1)
  ]
]
