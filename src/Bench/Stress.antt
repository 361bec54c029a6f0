-- ===== src/Bench/Stress.antt =====
-- sim/testbenches/tb_stress.cpp: the four tests of `main`. What goes to the terminal is left out.
pub mod Passes
mod Tests
use fpga_network_processing.Base.{
  Bool, List, Option, bit_and, if◌then◌else◌, none, replicate, some, suc, zero, ℕ, ◌%◌, ◌+◌, ◌-◌,
  ◌==◌, ◌^◌,
}
use fpga_network_processing.Generator.Build.{
  Packet, PacketGen, make_udp_packet, make_tcp_packet, make_arp_packet,
}
use fpga_network_processing.Pipeline.{Pipeline, m_tvalid, m_beat}
use fpga_network_processing.Bench.Clock.{pre, post}
use fpga_network_processing.Bench.FifoDriver.{read_beat}
use fpga_network_processing.FlowTable.{Past}
use fpga_network_processing.Bench.FifoTest.{smac, dmac}
use fpga_network_processing.Bench.PipelineDriver.{
  Bus, edge, port_beat, reset, new_sim, push_and_capture, same_size,
}

-- `Sim sim; sim.reset();`
unfoldable pub start : Pipeline → Past → Bus
start d past = reset 8 (new_sim d past)

-- A beat, if there is one: its bytes and `last`.
unfoldable pub pull_beat : Bus → ℕ → Bus × Option (List ℕ × Bool)
pull_beat sim dw =
    let low = pre edge sim in
    let there = m_tvalid low.dut in
    let b = port_beat (m_beat low.dut) in
    (
      post edge (record low { ports = record low.ports { m_tready = there } }),
      if there then some ((read_beat dw b).0, b.tlast) else none,
    )

-- Packet `i` of a test.
abbrev pub Maker : Type 0
Maker = ℕ → PacketGen → Packet × PacketGen

-- `std::vector<uint8_t>(n, i & 0xFF)`
abbrev pub filled : ℕ → ℕ → List ℕ
filled n i = replicate n (bit_and i 0xff)

unfoldable pub small_udp : Maker
small_udp i g =
    make_udp_packet g smac dmac 0xc0a80001 0xc0a80002 ((100 + i) % 2 ^ 16) ((200 + i) % 2 ^ 16)
      (filled 20 i)

-- The flags are those of the default argument.
unfoldable pub mixed : Maker
mixed i g =
    if i % 3 == 0
    then make_tcp_packet g smac dmac 0xc0a80001 0xc0a80002 80 55555 (filled 30 i) 0x02
    else if i % 3 == 1
    then (make_arp_packet smac dmac 0xc0a80001 0xc0a80002, g)
    else make_udp_packet g smac dmac 0xc0a80001 0xc0a80002 53 1234 (filled 15 i)

unfoldable pub jumbo : Maker
jumbo i g =
    make_udp_packet g smac dmac 0xc0a80001 0xc0a80002 ((100 + i) % 2 ^ 16) ((200 + i) % 2 ^ 16)
      (filled 1450 i)

unfoldable pub batched : Maker
batched p g = make_tcp_packet g smac dmac 0xc0a80001 0xc0a80002 80 55555 (filled 30 p) 0x02

-- What a loop goes on with: the generator, the simulation and the count of failures.
pub record Round : Type 0 where
  pub gen : PacketGen
  pub sim : Bus
  pub fail : ℕ

-- `for (; i < n; i++)` over the packets of a test, `left` of them.
unfoldable pub push_each : Maker → ℕ → ℕ → Round → Option Round
push_each make zero i r = some r
push_each make (suc left) i r =
    let (pkt, gen) = make i r.gen in
    elim (push_and_capture r.sim pkt 8) [
      | none ↦ none
      | some (sim, rx) ↦
          push_each make left (suc i) (record {
            gen = gen;
            sim = sim;
            fail = if same_size rx pkt then r.fail else r.fail + 1;
          })
    ]

-- The batches of the fourth test.
unfoldable pub batches : ℕ → Round → Option Round
unfolding push_each
batches zero r = some r
batches (suc left) r = elim (push_each batched 5 0 r) [ none ↦ none | some r' ↦ batches left r' ]

abbrev pub round : PacketGen → Pipeline → Past → Round
round g d past = record { gen = g; sim = start d past; fail = 0 }

-- `ok_pkts`, of the failures of the tests, and the exit code.
abbrev pub exit_code : ℕ → ℕ → ℕ → ℕ → ℕ
exit_code f1 f2 f3 f4 = if 200 - f1 + (100 - f2) + (50 - f3) + (50 - f4) == 400 then 0 else 1

-- Each test has a new device, whose registers may hold anything.
unfoldable pub main : Pipeline → Pipeline → Pipeline → Pipeline → Past → Option ℕ
unfolding push_each batches
main d1 d2 d3 d4 past =
    elim (push_each small_udp 200 0 (round (record { ip_id_counter = 0 }) d1 past)) [
      | none ↦ none
      | some r1 ↦ elim (push_each mixed 100 0 (round r1.gen d2 past)) [
        | none ↦ none
        | some r2 ↦ elim (push_each jumbo 50 0 (round r2.gen d3 past)) [
          | none ↦ none
          | some r3 ↦ elim (batches 10 (round r3.gen d4 past)) [
            | none ↦ none
            | some r4 ↦ some (exit_code r1.fail r2.fail r3.fail r4.fail)
          ]
        ]
      ]
    ]
