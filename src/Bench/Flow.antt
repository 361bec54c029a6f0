-- ===== src/Bench/Flow.antt =====
-- sim/testbenches/tb_flow.cpp. Its `push_and_drain` drops the beats that it reads, and tells what it
-- reads by `tlast` alone. What goes to the terminal is left out.
pub mod Passes
use Prim.{tt}
use fpga_network_processing.Base.{
  Bool, List, Option, [], if◌then◌else◌, none, replicate, some, suc, true, zero, ℕ, ◌%◌, ◌&&◌, ◌+◌,
  ◌^◌, ◌∷◌,
}
use fpga_network_processing.Pipeline.{Pipeline}
use fpga_network_processing.FlowTable.{Past}
use fpga_network_processing.Generator.Build.{Packet, PacketGen, make_udp_packet}
use fpga_network_processing.Bench.FifoTest.{smac, dmac}
use fpga_network_processing.Bench.PipelineDriver.{Bus, reset, new_sim, push_and_capture, same_size}
use fpga_network_processing.Bench.PipelineDriver
use fpga_network_processing.Bench.PipelineDriver.Session.{IsIdle, push_and_drain_lem}
use fpga_network_processing.Bench.PipelineDriver.Deliver.{reset-IsIdle, push_and_capture_lem}
use fpga_network_processing.Bench.Stress.Passes.{IsLong, udp-IsLong, AllBytes-replicate}

abbrev pub drop_beat : List ℕ → Bool → Unit {0} → Unit {0}
drop_beat bs last u = u

unfoldable pub push_and_drain : Bus → Packet → Option Bus
push_and_drain s pkt = elim (PipelineDriver.push_and_drain drop_beat s tt pkt 8) [
  | none ↦ none
  | some (s', u) ↦ some s'
]

-- `Sim sim; sim.reset();`
unfoldable pub start : Pipeline → Past → Bus
start d past = reset 4 (new_sim d past)

-- Packet `i` of a test, by its ports.
abbrev pub flow_packet : ℕ → ℕ → PacketGen → Packet × PacketGen
flow_packet sport dport g =
    make_udp_packet g smac dmac 0xc0a80001 0xc0a80002 sport dport (replicate 10 120)

-- `for (i < n)`: the ports count up by `step`.
unfoldable pub push_flows : ℕ → ℕ → ℕ → ℕ → PacketGen → Bus → Option Bus
unfolding push_and_drain
push_flows zero step sport dport g s = some s
push_flows (suc left) step sport dport g s =
    let (pkt, g') = flow_packet sport dport g in
    elim (push_and_drain s pkt) [
      | none ↦ none
      | some s' ↦ push_flows left step ((sport + step) % 2 ^ 16) ((dport + step) % 2 ^ 16) g' s'
    ]

-- `return true` after the loop.
abbrev pub ends : Option Bus → Option Bool
ends o = elim o [ none ↦ none | some s ↦ some true ]

unfoldable pub test_basic : Pipeline → Past → Option Bool
unfolding start push_flows
test_basic d past = ends (push_flows 5 0 53 1234 (record { ip_id_counter = 0 }) (start d past))

unfoldable pub test_multi_flow : Pipeline → Past → Option Bool
unfolding start push_flows
test_multi_flow d past =
    ends (push_flows 20 1 100 200 (record { ip_id_counter = 0 }) (start d past))

unfoldable pub test_packet : Packet
test_packet =
    (make_udp_packet (record { ip_id_counter = 0 }) smac dmac 0xc0a80001 0xc0a80002 53 1234
      (84 ∷ 101 ∷ 115 ∷ 116 ∷ [])).0

unfoldable pub test_data_integrity : Pipeline → Past → Option Bool
unfolding start test_packet
test_data_integrity d past = elim (push_and_capture (start d past) test_packet 8) [
  | none ↦ none
  | some (s, rx) ↦ some (same_size rx test_packet)
]

-- The exit code; each test has a new device, whose registers may hold anything.
unfoldable pub main : Pipeline → Pipeline → Pipeline → Past → Option ℕ
unfolding test_data_integrity test_basic test_multi_flow
main d1 d2 d3 past = elim (test_data_integrity d1 past) [
  | none ↦ none
  | some a ↦ elim (test_basic d2 past) [
    | none ↦ none
    | some b ↦ elim (test_multi_flow d3 past) [
      | none ↦ none
      | some c ↦ some (if a && b && c then 0 else 1)
    ]
  ]
]
