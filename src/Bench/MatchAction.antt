-- ===== src/Bench/MatchAction.antt =====
-- sim/testbenches/tb_match_action.cpp. What goes to the terminal is left out.
pub mod Passes
use fpga_network_processing.Base.{Bool, Option, [], if◌then◌else◌, none, some, ℕ, ◌∷◌}
use fpga_network_processing.Pipeline.{Pipeline}
use fpga_network_processing.FlowTable.{Past}
use fpga_network_processing.Generator.Build.{Packet, make_udp_packet}
use fpga_network_processing.Bench.FifoTest.{smac, dmac}
use fpga_network_processing.Bench.PipelineDriver.{Bus, reset, new_sim, push_and_capture, same_size}
use fpga_network_processing.Bench.PipelineDriver.Deliver.{reset-IsIdle, push_and_capture_lem}
use fpga_network_processing.Bench.Stress.Passes.{IsLong, udp-IsLong}

-- `Sim sim; sim.reset();`, and "Test" in a UDP packet.
unfoldable pub start : Pipeline → Past → Bus
start d past = reset 4 (new_sim d past)

unfoldable pub test_packet : Packet
test_packet =
    (make_udp_packet (record { ip_id_counter = 0 }) smac dmac 0xc0a80001 0xc0a80002 1234 53
      (84 ∷ 101 ∷ 115 ∷ 116 ∷ [])).0

unfoldable pub test_data_integrity : Pipeline → Past → Option Bool
unfolding start test_packet
test_data_integrity d past = elim (push_and_capture (start d past) test_packet 8) [
  | none ↦ none
  | some (s, rx) ↦ some (same_size rx test_packet)
]

-- The exit code.
unfoldable pub main : Pipeline → Past → Option ℕ
unfolding test_data_integrity
main d past = elim (test_data_integrity d past) [
  | none ↦ none
  | some pass ↦ some (if pass then 0 else 1)
]
