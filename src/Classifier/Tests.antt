-- ===== src/Classifier/Tests.antt =====
-- packet_classifier.sv and rule_engine.sv on the metadata of a packet.
use fpga_network_processing.Base.{false, true, ◌==◌, ◌≡◌}
use fpga_network_processing.Meta.{PacketMetadata}
use fpga_network_processing.MatchTable.{match_rules, action_mirror}
use fpga_network_processing.Classifier.{classified, ruled}
use fpga_network_processing.Classifier.Same.{classified-match_rules}
use fpga_network_processing.Pipeline.{no_meta}

-- SSH.
abbrev ssh : PacketMetadata
ssh = record no_meta { protocol = 6; tcp_valid = true; dst_port = 22 }

classified-match_rules_example :
    ((classified ssh).class_id ≡ (match_rules ssh).class)
    × ((classified ssh).drop ≡ false)
    × ((ruled (λ c. action_mirror) (classified ssh)).drop ≡ ((match_rules ssh).class == 0))
classified-match_rules_example = classified-match_rules (λ c. action_mirror) ssh
