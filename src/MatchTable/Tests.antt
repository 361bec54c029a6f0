-- ===== src/MatchTable/Tests.antt =====
-- match_table.sv on the metadata of a packet.
use fpga_network_processing.Base.{true, ◌≡◌}
use fpga_network_processing.Meta.{PacketMetadata}
use fpga_network_processing.MatchTable.{match_rules, mod_nop}
use fpga_network_processing.MatchTable.Rules.{allowed, match_rules_lem}
use fpga_network_processing.Pipeline.{no_meta}

-- HTTPS.
abbrev https : PacketMetadata
https = record no_meta { protocol = 6; tcp_valid = true; dst_port = 443 }

match_rules_lem_example : match_rules https ≡ allowed 3 mod_nop
match_rules_lem_example = match_rules_lem https
