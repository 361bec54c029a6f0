-- ===== src/Modifier/Tests.antt =====
-- packet_modifier.sv on a beat of data.
use fpga_network_processing.Base.{arith, ◌*◌, ◌+◌, ◌-◌, ◌^◌, ◌≡◌}
use fpga_network_processing.Ipv4Parser.{byte_at}
use fpga_network_processing.MatchTable.{ModifierData, no_data, mod_vlan_push, mod_vlan_pop}
use fpga_network_processing.Pipeline.{no_meta}
use fpga_network_processing.Modifier.{apply}
use fpga_network_processing.Parsers.Ethernet
use fpga_network_processing.Parsers.Vlan
use fpga_network_processing.Modifier.Tag.{pop-push}
use fpga_network_processing.Modifier.Parsed.{SaysTag, parse-push}

-- Tag 100 with priority 5.
abbrev tag_100 : ModifierData
tag_100 = record no_data { vlan_id = 100; vlan_prio = 5 }

pop-push_example :
    byte_at
      (apply mod_vlan_pop no_data no_meta
        (apply mod_vlan_push tag_100 no_meta (0xabcdef * 2 ^ 160 + 77 * 2 ^ 96) (2 ^ 64 - 1)).0
        (2 ^ 64 - 1)).0
      20
    ≡ byte_at (0xabcdef * 2 ^ 160 + 77 * 2 ^ 96) 20
pop-push_example =
    pop-push tag_100 no_data no_meta no_meta (0xabcdef * 2 ^ 160 + 77 * 2 ^ 96) (2 ^ 64 - 1)
      (2 ^ 64 - 1) 20 (omega arith)

parse-push_example :
    let d = (apply mod_vlan_push tag_100 no_meta (0xabcdef * 2 ^ 96) (2 ^ 64 - 1)).0 in
    SaysTag tag_100 (0xabcdef * 2 ^ 96) (Vlan.parse d (Ethernet.parse d no_meta))
parse-push_example =
    parse-push tag_100 no_meta no_meta (0xabcdef * 2 ^ 96) (2 ^ 64 - 1) (omega arith) (omega arith)
