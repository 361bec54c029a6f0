-- ===== src/Parsers/Vlan.antt =====
-- rtl/parsers/vlan_parser.sv at its default `DATA_WIDTH`, 512.
use fpga_network_processing.Base.{if◌then◌else◌, ℕ, ◌%◌, ◌/◌, ◌==◌, ◌^◌}
use fpga_network_processing.Meta.{PacketMetadata}
use fpga_network_processing.Ipv4Parser.{Ipv4Parser, Inputs, word16_be}
use fpga_network_processing.Parsers.{posedge_with}

abbrev pub vlan_tci_offset : ℕ
vlan_tci_offset = 14

abbrev pub vlan_etype_offset : ℕ
vlan_etype_offset = 16

-- The tag with the control word `tci` and the inner type `etype`.
abbrev pub with_tag : ℕ → ℕ → PacketMetadata → PacketMetadata
with_tag tci etype meta = record meta {
  vlan_id = tci % 2 ^ 12;
  vlan_prio = tci / 2 ^ 13;
  vlan_cfi = tci / 2 ^ 12 % 2 == 1;
  ethertype = etype;
}

unfoldable pub parse : ℕ → PacketMetadata → PacketMetadata
parse d meta =
    if meta.vlan_valid
    then with_tag (word16_be d vlan_tci_offset) (word16_be d vlan_etype_offset) meta
    else meta

unfoldable pub posedge : Inputs → Ipv4Parser → Ipv4Parser
posedge i p = posedge_with parse i p
