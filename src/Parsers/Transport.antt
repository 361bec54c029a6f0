-- ===== src/Parsers/Transport.antt =====
-- rtl/parsers/udp_parser.sv and rtl/parsers/tcp_parser.sv at their default `DATA_WIDTH`, 512.
use fpga_network_processing.Base.{if◌then◌else◌, true, ℕ, ◌%◌, ◌&&◌, ◌*◌, ◌+◌, ◌==◌, ◌^◌}
use fpga_network_processing.Meta.{PacketMetadata}
use fpga_network_processing.Ipv4Parser.{Ipv4Parser, Inputs, byte_at, word16_be, word32_be}
use fpga_network_processing.Parsers.{posedge_with}

abbrev pub proto_tcp : ℕ
proto_tcp = 0x06

abbrev pub proto_udp : ℕ
proto_udp = 0x11

-- `l4_off`, of 6 bits.
unfoldable pub l4_off : PacketMetadata → ℕ
l4_off meta = (14 + (if meta.vlan_valid then 4 else 0) + meta.ip_hdr_len * 4) % 2 ^ 6

-- The ports of a UDP header at `off`.
unfoldable pub udp_at : ℕ → ℕ → PacketMetadata → PacketMetadata
unfolding word16_be
udp_at d off meta = record meta {
  udp_valid = true;
  src_port = word16_be d off;
  dst_port = word16_be d (off + 2);
}

unfoldable pub parse_udp : ℕ → PacketMetadata → PacketMetadata
parse_udp d meta =
    if meta.protocol == proto_udp && meta.ipv4_valid then udp_at d (l4_off meta) meta else meta

-- The fields of a TCP header at `off`.
unfoldable pub tcp_at : ℕ → ℕ → PacketMetadata → PacketMetadata
unfolding byte_at word16_be word32_be
tcp_at d off meta = record meta {
  tcp_valid = true;
  src_port = word16_be d off;
  dst_port = word16_be d (off + 2);
  tcp_seq = word32_be d (off + 4);
  tcp_ack = word32_be d (off + 8);
  tcp_flags = byte_at d (off + 13) % 2 ^ 4;
  tcp_window = word16_be d (off + 14);
}

unfoldable pub parse_tcp : ℕ → PacketMetadata → PacketMetadata
parse_tcp d meta =
    if meta.protocol == proto_tcp && meta.ipv4_valid then tcp_at d (l4_off meta) meta else meta

unfoldable pub udp_posedge : Inputs → Ipv4Parser → Ipv4Parser
udp_posedge i p = posedge_with parse_udp i p

unfoldable pub tcp_posedge : Inputs → Ipv4Parser → Ipv4Parser
tcp_posedge i p = posedge_with parse_tcp i p
