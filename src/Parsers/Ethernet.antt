-- ===== src/Parsers/Ethernet.antt =====
-- rtl/parsers/ethernet_parser.sv at its default `DATA_WIDTH`, 512.
use fpga_network_processing.Base.{
  Bool, false, if◌then◌else◌, suc, true, zero, ℕ, ◌%◌, ◌&&◌, ◌*◌, ◌+◌, ◌/◌, ◌==◌, ◌^◌,
}
use fpga_network_processing.Stage
use fpga_network_processing.Stage.{Stage}
use fpga_network_processing.Meta.{PacketMetadata}
use fpga_network_processing.Ipv4Parser.{Beat, Inputs, byte_at, word16_be}

pub record EthernetParser : Type 0 where
  pub first_beat : Bool
  pub pkt_len : ℕ
  pub stage : Stage Beat
  pub pipe_meta : PacketMetadata

abbrev pub etype_vlan : ℕ
etype_vlan = 0x8100

unfoldable pub mac_be : ℕ → ℕ → ℕ
unfolding byte_at
mac_be d idx =
    byte_at d idx * 2 ^ 40
    + byte_at d (idx + 1) * 2 ^ 32
    + byte_at d (idx + 2) * 2 ^ 24
    + byte_at d (idx + 3) * 2 ^ 16
    + byte_at d (idx + 4) * 2 ^ 8
    + byte_at d (idx + 5)

-- The loop of `count_keep` from bit `i` on.
unfoldable pub count_from : ℕ → ℕ → ℕ → ℕ → ℕ
count_from zero i k c = c
count_from (suc left) i k c = count_from left (i + 1) k (if k / 2 ^ i % 2 == 1 then c + 1 else c)

unfoldable pub count_keep : ℕ → ℕ
unfolding count_from
count_keep k = count_from 64 0 k 0

-- The header's fields over the metadata of the stage before.
unfoldable pub parse : ℕ → PacketMetadata → PacketMetadata
unfolding mac_be word16_be
parse d meta = record meta {
  dst_mac = mac_be d 0;
  src_mac = mac_be d 6;
  ethertype = word16_be d 12;
  vlan_valid = word16_be d 12 == etype_vlan;
}

unfoldable pub accepts : Inputs → EthernetParser → Bool
accepts i p = i.axis.s_tvalid && Stage.s_tready i.axis p.stage

-- `pkt_len + count_keep(s_tkeep)`, of 16 bits.
abbrev pub longer : Inputs → EthernetParser → ℕ
longer i p = (p.pkt_len + count_keep i.axis.s_data.tkeep) % 2 ^ 16

abbrev pub next_pkt_len : Inputs → EthernetParser → ℕ
next_pkt_len i p =
    if i.axis.s_data.tlast
    then longer i p
    else if p.first_beat
    then count_keep i.axis.s_data.tkeep
    else longer i p

abbrev pub next_first_beat : Inputs → EthernetParser → Bool
next_first_beat i p =
    if i.axis.s_data.tlast then true else if p.first_beat then false else p.first_beat

-- The metadata when a beat is taken: the fields on the first, the length on the last.
abbrev pub next_meta : Inputs → EthernetParser → PacketMetadata
next_meta i p =
    let fields = if p.first_beat then parse i.axis.s_data.tdata i.s_meta else p.pipe_meta in
    if i.axis.s_data.tlast then record fields { pkt_length = longer i p } else fields

unfoldable pub posedge : Inputs → EthernetParser → EthernetParser
unfolding accepts parse
posedge i p = record {
  first_beat =
      if i.axis.rst_n then if accepts i p then next_first_beat i p else p.first_beat else true;
  pkt_len = if i.axis.rst_n then if accepts i p then next_pkt_len i p else p.pkt_len else 0;
  stage = Stage.posedge i.axis p.stage;
  pipe_meta = if i.axis.rst_n && accepts i p then next_meta i p else p.pipe_meta;
}
