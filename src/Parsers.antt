-- ===== src/Parsers.antt =====
-- What rtl/parsers/vlan_parser.sv, udp_parser.sv and tcp_parser.sv have in common with
-- ipv4_parser.sv: the tracker of first beats, the register stage, and the metadata, which the first
-- beat of a packet writes. Their parsers differ in what they find in that beat.
pub mod Ethernet
pub mod Vlan
pub mod Transport
pub mod Chain
mod Tests
use fpga_network_processing.Base.{Bool, false, if◌then◌else◌, true, ℕ, ◌&&◌}
use fpga_network_processing.Stage
use fpga_network_processing.Meta.{PacketMetadata}
use fpga_network_processing.Ipv4Parser.{Ipv4Parser, Inputs, accepts}

-- `first_beat` after an edge.
unfoldable pub next_first_beat : Inputs → Ipv4Parser → Bool
next_first_beat i p =
    if i.axis.rst_n
    then if accepts i p && i.axis.s_data.tlast
      then true
      else if accepts i p && p.first_beat
      then false
      else p.first_beat
    else true

-- An edge of a parser that finds `parse tdata s_meta` in a first beat.
unfoldable pub posedge_with :
    (ℕ → PacketMetadata → PacketMetadata) → Inputs → Ipv4Parser → Ipv4Parser
unfolding next_first_beat
posedge_with parse i p = record {
  first_beat = next_first_beat i p;
  stage = Stage.posedge i.axis p.stage;
  pipe_meta =
      if i.axis.rst_n && p.first_beat && accepts i p
      then parse i.axis.s_data.tdata i.s_meta
      else p.pipe_meta;
}
