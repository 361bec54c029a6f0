-- ===== src/Ipv4Parser.antt =====
-- rtl/parsers/ipv4_parser.sv at its default `DATA_WIDTH`, 512. A beat's data is a number, byte 0 in
-- its low 8 bits. The pipeline register is the stage of axis_register.sv, with the metadata beside
-- it.
pub mod Number
pub mod Fields
use fpga_network_processing.Base.{
  Bool, false, if◌then◌else◌, suc, true, zero, ℕ, ◌%◌, ◌&&◌, ◌*◌, ◌+◌, ◌-◌, ◌/◌, ◌==◌, ◌^◌,
}
use fpga_network_processing.Fifo
use fpga_network_processing.Stage
use fpga_network_processing.Stage.{Stage}
use fpga_network_processing.Meta.{PacketMetadata}

pub record Beat : Type 0 where
  pub tdata : ℕ
  pub tkeep : ℕ
  pub tlast : Bool

pub record Ipv4Parser : Type 0 where
  pub first_beat : Bool
  pub stage : Stage Beat
  pub pipe_meta : PacketMetadata

pub record Inputs : Type 0 where
  pub axis : Fifo.Inputs Beat
  pub s_meta : PacketMetadata

-- `d[idx*8 +: 8]`
unfoldable pub byte_at : ℕ → ℕ → ℕ
byte_at d idx = d / 2 ^ (idx * 8) % 2 ^ 8

unfoldable pub word16_be : ℕ → ℕ → ℕ
unfolding byte_at
word16_be d idx = byte_at d idx * 2 ^ 8 + byte_at d (idx + 1)

unfoldable pub word32_be : ℕ → ℕ → ℕ
unfolding byte_at
word32_be d idx =
    byte_at d idx * 2 ^ 24
    + byte_at d (idx + 1) * 2 ^ 16
    + byte_at d (idx + 2) * 2 ^ 8
    + byte_at d (idx + 3)

abbrev pub ip_off : PacketMetadata → ℕ
ip_off meta = if meta.vlan_valid then 18 else 14

-- The loop of `ip_checksum` from word `i` on.
unfoldable pub sum_from : ℕ → ℕ → ℕ → ℕ → ℕ → ℕ
unfolding word16_be
sum_from zero i d off sum = sum
sum_from (suc left) i d off sum =
    sum_from left (i + 1) d off ((sum + word16_be d (off + i * 2)) % 2 ^ 32)

abbrev pub fold_once : ℕ → ℕ
fold_once sum = (sum % 2 ^ 16 + sum / 2 ^ 16) % 2 ^ 32

unfoldable pub ip_checksum : ℕ → ℕ → ℕ
unfolding sum_from
ip_checksum d off = 2 ^ 16 - 1 - fold_once (fold_once (sum_from 10 0 d off 0)) % 2 ^ 16

-- The metadata with the header at `off`.
unfoldable pub parse_at : ℕ → ℕ → PacketMetadata → PacketMetadata
unfolding byte_at word32_be ip_checksum
parse_at d off meta = record meta {
  ipv4_valid = true;
  src_ip = word32_be d (off + 12);
  dst_ip = word32_be d (off + 16);
  protocol = byte_at d (off + 9);
  ttl = byte_at d (off + 8);
  ip_hdr_len = byte_at d off % 2 ^ 4;
  ip_checksum_ok = ip_checksum d off == 0;
}

-- What the first beat of a packet adds to the metadata.
unfoldable pub parse : ℕ → PacketMetadata → PacketMetadata
unfolding parse_at
parse d meta = if meta.ethertype == 0x0800 then parse_at d (ip_off meta) meta else meta

-- A beat goes from `s_*` into the stage.
unfoldable pub accepts : Inputs → Ipv4Parser → Bool
accepts i p = i.axis.s_tvalid && Stage.s_tready i.axis p.stage

unfoldable pub posedge : Inputs → Ipv4Parser → Ipv4Parser
unfolding accepts parse
posedge i p = record {
  first_beat =
      if i.axis.rst_n
      then if accepts i p && i.axis.s_data.tlast
        then true
        else if accepts i p && p.first_beat
        then false
        else p.first_beat
      else true;
  stage = Stage.posedge i.axis p.stage;
  pipe_meta =
      if i.axis.rst_n && p.first_beat && accepts i p
      then parse i.axis.s_data.tdata i.s_meta
      else p.pipe_meta;
}
