-- ===== src/Meta.antt =====
-- `packet_metadata_t` of rtl/common/npe_pkg.sv: what the stages of the pipeline have found out about
-- a packet.
use fpga_network_processing.Base.{Bool, ℕ}

pub record PacketMetadata : Type 0 where
  pub dst_mac : ℕ
  pub src_mac : ℕ
  pub ethertype : ℕ
  pub vlan_valid : Bool
  pub vlan_id : ℕ
  pub vlan_prio : ℕ
  pub vlan_cfi : Bool
  pub ipv4_valid : Bool
  pub src_ip : ℕ
  pub dst_ip : ℕ
  pub protocol : ℕ
  pub ttl : ℕ
  pub ip_hdr_len : ℕ
  pub ip_checksum_ok : Bool
  pub tcp_valid : Bool
  pub udp_valid : Bool
  pub src_port : ℕ
  pub dst_port : ℕ
  pub tcp_flags : ℕ
  pub tcp_seq : ℕ
  pub tcp_ack : ℕ
  pub tcp_window : ℕ
  pub class_id : ℕ
  pub drop : Bool
  pub crc_error : Bool
  pub parse_error : Bool
  pub pkt_length : ℕ
