-- ===== src/Generator/Header.antt =====
-- The header structs of packet_gen.h and their images in memory.
use fpga_network_processing.Base.{List, [], ℕ, ◌%◌, ◌*◌, ◌+◌, ◌/◌, ◌^◌, ◌∷◌}

-- `uint8_t mac[6]`
pub record Mac : Type 0 where
  pub b0 : ℕ
  pub b1 : ℕ
  pub b2 : ℕ
  pub b3 : ℕ
  pub b4 : ℕ
  pub b5 : ℕ

pub record Ipv4Hdr : Type 0 where
  pub ver_ihl : ℕ
  pub dscp_ecn : ℕ
  pub total_length : ℕ
  pub identification : ℕ
  pub flags_frag_offset : ℕ
  pub ttl : ℕ
  pub protocol : ℕ
  pub header_checksum : ℕ
  pub src_ip : ℕ
  pub dst_ip : ℕ

pub record UdpHdr : Type 0 where
  pub src_port : ℕ
  pub dst_port : ℕ
  pub udp_length : ℕ
  pub checksum : ℕ

pub record TcpHdr : Type 0 where
  pub src_port : ℕ
  pub dst_port : ℕ
  pub seq_number : ℕ
  pub ack_number : ℕ
  pub data_offset : ℕ
  pub flags : ℕ
  pub window_size : ℕ
  pub checksum : ℕ
  pub urgent_ptr : ℕ

-- `__builtin_bswap16` and `__builtin_bswap32`
abbrev pub htons : ℕ → ℕ
htons x = x % 256 * 256 + x / 256 % 256

abbrev pub htonl : ℕ → ℕ
htonl x = x % 256 * 2 ^ 24 + x / 256 % 256 * 2 ^ 16 + x / 2 ^ 16 % 256 * 256 + x / 2 ^ 24 % 256

-- A field of 16 or 32 bits in the memory of a little-endian host, before further bytes.
abbrev pub put16 : ℕ → List ℕ → List ℕ
put16 x rest = (x % 256) ∷ (x / 256 % 256) ∷ rest

abbrev pub put32 : ℕ → List ℕ → List ℕ
put32 x rest = (x % 256) ∷ (x / 256 % 256) ∷ (x / 2 ^ 16 % 256) ∷ (x / 2 ^ 24 % 256) ∷ rest

abbrev pub mac_bytes : Mac → List ℕ
mac_bytes m = m.b0 ∷ m.b1 ∷ m.b2 ∷ m.b3 ∷ m.b4 ∷ m.b5 ∷ []

abbrev pub ipv4_bytes : Ipv4Hdr → List ℕ
ipv4_bytes h =
    h.ver_ihl
    ∷ h.dscp_ecn
    ∷ put16 h.total_length (
        put16 h.identification (
          put16 h.flags_frag_offset
            (h.ttl ∷ h.protocol ∷ put16 h.header_checksum (put32 h.src_ip (put32 h.dst_ip [])))))

abbrev pub udp_bytes : UdpHdr → List ℕ
udp_bytes h = put16 h.src_port (put16 h.dst_port (put16 h.udp_length (put16 h.checksum [])))

abbrev pub tcp_bytes : TcpHdr → List ℕ
tcp_bytes h = put16 h.src_port (
    put16 h.dst_port (
      put32 h.seq_number (
        put32 h.ack_number (
          h.data_offset
          ∷ h.flags
          ∷ put16 h.window_size (put16 h.checksum (put16 h.urgent_ptr []))))))
