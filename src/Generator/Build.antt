-- ===== src/Generator/Build.antt =====
-- `fill_eth`, `fill_ipv4`, `make_udp_packet`, `make_tcp_packet` and `make_arp_packet` of
-- packet_gen.h. Each works on the vector by resizing it and copying into it, as the C++ does.
use fpga_network_processing.Base.{
  List, Option, [], bit_and, drop, if◌then◌else◌, length, ltb, none, replicate, set, some, suc,
  take, zero, ℕ, ◌%◌, ◌++◌, ◌+◌, ◌-◌, ◌/◌, ◌==◌, ◌^◌, ◌∷◌,
}
use fpga_network_processing.Generator.Checksum.{ip_checksum}
use fpga_network_processing.Generator.Header.{
  Mac, Ipv4Hdr, UdpHdr, TcpHdr, htons, htonl, mac_bytes, ipv4_bytes, udp_bytes, tcp_bytes, put32,
}

-- The generator's own state; the random engine serves `make_random_packet` only.
pub record PacketGen : Type 0 where
  pub ip_id_counter : ℕ

abbrev pub Packet : Type 0
Packet = List ℕ

-- `std::vector::resize`: new bytes are 0.
abbrev pub resize : Packet → ℕ → Packet
resize pkt n = take n pkt ++ replicate (n - length pkt) 0

-- `std::memcpy(pkt.data() + offset, bytes, size)`; also a run of assignments to single bytes.
abbrev pub memcpy : Packet → ℕ → List ℕ → Packet
memcpy pkt offset bytes = take offset pkt ++ (bytes ++ drop (offset + length bytes) pkt)

unfoldable pub fill_eth : Packet → Mac → Mac → ℕ → Packet
fill_eth pkt src_mac dst_mac ethertype =
    let sized = resize pkt 14 in
    let dst = memcpy sized 0 (mac_bytes dst_mac) in
    let src = memcpy dst 6 (mac_bytes src_mac) in
    set (set src 12 (bit_and (ethertype / 2 ^ 8) 0xff)) 13 (bit_and ethertype 0xff)

-- What `fill_ipv4` sets in the header that it is given, before the checksum.
unfoldable pub ipv4_fields : PacketGen → ℕ → Ipv4Hdr → Ipv4Hdr
ipv4_fields g size hdr = record hdr {
  ver_ihl = 0x45;
  dscp_ecn = 0;
  total_length = htons (size % 2 ^ 16);
  identification = htons g.ip_id_counter;
  flags_frag_offset = 0;
  ttl = 64;
  header_checksum = 0;
}

unfoldable pub fill_ipv4 : PacketGen → Packet → ℕ → Ipv4Hdr → Packet × PacketGen
unfolding ipv4_fields
fill_ipv4 g pkt payload_offset hdr =
    let filled = ipv4_fields g (length pkt - payload_offset) hdr in
    let summed = record filled { header_checksum = ip_checksum (ipv4_bytes filled) } in
    (
      memcpy pkt payload_offset (ipv4_bytes summed),
      record { ip_id_counter = (g.ip_id_counter + 1) % 2 ^ 16 },
    )

-- The header that a builder hands to `fill_ipv4`: the fields that it leaves unset are overwritten.
abbrev pub ipv4_request : ℕ → ℕ → ℕ → Ipv4Hdr
ipv4_request src_ip dst_ip protocol = record {
  ver_ihl = 0;
  dscp_ecn = 0;
  total_length = 0;
  identification = 0;
  flags_frag_offset = 0;
  ttl = 0;
  protocol = protocol;
  header_checksum = 0;
  src_ip = htonl src_ip;
  dst_ip = htonl dst_ip;
}

unfoldable pub make_udp_packet : PacketGen → Mac → Mac → ℕ → ℕ → ℕ → ℕ → List ℕ → Packet × PacketGen
unfolding fill_eth fill_ipv4
make_udp_packet g src_mac dst_mac src_ip dst_ip src_port dst_port payload =
    let eth = fill_eth [] src_mac dst_mac 0x0800 in
    let ip_offset = length eth in
    let ip = resize eth (length eth + 20) in
    let udp_offset = length ip in
    let sized = resize ip (length ip + 8) in
    let filled = sized ++ payload in
    let udp : UdpHdr = record {
      src_port = htons src_port;
      dst_port = htons dst_port;
      udp_length = htons ((8 + length payload) % 2 ^ 16);
      checksum = 0;
    } in
    fill_ipv4 g (memcpy filled udp_offset (udp_bytes udp)) ip_offset (ipv4_request src_ip dst_ip 17)

unfoldable pub make_tcp_packet :
    PacketGen → Mac → Mac → ℕ → ℕ → ℕ → ℕ → List ℕ → ℕ → Packet × PacketGen
unfolding fill_eth fill_ipv4
make_tcp_packet g src_mac dst_mac src_ip dst_ip src_port dst_port payload tcp_flags =
    let eth = fill_eth [] src_mac dst_mac 0x0800 in
    let ip_offset = length eth in
    let ip = resize eth (length eth + 20) in
    let tcp_offset = length ip in
    let sized = resize ip (length ip + 20) in
    let filled = sized ++ payload in
    let tcp : TcpHdr = record {
      src_port = htons src_port;
      dst_port = htons dst_port;
      seq_number = htonl 1000;
      ack_number = 0;
      data_offset = 0x50;
      flags = tcp_flags;
      window_size = htons 65535;
      checksum = 0;
      urgent_ptr = 0;
    } in
    fill_ipv4 g (memcpy filled tcp_offset (tcp_bytes tcp)) ip_offset (ipv4_request src_ip dst_ip 6)

unfoldable pub make_arp_packet : Mac → Mac → ℕ → ℕ → Packet
unfolding fill_eth
make_arp_packet src_mac dst_mac sender_ip target_ip =
    let eth = fill_eth [] src_mac dst_mac 0x0806 in
    let sized = resize eth (length eth + 28) in
    let fixed = memcpy sized 14 (0x00 ∷ 0x01 ∷ 0x08 ∷ 0x00 ∷ 6 ∷ 4 ∷ 0x00 ∷ 0x01 ∷ []) in
    let sender = memcpy fixed 22 (mac_bytes src_mac) in
    let sender' = memcpy sender 28 (put32 (htonl sender_ip) []) in
    let target = memcpy sender' 32 (mac_bytes dst_mac) in
    memcpy target 38 (put32 (htonl target_ip) [])

-- What the distributions of `make_random_packet` and the engine give; the code does not fix the
-- order of the two addresses, nor that of the two ports.
pub record Draws : Type 0 where
  pub byte : ℕ → ℕ
  pub proto : ℕ
  pub src_ip : ℕ
  pub dst_ip : ℕ
  pub src_port : ℕ
  pub dst_port : ℕ

abbrev pub draw_bytes : (ℕ → ℕ) → ℕ → ℕ → List ℕ
draw_bytes byte i zero = []
draw_bytes byte i (suc left) = bit_and (byte i) 0xff ∷ draw_bytes byte (i + 1) left

-- Below 42 bytes the size of the payload wraps to nearly 2 ^ 64, and the vector cannot be made.
unfoldable pub make_random_packet : PacketGen → Draws → ℕ → Option (Packet × PacketGen)
unfolding make_udp_packet make_tcp_packet
make_random_packet g d total_bytes =
    let src_mac : Mac = record { b0 = 2; b1 = 0; b2 = 0; b3 = 0; b4 = 0; b5 = 1 } in
    let dst_mac : Mac = record { b0 = 2; b1 = 0; b2 = 0; b3 = 0; b4 = 0; b5 = 2 } in
    let payload = draw_bytes d.byte 0 (total_bytes - 42) in
    if ltb total_bytes 42
    then none
    else if d.proto == 0
    then some (make_udp_packet g src_mac dst_mac d.src_ip d.dst_ip d.src_port d.dst_port payload)
    else some
        (make_tcp_packet g src_mac dst_mac d.src_ip d.dst_ip d.src_port d.dst_port payload 0x02)
