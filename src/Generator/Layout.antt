-- ===== src/Generator/Layout.antt =====
-- What the builders put on the wire, field by field in network order.
use fpga_network_processing.Base.{List, [], arith, length, ℕ, ◌%◌, ◌++◌, ◌+◌, ◌/◌, ◌^◌, ◌∷◌, ◌≡◌}
use fpga_network_processing.Generator.Checksum.{ip_checksum}
use fpga_network_processing.Generator.Header.{Mac, mac_bytes}
use fpga_network_processing.Generator.Build.{
  PacketGen, make_udp_packet, make_tcp_packet, make_arp_packet,
}

-- A field of 16 or 32 bits, highest byte first, before further bytes.
abbrev pub be16 : ℕ → List ℕ → List ℕ
be16 x rest = (x / 256 % 256) ∷ (x % 256) ∷ rest

abbrev pub be32 : ℕ → List ℕ → List ℕ
be32 x rest = be16 (x / 2 ^ 16) (be16 x rest)

abbrev pub eth_wire : Mac → Mac → ℕ → List ℕ → List ℕ
eth_wire src dst ethertype rest = mac_bytes dst ++ (mac_bytes src ++ be16 ethertype rest)

-- The two checksum bytes are given.
abbrev pub ipv4_wire : ℕ → ℕ → ℕ → ℕ → ℕ → ℕ → ℕ → List ℕ → List ℕ
ipv4_wire total id protocol c0 c1 src dst rest =
    0x45 ∷ 0 ∷ be16 total (be16 id (0 ∷ 0 ∷ 64 ∷ protocol ∷ c0 ∷ c1 ∷ be32 src (be32 dst rest)))

abbrev pub udp_wire : ℕ → ℕ → ℕ → List ℕ → List ℕ
udp_wire src dst len rest = be16 src (be16 dst (be16 len (0 ∷ 0 ∷ rest)))

abbrev pub tcp_wire : ℕ → ℕ → ℕ → List ℕ → List ℕ
tcp_wire src dst flags rest =
    be16 src (be16 dst (be32 1000 (be32 0 (0x50 ∷ flags ∷ be16 65535 (0 ∷ 0 ∷ 0 ∷ 0 ∷ rest)))))

-- The checksum of the header with its checksum bytes 0.
abbrev pub header_sum : ℕ → ℕ → ℕ → ℕ → ℕ → ℕ
header_sum total id protocol src dst = ip_checksum (ipv4_wire total id protocol 0 0 src dst [])

-- The UDP builder lays out, for every payload, an Ethernet header of type IPv4, an IPv4 header
-- with the packet's length from that header on, the generator's identification, TTL 64 and
-- protocol 17, a UDP header with ports and length, and the payload, all in network order but for
-- the IPv4 checksum, whose low byte comes first; and it counts the identification up in 16 bits.
pub make_udp_packet_lem :
    (g : PacketGen) (s d : Mac) (src dst sport dport : ℕ) (payload : List ℕ)
    → let total = (28 + length payload) % 2 ^ 16 in
      let c = header_sum total g.ip_id_counter 17 src dst in
      make_udp_packet g s d src dst sport dport payload ≡ (
        eth_wire s d 0x0800 (
            ipv4_wire total g.ip_id_counter 17
              (c % 256)
              (c / 256 % 256)
              src
              dst
              (udp_wire sport dport ((8 + length payload) % 2 ^ 16) payload)),
        record { ip_id_counter = (g.ip_id_counter + 1) % 2 ^ 16 },
      )
unfolding make_udp_packet
make_udp_packet_lem g s d src dst sport dport payload = ground arith

-- The TCP builder lays out, for every payload and flags, an Ethernet header of type IPv4, an IPv4
-- header with the packet's length from that header on, the generator's identification, TTL 64 and
-- protocol 6, a TCP header of 20 bytes and the payload, all in network order but for the IPv4
-- checksum, whose low byte comes first; and it counts the identification up in 16 bits. The TCP
-- header has the ports, sequence number 1000, acknowledgement 0, the flags given and window 65535.
pub make_tcp_packet_lem :
    (g : PacketGen) (s d : Mac) (src dst sport dport : ℕ) (payload : List ℕ) (flags : ℕ)
    → let total = (40 + length payload) % 2 ^ 16 in
      let c = header_sum total g.ip_id_counter 6 src dst in
      make_tcp_packet g s d src dst sport dport payload flags ≡ (
        eth_wire s d 0x0800 (
            ipv4_wire total g.ip_id_counter 6
              (c % 256)
              (c / 256 % 256)
              src
              dst
              (tcp_wire sport dport flags payload)),
        record { ip_id_counter = (g.ip_id_counter + 1) % 2 ^ 16 },
      )
unfolding make_tcp_packet
make_tcp_packet_lem g s d src dst sport dport payload flags = ground arith

-- The ARP builder lays out an Ethernet header of type ARP and a request of 28 bytes: Ethernet and
-- IPv4 with address lengths 6 and 4, operation 1, then the sender's and the target's addresses.
pub make_arp_packet_lem :
    (s d : Mac) (sender target : ℕ)
    → make_arp_packet s d sender target
      ≡ eth_wire s d 0x0806 (
          be16 1 (
            be16 0x0800
              (6 ∷ 4 ∷ be16 1 (mac_bytes s ++ be32 sender (mac_bytes d ++ be32 target [])))))
unfolding make_arp_packet
make_arp_packet_lem s d sender target = ground arith
