-- ===== src/Generator/Tests.antt =====
-- Packets that can be followed by hand, and the theorems at concrete inputs.
use fpga_network_processing.Base.{[], arith, refl, some, ◌%◌, ◌*◌, ◌++◌, ◌/◌, ◌<◌, ◌^◌, ◌∷◌, ◌≡◌}
use fpga_network_processing.Generator.Checksum.{sum_words, fold_carries, ip_checksum}
use fpga_network_processing.Generator.Header.{Mac, mac_bytes}
use fpga_network_processing.Generator.Carries.{end_around, fold_carries_ends}
use fpga_network_processing.Generator.Build.{
  PacketGen, make_udp_packet, make_tcp_packet, make_arp_packet, make_random_packet,
}
use fpga_network_processing.Generator.Random.{size_of, make_random_packet-length}
use fpga_network_processing.Generator.Layout.{
  eth_wire, ipv4_wire, udp_wire, tcp_wire, be16, be32, header_sum, make_udp_packet_lem,
  make_tcp_packet_lem, make_arp_packet_lem,
}

-- The addresses of the testbenches.
abbrev smac : Mac
smac = record { b0 = 2; b1 = 0; b2 = 0; b3 = 0; b4 = 0; b5 = 1 }

abbrev dmac : Mac
dmac = record { b0 = 2; b1 = 0; b2 = 0; b3 = 0; b4 = 0; b5 = 2 }

abbrev fresh : PacketGen
fresh = record { ip_id_counter = 0 }

-- The checksum of the header of the first packet of tb_axis_fifo.cpp is 0xf978, and its bytes
-- 24 and 25 are 0x78 and 0xf9.
first_packet :
    (make_udp_packet fresh smac dmac 0xc0a80001 0xc0a80002 1234 80
      (72 ∷ 101 ∷ 108 ∷ 108 ∷ 111 ∷ [])).0
    ≡ 2 ∷ 0 ∷ 0 ∷ 0 ∷ 0 ∷ 2 ∷ 2 ∷ 0 ∷ 0 ∷ 0 ∷ 0 ∷ 1 ∷ 8 ∷ 0 ∷ 0x45 ∷ 0 ∷ 0 ∷ 33 ∷ 0 ∷ 0 ∷ 0 ∷ 0 ∷ 64
      ∷ 17 ∷ 0x78 ∷ 0xf9 ∷ 192 ∷ 168 ∷ 0 ∷ 1 ∷ 192 ∷ 168 ∷ 0 ∷ 2 ∷ 4 ∷ 210 ∷ 0 ∷ 80 ∷ 0 ∷ 13 ∷ 0 ∷ 0
      ∷ 72 ∷ 101 ∷ 108 ∷ 108 ∷ 111 ∷ []
unfolding make_udp_packet ip_checksum sum_words fold_carries
first_packet = refl

make_udp_packet_lem_example :
    let c = header_sum 30 7 17 0xc0a80001 0xc0a80002 in
    make_udp_packet
      (record { ip_id_counter = 7 })
      smac
      dmac
      0xc0a80001
      0xc0a80002
      53
      1234
      (68 ∷ 78 ∷ [])
    ≡ (
      eth_wire smac dmac 0x0800 (
          ipv4_wire 30 7 17
            (c % 256)
            (c / 256 % 256)
            0xc0a80001
            0xc0a80002
            (udp_wire 53 1234 10 (68 ∷ 78 ∷ []))),
      record { ip_id_counter = 8 },
    )
make_udp_packet_lem_example =
    make_udp_packet_lem (record { ip_id_counter = 7 }) smac dmac 0xc0a80001 0xc0a80002 53 1234
      (68 ∷ 78 ∷ [])

make_tcp_packet_lem_example :
    let c = header_sum 42 65535 6 0xc0a80001 0xc0a80002 in
    make_tcp_packet
      (record { ip_id_counter = 65535 })
      smac
      dmac
      0xc0a80001
      0xc0a80002
      80
      55555
      (72 ∷ 84 ∷ [])
      0x02
    ≡ (
      eth_wire smac dmac 0x0800 (
          ipv4_wire 42 65535 6
            (c % 256)
            (c / 256 % 256)
            0xc0a80001
            0xc0a80002
            (tcp_wire 80 55555 0x02 (72 ∷ 84 ∷ []))),
      record { ip_id_counter = 0 },
    )
make_tcp_packet_lem_example =
    make_tcp_packet_lem (record { ip_id_counter = 65535 }) smac dmac 0xc0a80001 0xc0a80002 80 55555
      (72 ∷ 84 ∷ []) 0x02

make_arp_packet_lem_example :
    make_arp_packet smac dmac 0xc0a80001 0xc0a80002
    ≡ eth_wire smac dmac 0x0806 (
        be16 1 (
          be16 0x0800 (
            6
            ∷ 4
            ∷ be16 1 (mac_bytes smac ++ be32 0xc0a80001 (mac_bytes dmac ++ be32 0xc0a80002 [])))))
make_arp_packet_lem_example = make_arp_packet_lem smac dmac 0xc0a80001 0xc0a80002

fold_carries_ends_example :
    (fold_carries 5 0x2fffe ≡ 1) × (end_around (end_around 0x2fffe) < 2 ^ 16)
fold_carries_ends_example = fold_carries_ends 3 0x2fffe (omega arith)

-- A TCP packet of 100 bytes has 112.
make_random_packet-length_example :
    size_of (
      make_random_packet fresh
        (record {
          byte = λ i. i * 7;
          proto = 1;
          src_ip = 0xc0a80001;
          dst_ip = 0xc0a80002;
          src_port = 1024;
          dst_port = 1025;
        })
        100)
    ≡ some 112
make_random_packet-length_example =
    make_random_packet-length fresh
      (record {
        byte = λ i. i * 7;
        proto = 1;
        src_ip = 0xc0a80001;
        dst_ip = 0xc0a80002;
        src_port = 1024;
        dst_port = 1025;
      })
      100
