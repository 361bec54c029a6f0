-- ===== src/Generator/Random.antt =====
-- The size of a random packet.
use fpga_network_processing.Base.{
  List, Option, ap, arith, if◌then◌else◌, length, ltb, none, refl, some, suc, zero, ℕ, ◌+◌, ◌-◌,
  ◌==◌, ◌∙◌, ◌≡◌,
}
use fpga_network_processing.Generator.Header.{Mac}
use fpga_network_processing.Generator.Build.{
  PacketGen, Draws, Packet, draw_bytes, make_udp_packet, make_tcp_packet, make_random_packet,
}
use fpga_network_processing.Generator.Layout.{make_udp_packet_lem, make_tcp_packet_lem}

length-draw_bytes : (byte : ℕ → ℕ) (i n : ℕ) → length (draw_bytes byte i n) ≡ n
length-draw_bytes byte i zero = refl
length-draw_bytes byte i (suc n) = ap suc (length-draw_bytes byte (i + 1) n)

length-make_udp_packet :
    (g : PacketGen) (s d : Mac) (src dst sport dport : ℕ) (payload : List ℕ)
    → length (make_udp_packet g s d src dst sport dport payload).0 ≡ 42 + length payload
length-make_udp_packet g s d src dst sport dport payload =
    ap (λ (r : Packet × PacketGen). length r.0)
      (make_udp_packet_lem g s d src dst sport dport payload)
    ∙ omega arith

length-make_tcp_packet :
    (g : PacketGen) (s d : Mac) (src dst sport dport : ℕ) (payload : List ℕ) (flags : ℕ)
    → length (make_tcp_packet g s d src dst sport dport payload flags).0 ≡ 54 + length payload
length-make_tcp_packet g s d src dst sport dport payload flags =
    ap (λ (r : Packet × PacketGen). length r.0)
      (make_tcp_packet_lem g s d src dst sport dport payload flags)
    ∙ omega arith

abbrev pub size_of : Option (Packet × PacketGen) → Option ℕ
size_of o = elim o [ none ↦ none | some r ↦ some (length r.0) ]

-- A random packet of 42 bytes or more has the size asked for if it is a UDP packet, and 12 bytes
-- more if it is a TCP packet; a smaller one cannot be made.
pub make_random_packet-length :
    (g : PacketGen) (d : Draws) (total : ℕ)
    → size_of (make_random_packet g d total)
      ≡ (if ltb total 42 then none else some (if d.proto == 0 then total else total + 12))
unfolding make_random_packet
make_random_packet-length g d total =
    let src : Mac = record { b0 = 2; b1 = 0; b2 = 0; b3 = 0; b4 = 0; b5 = 1 } in
    let dst : Mac = record { b0 = 2; b1 = 0; b2 = 0; b3 = 0; b4 = 0; b5 = 2 } in
    let payload = draw_bytes d.byte 0 (total - 42) in
    ground (
      arith,
      length-draw_bytes d.byte 0 (total - 42),
      length-make_udp_packet g src dst d.src_ip d.dst_ip d.src_port d.dst_port payload,
      length-make_tcp_packet g src dst d.src_ip d.dst_ip d.src_port d.dst_port payload 0x02,
    )
