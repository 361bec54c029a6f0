-- ===== src/Generator/Bytes.antt =====
-- The bytes and the length of what the builders of packet_gen.h make.
use mathlib.Core.Path.{subst}
use Prim.{tt}
use fpga_network_processing.Base.{
  List, [], ap, arith, length, sym, ℕ, ◌%◌, ◌++◌, ◌+◌, ◌/◌, ◌<◌, ◌^◌, ◌∷◌, ◌≡◌,
}
use fpga_network_processing.Generator.Header.{Mac, mac_bytes}
use fpga_network_processing.Generator.Carries.{AllBytes}
use fpga_network_processing.Generator.Build.{
  PacketGen, make_udp_packet, make_tcp_packet, make_arp_packet,
}
use fpga_network_processing.Generator.Layout.{
  udp_wire, tcp_wire, ipv4_wire, be16, be32, header_sum, make_udp_packet_lem, make_tcp_packet_lem,
  make_arp_packet_lem,
}

AllBytes-be16 : (x : ℕ) (rest : List ℕ) → AllBytes rest → AllBytes (be16 x rest)
AllBytes-be16 x rest h = (omega arith, (omega arith, h))

AllBytes-be32 : (x : ℕ) (rest : List ℕ) → AllBytes rest → AllBytes (be32 x rest)
AllBytes-be32 x rest h = AllBytes-be16 (x / 2 ^ 16) (be16 x rest) (AllBytes-be16 x rest h)

AllBytes-append : (xs ys : List ℕ) → AllBytes xs → AllBytes ys → AllBytes (xs ++ ys)
AllBytes-append [] ys hx hy = hy
AllBytes-append (x ∷ xs) ys hx hy = (hx.0, AllBytes-append xs ys hx.1 hy)

-- From addresses and a payload of bytes, the UDP builder makes a packet of bytes, 42 longer than
-- the payload.
pub AllBytes-make_udp_packet :
    (g : PacketGen) (s d : Mac) (src dst sport dport : ℕ) (payload : List ℕ)
    → AllBytes (mac_bytes s)
    → AllBytes (mac_bytes d)
    → AllBytes payload
    → let pkt = (make_udp_packet g s d src dst sport dport payload).0 in
      AllBytes pkt × (length pkt ≡ 42 + length payload)
AllBytes-make_udp_packet g s d src dst sport dport payload hs hd hp =
    let total = (28 + length payload) % 2 ^ 16 in
    let c = header_sum total g.ip_id_counter 17 src dst in
    let udp = udp_wire sport dport ((8 + length payload) % 2 ^ 16) payload in
    let size = (8 + length payload) % 2 ^ 16 in
    let zeros = 0 ∷ 0 ∷ payload in
    let fields = 0 ∷ 0 ∷ 64 ∷ 17 ∷ c % 256 ∷ c / 256 % 256 ∷ be32 src (be32 dst udp) in
    let h0 : AllBytes zeros = (omega arith, (omega arith, hp)) in
    let h1 : AllBytes udp =
      AllBytes-be16 sport (be16 dport (be16 size zeros))
        (AllBytes-be16 dport (be16 size zeros) (AllBytes-be16 size zeros h0)) in
    let h2 = AllBytes-be32 src (be32 dst udp) (AllBytes-be32 dst udp h1) in
    let h3 : AllBytes fields = (
      omega arith,
      (omega arith, (omega arith, (omega arith, (omega arith, (omega arith, h2))))),
    ) in
    let h4 : AllBytes (0x45 ∷ 0 ∷ be16 total (be16 g.ip_id_counter fields)) = (
      omega arith,
      (
        omega arith,
        AllBytes-be16 total (be16 g.ip_id_counter fields) (AllBytes-be16 g.ip_id_counter fields h3),
      ),
    ) in
    let ip = 0x45 ∷ 0 ∷ be16 total (be16 g.ip_id_counter fields) in
    subst (λ (pkt : List ℕ). AllBytes pkt × (length pkt ≡ 42 + length payload))
      (sym (ap (λ r. r.0) (make_udp_packet_lem g s d src dst sport dport payload)))
      (
        AllBytes-append (mac_bytes d) (mac_bytes s ++ be16 0x0800 ip) hd
            (AllBytes-append (mac_bytes s) (be16 0x0800 ip) hs (AllBytes-be16 0x0800 ip h4)),
        omega arith,
      )

-- The IPv4 header and what follows it.
AllBytes-ipv4 :
    (total id protocol c src dst : ℕ) (rest : List ℕ)
    → protocol < 256
    → AllBytes rest
    → AllBytes (ipv4_wire total id protocol (c % 256) (c / 256 % 256) src dst rest)
AllBytes-ipv4 total id protocol c src dst rest small h =
    let h1 = AllBytes-be32 src (be32 dst rest) (AllBytes-be32 dst rest h) in
    let fields = 0 ∷ 0 ∷ 64 ∷ protocol ∷ c % 256 ∷ c / 256 % 256 ∷ be32 src (be32 dst rest) in
    let h2 : AllBytes fields =
      (omega arith, (omega arith, (omega arith, (small, (omega arith, (omega arith, h1)))))) in
    (omega arith, (omega arith, AllBytes-be16 total (be16 id fields) (AllBytes-be16 id fields h2)))

-- From addresses and a payload of bytes and flags of 8 bits, the TCP builder makes a packet of
-- bytes, 54 longer than the payload.
pub AllBytes-make_tcp_packet :
    (g : PacketGen) (s d : Mac) (src dst sport dport : ℕ) (payload : List ℕ) (flags : ℕ)
    → AllBytes (mac_bytes s)
    → AllBytes (mac_bytes d)
    → AllBytes payload
    → flags < 256
    → let pkt = (make_tcp_packet g s d src dst sport dport payload flags).0 in
      AllBytes pkt × (length pkt ≡ 54 + length payload)
AllBytes-make_tcp_packet g s d src dst sport dport payload flags hs hd hp hf =
    let total = (40 + length payload) % 2 ^ 16 in
    let c = header_sum total g.ip_id_counter 6 src dst in
    let tcp = tcp_wire sport dport flags payload in
    let zeros = 0 ∷ 0 ∷ 0 ∷ 0 ∷ payload in
    let tail = 0x50 ∷ flags ∷ be16 65535 zeros in
    let h0 : AllBytes zeros = (omega arith, (omega arith, (omega arith, (omega arith, hp)))) in
    let h1 : AllBytes tail = (omega arith, (hf, AllBytes-be16 65535 zeros h0)) in
    let h2 : AllBytes tcp = AllBytes-be16 sport (be16 dport (be32 1000 (be32 0 tail))) (
      AllBytes-be16 dport (be32 1000 (be32 0 tail))
        (AllBytes-be32 1000 (be32 0 tail) (AllBytes-be32 0 tail h1))) in
    let ip = ipv4_wire total g.ip_id_counter 6 (c % 256) (c / 256 % 256) src dst tcp in
    let h3 : AllBytes ip = AllBytes-ipv4 total g.ip_id_counter 6 c src dst tcp (omega arith) h2 in
    subst (λ (pkt : List ℕ). AllBytes pkt × (length pkt ≡ 54 + length payload))
      (sym (ap (λ r. r.0) (make_tcp_packet_lem g s d src dst sport dport payload flags)))
      (
        AllBytes-append (mac_bytes d) (mac_bytes s ++ be16 0x0800 ip) hd
            (AllBytes-append (mac_bytes s) (be16 0x0800 ip) hs (AllBytes-be16 0x0800 ip h3)),
        omega arith,
      )

-- From addresses of bytes the ARP builder makes a packet of 42 bytes.
pub AllBytes-make_arp_packet :
    (s d : Mac) (sender target : ℕ)
    → AllBytes (mac_bytes s)
    → AllBytes (mac_bytes d)
    → let pkt = make_arp_packet s d sender target in AllBytes pkt × (length pkt ≡ 42)
AllBytes-make_arp_packet s d sender target hs hd =
    let there = mac_bytes d ++ be32 target [] in
    let here = mac_bytes s ++ be32 sender there in
    let sizes = 6 ∷ 4 ∷ be16 1 here in
    let h1 = AllBytes-append (mac_bytes d) (be32 target []) hd (AllBytes-be32 target [] tt) in
    let h2 = AllBytes-append (mac_bytes s) (be32 sender there) hs (AllBytes-be32 sender there h1) in
    let h3 : AllBytes sizes = (omega arith, (omega arith, AllBytes-be16 1 here h2)) in
    let body = be16 1 (be16 0x0800 sizes) in
    let h4 = AllBytes-be16 1 (be16 0x0800 sizes) (AllBytes-be16 0x0800 sizes h3) in
    subst (λ (pkt : List ℕ). AllBytes pkt × (length pkt ≡ 42))
      (sym (make_arp_packet_lem s d sender target))
      (
        AllBytes-append (mac_bytes d) (mac_bytes s ++ be16 0x0806 body) hd
            (AllBytes-append (mac_bytes s) (be16 0x0806 body) hs (AllBytes-be16 0x0806 body h4)),
        omega arith,
      )
