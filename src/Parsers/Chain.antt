-- ===== src/Parsers/Chain.antt =====
-- The parsers of parser_pipeline.sv one after the other, and the match table behind them, on the
-- first beat of a packet of the generator that fits in one beat of 512 bits.
use mathlib.Core.Path.{subst}
use fpga_network_processing.Base.{
  Bool, List, ap, arith, false, if◌then◌else◌, length, not, refl, sym, true, ℕ, ◌%◌, ◌&&◌, ◌*◌, ◌+◌,
  ◌/◌, ◌<◌, ◌==◌, ◌^◌, ◌||◌, ◌∙◌, ◌≡◌, ◌≤◌,
}
use fpga_network_processing.Generator.Header.{Mac, mac_bytes}
use fpga_network_processing.Generator.Carries.{AllBytes}
use fpga_network_processing.Generator.Build.{PacketGen, make_udp_packet}
use fpga_network_processing.Generator.Bytes.{AllBytes-make_udp_packet}
use fpga_network_processing.Generator.Layout.{udp_wire, header_sum, make_udp_packet_lem}
use fpga_network_processing.Meta.{PacketMetadata}
use fpga_network_processing.Ipv4Parser.{word16_be}
use fpga_network_processing.Ipv4Parser
use fpga_network_processing.Ipv4Parser.Number.{number, word16-number}
use fpga_network_processing.Ipv4Parser.Fields.{wire, parse_lem}
use fpga_network_processing.Parsers.Ethernet
use fpga_network_processing.Parsers.Vlan
use fpga_network_processing.Parsers.Transport.{l4_off, udp_at, tcp_at, parse_udp, parse_tcp}
use fpga_network_processing.MatchTable.{match_rules, mod_nop, mod_ttl_dec, Match, action_allow}
use fpga_network_processing.MatchTable.Rules.{match_rules_lem, allowed, to_port}

-- The metadata in front of the parsers of UDP and TCP, and what the two find together.
unfoldable pub up_to_ip : ℕ → PacketMetadata → PacketMetadata
up_to_ip d meta = Ipv4Parser.parse d (Vlan.parse d (Ethernet.parse d meta))

unfoldable pub parse_l4 : ℕ → PacketMetadata → PacketMetadata
parse_l4 d meta = if (parse_tcp d meta).tcp_valid then parse_tcp d meta else parse_udp d meta

unfoldable pub parse_all : ℕ → PacketMetadata → PacketMetadata
unfolding up_to_ip parse_l4
parse_all d meta = parse_l4 d (up_to_ip d meta)

-- The metadata of a packet without a tag is as the Ethernet parser leaves it.
no_tag :
    (d : ℕ) (meta : PacketMetadata)
    → word16_be d 12 ≡ 0x0800
    → Vlan.parse d (Ethernet.parse d meta) ≡ Ethernet.parse d meta
unfolding Vlan.parse Ethernet.parse
no_tag d meta e =
    ap
      (λ t.
        if t == 0x8100
        then Vlan.with_tag (word16_be d 14) (word16_be d 16) (Ethernet.parse d meta)
        else Ethernet.parse d meta)
      e

-- What the parsers of UDP and TCP make of the metadata of a UDP packet without a tag, whose header
-- has 5 words.
l4_udp :
    (d : ℕ) (meta : PacketMetadata) (sport dport : ℕ)
    → meta.protocol ≡ 17
    → meta.ipv4_valid ≡ true
    → meta.vlan_valid ≡ false
    → meta.ip_hdr_len ≡ 5
    → meta.tcp_valid ≡ false
    → word16_be d 34 ≡ sport
    → word16_be d 36 ≡ dport
    → parse_l4 d meta ≡ record meta { udp_valid = true; src_port = sport; dst_port = dport }
unfolding parse_l4 parse_udp parse_tcp udp_at l4_off
l4_udp d meta sport dport p v t l n es ed =
    let not_tcp : parse_tcp d meta ≡ meta =
      ap (λ q. if q == 6 && meta.ipv4_valid then tcp_at d (l4_off meta) meta else meta) p in
    let is_udp : parse_udp d meta ≡ udp_at d (l4_off meta) meta =
      λ i. if p i == 17 && v i then udp_at d (l4_off meta) meta else meta in
    let off : l4_off meta ≡ 34 = λ i. (14 + (if t i then 4 else 0) + l i * 4) % 2 ^ 6 in
    ap (λ (m : PacketMetadata). if m.tcp_valid then m else parse_udp d meta) not_tcp
    ∙ ap (λ (c : Bool). if c then meta else parse_udp d meta) n
    ∙ is_udp
    ∙ ap (λ o. udp_at d o meta) off
    ∙ λ i. record meta { udp_valid = true; src_port = es i; dst_port = ed i }

-- The Ethernet header of a packet of type IPv4.
eth_fields :
    (d : ℕ) (meta : PacketMetadata)
    → word16_be d 12 ≡ 0x0800
    → ((Ethernet.parse d meta).ethertype ≡ 0x0800) × ((Ethernet.parse d meta).vlan_valid ≡ false)
unfolding Ethernet.parse
eth_fields d meta e = (e, ap (λ t. t == 0x8100) e)

eth_keeps : (d : ℕ) (meta : PacketMetadata) → (Ethernet.parse d meta).tcp_valid ≡ meta.tcp_valid
unfolding Ethernet.parse
eth_keeps d meta = refl

-- The packet that the UDP builder makes, as bytes of the wire.
module _ (g : PacketGen) (s d : Mac) (src dst sport dport : ℕ) (payload : List ℕ) where
  abbrev total : ℕ
  total = (28 + length payload) % 2 ^ 16

  abbrev sum : ℕ
  sum = header_sum total g.ip_id_counter 17 src dst

  abbrev packet : List ℕ
  packet =
      wire s d total g.ip_id_counter 17 (sum % 256) (sum / 256 % 256) src dst
        (udp_wire sport dport ((8 + length payload) % 2 ^ 16) payload)

  -- What the parsers find in it.
  abbrev pub udp_meta : PacketMetadata → PacketMetadata
  udp_meta meta = record (Ethernet.parse (number packet) meta) {
    ipv4_valid = true;
    src_ip = src;
    dst_ip = dst;
    protocol = 17;
    ttl = 64;
    ip_hdr_len = 5;
    ip_checksum_ok = sum / 256 == sum % 256;
    udp_valid = true;
    src_port = sport;
    dst_port = dport;
  }

  module _ (b : AllBytes packet) (fits : length packet ≤ 64) (hs : src < 2 ^ 32) (hd : dst < 2 ^ 32)
      (ps : sport < 2 ^ 16) (pd : dport < 2 ^ 16) where
    parse_packet :
        (meta : PacketMetadata)
        → meta.tcp_valid ≡ false
        → parse_all (number packet) meta ≡ udp_meta meta
    unfolding parse_all up_to_ip
    parse_packet meta n =
        let d0 = number packet in
        let m1 = Ethernet.parse d0 meta in
        let e : word16_be d0 12 ≡ 0x0800 = word16-number packet 12 b in
        let (etype, untagged) = eth_fields d0 meta e in
        let es : word16_be d0 34 ≡ sport = word16-number packet 34 b ∙ omega arith in
        let ed : word16_be d0 36 ≡ dport = word16-number packet 36 b ∙ omega arith in
        let m3 : PacketMetadata = record m1 {
          ipv4_valid = true;
          src_ip = src;
          dst_ip = dst;
          protocol = 17;
          ttl = 64;
          ip_hdr_len = 5;
          ip_checksum_ok = sum / 256 == sum % 256;
        } in
        ap (λ (m : PacketMetadata). parse_l4 d0 (Ipv4Parser.parse d0 m)) (no_tag d0 meta e)
        ∙ ap (parse_l4 d0) (
            parse_lem m1 s d total g.ip_id_counter 17 src dst
              (udp_wire sport dport ((8 + length payload) % 2 ^ 16) payload) etype untagged hs hd
              (omega arith) b fits)
        ∙ l4_udp d0 m3 sport dport refl refl untagged refl (eth_keeps d0 meta ∙ n) es ed

-- What the parsers and the match table say of a packet's metadata.
abbrev pub Says : ℕ → ℕ → ℕ → ℕ → PacketMetadata → Type 0
Says src dst sport dport m =
    (m.ethertype ≡ 0x0800)
    × (m.udp_valid ≡ true)
    × (m.src_ip ≡ src)
    × (m.dst_ip ≡ dst)
    × (m.protocol ≡ 17)
    × (m.src_port ≡ sport)
    × (m.dst_port ≡ dport)
    × ((match_rules m).class ≡ (if 53 == dport then 1 else 0))
    × ((match_rules m).action ≡ action_allow)

class_lem :
    (m : PacketMetadata) (dport : ℕ)
    → m.protocol ≡ 17
    → m.udp_valid ≡ true
    → m.dst_port ≡ dport
    → match_rules m ≡ (if 53 == dport then allowed 1 mod_nop else allowed 0 mod_ttl_dec)
class_lem m dport p v e = match_rules_lem m ∙ λ i.
    if 17 == p i && (not (v i || m.tcp_valid) || 53 == e i)
    then allowed 1 mod_nop
    else if 6 == p i && to_port 80 m
    then allowed 2 mod_nop
    else if 6 == p i && to_port 443 m
    then allowed 3 mod_nop
    else if 6 == p i && to_port 22 m
    then allowed 4 mod_nop
    else allowed 0 mod_ttl_dec

-- On a UDP packet of the generator that fits in one beat, with addresses of 32 bits and ports of
-- 16, the parsers find type IPv4, a UDP header, the addresses, protocol 17 and the ports, whatever
-- the metadata before, if it has no TCP header; and the match table allows the packet, with class
-- 1 if it is for port 53, and class 0 otherwise.
pub parse_all_udp :
    (g : PacketGen) (s d : Mac) (src dst sport dport : ℕ) (payload : List ℕ) (meta : PacketMetadata)
    → AllBytes (mac_bytes s)
    → AllBytes (mac_bytes d)
    → AllBytes payload
    → length payload ≤ 22
    → src < 2 ^ 32
    → dst < 2 ^ 32
    → sport < 2 ^ 16
    → dport < 2 ^ 16
    → meta.tcp_valid ≡ false
    → let pkt = (make_udp_packet g s d src dst sport dport payload).0 in
      Says src dst sport dport (parse_all (number pkt) meta)
parse_all_udp g s d src dst sport dport payload meta bs bd bp few hs hd ps pd n =
    let same = ap (λ r. r.0) (make_udp_packet_lem g s d src dst sport dport payload) in
    let (b, size) = AllBytes-make_udp_packet g s d src dst sport dport payload bs bd bp in
    let wired = packet g s d src dst sport dport payload in
    let b' : AllBytes wired = subst AllBytes same b in
    let fits : length wired ≤ 64 = omega (arith, ap length same, size) in
    let m = udp_meta g s d src dst sport dport payload meta in
    let e = parse_packet g s d src dst sport dport payload b' fits hs hd ps pd meta n in
    let class = class_lem m dport refl refl refl in
    let etype : m.ethertype ≡ 0x0800 =
      (eth_fields (number wired) meta (word16-number wired 12 b')).0 in
    subst (λ (pkt : List ℕ). Says src dst sport dport (parse_all (number pkt) meta)) (sym same)
      (subst (Says src dst sport dport) (sym e) (
        etype,
        refl,
        refl,
        refl,
        refl,
        refl,
        refl,
        ap (λ (c : Match). c.class) class ∙ class_if (53 == dport),
        ap (λ (c : Match). c.action) class ∙ allow_if (53 == dport),
      ))
  where
    class_if :
        (c : Bool)
        → (if c then allowed 1 mod_nop else allowed 0 mod_ttl_dec).class ≡ (if c then 1 else 0)
    class_if true = refl
    class_if false = refl

    allow_if :
        (c : Bool) → (if c then allowed 1 mod_nop else allowed 0 mod_ttl_dec).action ≡ action_allow
    allow_if true = refl
    allow_if false = refl
