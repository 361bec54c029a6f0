-- ===== src/Ipv4Parser/Fields.antt =====
-- What ipv4_parser.sv reads from a packet of the generator.
use mathlib.Core.Path.{subst}
use fpga_network_processing.Base.{
  List, [], ap, arith, false, if◌then◌else◌, length, sym, true, ℕ, ◌%◌, ◌*◌, ◌+◌, ◌-◌, ◌/◌, ◌<◌,
  ◌==◌, ◌^◌, ◌↔◌, ◌∙◌, ◌≡◌, ◌≤◌,
}
use fpga_network_processing.Generator.Carries.{AllBytes, end_around, words_total, ip_checksum-total}
use fpga_network_processing.Generator.Header.{Mac}
use fpga_network_processing.Generator.Layout.{eth_wire, ipv4_wire, header_sum}
use fpga_network_processing.Meta.{PacketMetadata}
use fpga_network_processing.Ipv4Parser.{
  byte_at, word32_be, sum_from, fold_once, ip_checksum, ip_off, parse_at, parse,
}
use fpga_network_processing.Ipv4Parser.Number.{number, byte_at-number, word16-number, word32-number}

-- Carries added round change a sum by a multiple of 65535.
folded : (w : ℕ) → w < 2 ^ 20 → (q : ℕ) × (q < 17) × (w ≡ end_around (end_around w) + 65535 * q)
folded w h = (w / 65536 + (w % 65536 + w / 65536) / 65536, omega arith, omega arith)

swapped_ok :
    (w f q hi lo : ℕ)
    → w ≡ f + 65535 * q
    → q < 17
    → f + (hi * 256 + lo) ≡ 65535
    → hi < 256
    → lo < 256
    → (2 ^ 16 - 1 - fold_once (fold_once (w + (lo * 256 + hi))) % 2 ^ 16 ≡ 0) ↔ (hi ≡ lo)
swapped_ok w f q hi lo e small sum h l = (λ z. omega arith, λ z. omega arith)

-- The words of the header.
abbrev pub header_words : ℕ → ℕ → ℕ → ℕ → ℕ → ℕ
header_words total id protocol src dst = words_total (ipv4_wire total id protocol 0 0 src dst [])

-- The header's bytes with a checksum of 0 are bytes, and their words sum to less than 2 ^ 20.
header_bytes :
    (total id protocol src dst : ℕ)
    → protocol < 256
    → AllBytes (ipv4_wire total id protocol 0 0 src dst [])
header_bytes total id protocol src dst h = omega arith

header_words-lt :
    (total id protocol src dst : ℕ)
    → protocol < 256
    → header_words total id protocol src dst < 2 ^ 20
header_words-lt total id protocol src dst h = omega arith

-- The bytes of a packet of the generator, with the checksum bytes `c0` and `c1`.
abbrev pub wire : Mac → Mac → ℕ → ℕ → ℕ → ℕ → ℕ → ℕ → ℕ → List ℕ → List ℕ
wire s d total id protocol c0 c1 src dst rest =
    eth_wire s d 0x0800 (ipv4_wire total id protocol c0 c1 src dst rest)

module _ (s d : Mac) (total id protocol c0 c1 src dst : ℕ) (rest : List ℕ)
    (b : AllBytes (wire s d total id protocol c0 c1 src dst rest)) where
  -- The loop of the parser's checksum adds the words of the header up.
  sum_lem :
      protocol < 256
      → c0 < 256
      → c1 < 256
      → sum_from 10 0 (number (wire s d total id protocol c0 c1 src dst rest)) 14 0
        ≡ header_words total id protocol src dst + (c0 * 256 + c1)
  unfolding sum_from
  sum_lem h h0 h1 = omega (
    arith,
    word16-number (wire s d total id protocol c0 c1 src dst rest) 14 b,
    word16-number (wire s d total id protocol c0 c1 src dst rest) 16 b,
    word16-number (wire s d total id protocol c0 c1 src dst rest) 18 b,
    word16-number (wire s d total id protocol c0 c1 src dst rest) 20 b,
    word16-number (wire s d total id protocol c0 c1 src dst rest) 22 b,
    word16-number (wire s d total id protocol c0 c1 src dst rest) 24 b,
    word16-number (wire s d total id protocol c0 c1 src dst rest) 26 b,
    word16-number (wire s d total id protocol c0 c1 src dst rest) 28 b,
    word16-number (wire s d total id protocol c0 c1 src dst rest) 30 b,
    word16-number (wire s d total id protocol c0 c1 src dst rest) 32 b,
  )

  fields_lem :
      src < 2 ^ 32
      → dst < 2 ^ 32
      → (word32_be (number (wire s d total id protocol c0 c1 src dst rest)) 26 ≡ src)
        × (word32_be (number (wire s d total id protocol c0 c1 src dst rest)) 30 ≡ dst)
        × (byte_at (number (wire s d total id protocol c0 c1 src dst rest)) 23 ≡ protocol)
        × (byte_at (number (wire s d total id protocol c0 c1 src dst rest)) 22 ≡ 64)
        × (byte_at (number (wire s d total id protocol c0 c1 src dst rest)) 14 ≡ 0x45)
  fields_lem hs hd = (
    word32-number (wire s d total id protocol c0 c1 src dst rest) 26 b ∙ omega arith,
    word32-number (wire s d total id protocol c0 c1 src dst rest) 30 b ∙ omega arith,
    byte_at-number (wire s d total id protocol c0 c1 src dst rest) 23 b,
    byte_at-number (wire s d total id protocol c0 c1 src dst rest) 22 b,
    byte_at-number (wire s d total id protocol c0 c1 src dst rest) 14 b,
  )

-- The parser's checksum is 0 exactly when the two bytes of the generator's are equal.
checksum_lem :
    (s d : Mac) (total id protocol src dst : ℕ) (rest : List ℕ)
    → protocol < 256
    → let c = header_sum total id protocol src dst in
      AllBytes (wire s d total id protocol (c % 256) (c / 256 % 256) src dst rest)
      → (ip_checksum (number (wire s d total id protocol (c % 256) (c / 256 % 256) src dst rest)) 14
          ≡ 0)
        ↔ (c / 256 ≡ c % 256)
unfolding ip_checksum
checksum_lem s d total id protocol src dst rest h b =
    let c = header_sum total id protocol src dst in
    let w = header_words total id protocol src dst in
    let small = header_words-lt total id protocol src dst h in
    let f = end_around (end_around w) in
    let sum : c ≡ 2 ^ 16 - 1 - f =
      ip_checksum-total (ipv4_wire total id protocol 0 0 src dst [])
        (header_bytes total id protocol src dst h) (omega (arith, small)) in
    let (q, few, e) = folded w small in
    let low : f ≤ 65535 = omega (arith, small) in
    let added =
      sum_lem s d total id protocol (c % 256) (c / 256 % 256) src dst rest b h (omega arith)
        (omega arith) in
    let high : c / 256 % 256 ≡ c / 256 = omega (arith, sum) in
    let ok =
      swapped_ok w f q (c / 256) (c % 256) e few (omega (arith, sum, low)) (omega (arith, sum))
        (omega arith) in
    subst (λ (t : ℕ). (2 ^ 16 - 1 - fold_once (fold_once t) % 2 ^ 16 ≡ 0) ↔ (c / 256 ≡ c % 256))
      (sym (added ∙ ap (λ t. w + (c % 256 * 256 + t)) high)) ok

test_iff : (a b x y : ℕ) → ((a ≡ b) ↔ (x ≡ y)) → (a == b) ≡ (x == y)
test_iff a b x y h = ground arith

parse_ipv4 :
    (n : ℕ) (meta : PacketMetadata)
    → meta.ethertype ≡ 0x0800
    → meta.vlan_valid ≡ false
    → parse n meta ≡ parse_at n 14 meta
unfolding parse
parse_ipv4 n meta e tag =
    ap (λ t. if t == 0x0800 then parse_at n (ip_off meta) meta else meta) e
    ∙ ap (λ t. parse_at n (if t then 18 else 14) meta) tag

-- On a packet that the generator builds, of at most 64 bytes, with addresses of 32 bits and a
-- protocol of 8, marked as IPv4 without a VLAN tag by the stage before, the parser finds the
-- addresses, the protocol, TTL 64 and a header of 5 words; but it finds the checksum right only
-- when the two bytes of the generator's checksum are equal, since the generator swaps them.
pub parse_lem :
    (meta : PacketMetadata) (s d : Mac) (total id protocol src dst : ℕ) (rest : List ℕ)
    → meta.ethertype ≡ 0x0800
    → meta.vlan_valid ≡ false
    → src < 2 ^ 32
    → dst < 2 ^ 32
    → protocol < 256
    → let c = header_sum total id protocol src dst in
      let bytes = wire s d total id protocol (c % 256) (c / 256 % 256) src dst rest in
      AllBytes bytes
      → length bytes ≤ 64
      → parse (number bytes) meta ≡ record meta {
        ipv4_valid = true;
        src_ip = src;
        dst_ip = dst;
        protocol = protocol;
        ttl = 64;
        ip_hdr_len = 5;
        ip_checksum_ok = c / 256 == c % 256;
      }
unfolding parse_at
parse_lem meta s d total id protocol src dst rest e n hs hd hp b size =
    let c = header_sum total id protocol src dst in
    let bytes = wire s d total id protocol (c % 256) (c / 256 % 256) src dst rest in
    let (e1, e2, e3, e4, e5) =
      fields_lem s d total id protocol (c % 256) (c / 256 % 256) src dst rest b hs hd in
    let ok =
      test_iff (ip_checksum (number bytes) 14) 0 (c / 256) (c % 256)
        (checksum_lem s d total id protocol src dst rest hp b) in
    parse_ipv4 (number bytes) meta e n ∙ λ i. record meta {
      ipv4_valid = true;
      src_ip = e1 i;
      dst_ip = e2 i;
      protocol = e3 i;
      ttl = e4 i;
      ip_hdr_len = ap (λ t. t % 2 ^ 4) e5 i;
      ip_checksum_ok = ok i;
    }
