-- ===== src/Stats/Count.antt =====
-- What the counters of stats_engine.sv say of the packets that ended.
use mathlib.Core.Path.{subst}
use fpga_network_processing.Base.{
  Bool, Bool-cases, List, [], ap, arith, if◌then◌else◌, inl, inr, length, min, suc, sym, true, ℕ,
  ◌%◌, ◌++◌, ◌+◌, ◌-◌, ◌<◌, ◌==◌, ◌^◌, ◌||◌, ◌∙◌, ◌∷◌, ◌≡◌,
}
use fpga_network_processing.Meta.{PacketMetadata}
use fpga_network_processing.RegisterIface.{Counters}
use fpga_network_processing.Stats.{
  Stats, Inputs, etype_arp, sat_inc, inc_if, count_packet, count_valid, posedge, zero_counters,
}

-- The packets for which a test holds.
abbrev pub count : (PacketMetadata → Bool) → List PacketMetadata → ℕ
count p [] = 0
count p (m ∷ ms) = (if p m then 1 else 0) + count p ms

abbrev pub total_length : List PacketMetadata → ℕ
total_length [] = 0
total_length (m ∷ ms) = m.pkt_length + total_length ms

-- A count of 48 bits that stops at its largest value.
abbrev pub saturated : ℕ → ℕ → ℕ
saturated v n = min (v + n) (2 ^ 48 - 1)

-- The counters after packets with the metadata `ms`, from the counters `c`.
abbrev pub summary : Counters → List PacketMetadata → Counters
summary c ms = record {
  cnt_packets = saturated c.cnt_packets (length ms);
  cnt_bytes = (c.cnt_bytes + total_length ms) % 2 ^ 48;
  cnt_ipv4 = saturated c.cnt_ipv4 (count (λ m. m.ipv4_valid) ms);
  cnt_tcp = saturated c.cnt_tcp (count (λ m. m.tcp_valid) ms);
  cnt_udp = saturated c.cnt_udp (count (λ m. m.udp_valid) ms);
  cnt_arp = saturated c.cnt_arp (count (λ m. m.ethertype == etype_arp) ms);
  cnt_drops = saturated c.cnt_drops (count (λ m. m.drop) ms);
  cnt_errors = saturated c.cnt_errors (count (λ m. m.crc_error || m.parse_error) ms);
}

-- Every counter has 48 bits.
pub record IsCounting (c : Counters) : Type 0 where
  pub packets_in : c.cnt_packets < 2 ^ 48
  pub bytes_in : c.cnt_bytes < 2 ^ 48
  pub ipv4_in : c.cnt_ipv4 < 2 ^ 48
  pub tcp_in : c.cnt_tcp < 2 ^ 48
  pub udp_in : c.cnt_udp < 2 ^ 48
  pub arp_in : c.cnt_arp < 2 ^ 48
  pub drops_in : c.cnt_drops < 2 ^ 48
  pub errors_in : c.cnt_errors < 2 ^ 48

inc_if-lt : (b : Bool) (v : ℕ) → v < 2 ^ 48 → inc_if b v < 2 ^ 48
unfolding sat_inc
inc_if-lt b v h = ground arith

saturated-inc_if :
    (b : Bool) (v n : ℕ)
    → v < 2 ^ 48
    → saturated (inc_if b v) n ≡ saturated v ((if b then 1 else 0) + n)
unfolding sat_inc
saturated-inc_if b v n h = ground arith

saturated_none : (v : ℕ) → v < 2 ^ 48 → saturated v 0 ≡ v
saturated_none v h = omega arith

module _ {A : Type 0} where
  unfoldable pub after : List (Inputs A) → Stats A → Stats A
  after [] s = s
  after (i ∷ is) s = after is (posedge i s)

  -- The metadata at the edges that end a packet.
  unfoldable pub ended : List (Inputs A) → Stats A → List PacketMetadata
  ended [] s = []
  ended (i ∷ is) s = (if count_valid i s then i.s_meta ∷ [] else []) ++ ended is (posedge i s)

  abbrev pub AllOn : List (Inputs A) → Type 0
  AllOn [] = Unit {0}
  AllOn (i ∷ is) = (i.axis.rst_n ≡ true) × AllOn is

count_packet-IsCounting :
    (m : PacketMetadata) (c : Counters) → IsCounting c → IsCounting (count_packet m c)
unfolding count_packet
count_packet-IsCounting m c v = record {
  packets_in = inc_if-lt true c.cnt_packets v.packets_in;
  bytes_in = omega arith;
  ipv4_in = inc_if-lt m.ipv4_valid c.cnt_ipv4 v.ipv4_in;
  tcp_in = inc_if-lt m.tcp_valid c.cnt_tcp v.tcp_in;
  udp_in = inc_if-lt m.udp_valid c.cnt_udp v.udp_in;
  arp_in = inc_if-lt (m.ethertype == etype_arp) c.cnt_arp v.arp_in;
  drops_in = inc_if-lt m.drop c.cnt_drops v.drops_in;
  errors_in = inc_if-lt (m.crc_error || m.parse_error) c.cnt_errors v.errors_in;
}

summary-count_packet :
    (m : PacketMetadata) (ms : List PacketMetadata) (c : Counters)
    → IsCounting c
    → summary (count_packet m c) ms ≡ summary c (m ∷ ms)
unfolding count_packet
summary-count_packet m ms c v =
    let e0 = saturated-inc_if true c.cnt_packets (length ms) v.packets_in in
    let one : 1 + length ms ≡ suc (length ms) = omega arith in
    let e1 : (((c.cnt_bytes + m.pkt_length) % 2 ^ 48) + total_length ms) % 2 ^ 48
        ≡ (c.cnt_bytes + (m.pkt_length + total_length ms)) % 2 ^ 48 =
      omega arith in
    let e2 = saturated-inc_if m.ipv4_valid c.cnt_ipv4 (count (λ m. m.ipv4_valid) ms) v.ipv4_in in
    let e3 = saturated-inc_if m.tcp_valid c.cnt_tcp (count (λ m. m.tcp_valid) ms) v.tcp_in in
    let e4 = saturated-inc_if m.udp_valid c.cnt_udp (count (λ m. m.udp_valid) ms) v.udp_in in
    let e5 =
      saturated-inc_if (m.ethertype == etype_arp) c.cnt_arp
        (count (λ m. m.ethertype == etype_arp) ms) v.arp_in in
    let e6 = saturated-inc_if m.drop c.cnt_drops (count (λ m. m.drop) ms) v.drops_in in
    let e7 =
      saturated-inc_if (m.crc_error || m.parse_error) c.cnt_errors
        (count (λ m. m.crc_error || m.parse_error) ms) v.errors_in in
    λ i. record {
      cnt_packets = (e0 ∙ ap (saturated c.cnt_packets) one) i;
      cnt_bytes = e1 i;
      cnt_ipv4 = e2 i;
      cnt_tcp = e3 i;
      cnt_udp = e4 i;
      cnt_arp = e5 i;
      cnt_drops = e6 i;
      cnt_errors = e7 i;
    }

summary_none : (c : Counters) → IsCounting c → c ≡ summary c []
summary_none c v = λ i. record {
  cnt_packets = sym (saturated_none c.cnt_packets v.packets_in) i;
  cnt_bytes = (let e : c.cnt_bytes ≡ (c.cnt_bytes + 0) % 2 ^ 48 = omega arith in e) i;
  cnt_ipv4 = sym (saturated_none c.cnt_ipv4 v.ipv4_in) i;
  cnt_tcp = sym (saturated_none c.cnt_tcp v.tcp_in) i;
  cnt_udp = sym (saturated_none c.cnt_udp v.udp_in) i;
  cnt_arp = sym (saturated_none c.cnt_arp v.arp_in) i;
  cnt_drops = sym (saturated_none c.cnt_drops v.drops_in) i;
  cnt_errors = sym (saturated_none c.cnt_errors v.errors_in) i;
}

module _ {A : Type 0} where
  edge_counters :
      (i : Inputs A) (s : Stats A)
      → i.axis.rst_n ≡ true
      → (posedge i s).counters
        ≡ (if count_valid i s then count_packet i.s_meta s.counters else s.counters)
  unfolding posedge
  edge_counters i s on =
      ap
        (λ r.
          if r
          then if count_valid i s then count_packet i.s_meta s.counters else s.counters
          else zero_counters)
        on

  -- Over any edges without reset, from counters of 48 bits: the counter of packets and those of
  -- IPv4, TCP, UDP, ARP, dropped and erroneous packets grow by the number of packets of that kind
  -- that ended, and stop at 2 ^ 48 - 1; the counter of bytes grows by the sum of their lengths
  -- modulo 2 ^ 48.
  pub counters-after :
      (is : List (Inputs A)) (s : Stats A)
      → AllOn is
      → IsCounting s.counters
      → (after is s).counters ≡ summary s.counters (ended is s)
  unfolding after ended
  counters-after [] s on v = summary_none s.counters v
  counters-after (i ∷ is) s on v = elim (Bool-cases (count_valid i s)) [
    | inl e ↦
        let now : (posedge i s).counters ≡ count_packet i.s_meta s.counters =
          edge_counters i s on.0
          ∙ ap (λ t. if t then count_packet i.s_meta s.counters else s.counters) e in
        let v' = subst IsCounting (sym now) (count_packet-IsCounting i.s_meta s.counters v) in
        let rest = ended is (posedge i s) in
        counters-after is (posedge i s) on.1 v'
        ∙ ap (λ c. summary c rest) now
        ∙ summary-count_packet i.s_meta rest s.counters v
        ∙ ap (λ t. summary s.counters ((if t then i.s_meta ∷ [] else []) ++ rest)) (sym e)
    | inr e ↦
        let now : (posedge i s).counters ≡ s.counters =
          edge_counters i s on.0
          ∙ ap (λ t. if t then count_packet i.s_meta s.counters else s.counters) e in
        let rest = ended is (posedge i s) in
        counters-after is (posedge i s) on.1 (subst IsCounting (sym now) v)
        ∙ ap (λ c. summary c rest) now
        ∙ ap (λ t. summary s.counters ((if t then i.s_meta ∷ [] else []) ++ rest)) (sym e)
  ]
