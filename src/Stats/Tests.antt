-- ===== src/Stats/Tests.antt =====
-- Packets counted by stats_engine.sv.
use Prim.{tt}
use fpga_network_processing.Base.{Bool, [], arith, false, refl, true, ℕ, ◌∷◌, ◌≡◌}
use fpga_network_processing.Meta.{PacketMetadata}
use fpga_network_processing.Stats.{Stats, Inputs, zero_counters}
use fpga_network_processing.Stats.Count.{IsCounting, summary, after, ended, counters-after}

-- The metadata of a UDP packet of 60 bytes.
abbrev udp : PacketMetadata
udp = record {
  dst_mac = 2;
  src_mac = 1;
  ethertype = 0x0800;
  vlan_valid = false;
  vlan_id = 0;
  vlan_prio = 0;
  vlan_cfi = false;
  ipv4_valid = true;
  src_ip = 0;
  dst_ip = 0;
  protocol = 17;
  ttl = 64;
  ip_hdr_len = 5;
  ip_checksum_ok = true;
  tcp_valid = false;
  udp_valid = true;
  src_port = 1234;
  dst_port = 80;
  tcp_flags = 0;
  tcp_seq = 0;
  tcp_ack = 0;
  tcp_window = 0;
  class_id = 0;
  drop = false;
  crc_error = false;
  parse_error = false;
  pkt_length = 60;
}

abbrev beat : Bool → Inputs ℕ
beat last = record {
  axis = record {
    rst_n = true;
    s_data = record { payload = 5; tlast = last };
    s_tvalid = true;
    m_tready = true;
  };
  s_meta = udp;
}

abbrev idle_stats : Stats ℕ
idle_stats = record {
  counters = zero_counters;
  stage = record { pipe = record { payload = 0; tlast = false }; pipe_valid = false };
}

zero-IsCounting : IsCounting zero_counters
zero-IsCounting = record {
  packets_in = omega arith;
  bytes_in = omega arith;
  ipv4_in = omega arith;
  tcp_in = omega arith;
  udp_in = omega arith;
  arp_in = omega arith;
  drops_in = omega arith;
  errors_in = omega arith;
}

counters-after_example :
    let is = beat false ∷ beat true ∷ [] in
    (after is idle_stats).counters ≡ summary zero_counters (ended is idle_stats)
counters-after_example =
    counters-after (beat false ∷ beat true ∷ []) idle_stats (refl, (refl, tt)) zero-IsCounting
