-- ===== src/Stats.antt =====
-- rtl/stats/stats_engine.sv: the counters, of 48 bits, and the register stage that the beats pass
-- through, the same circuit as axis_register.sv.
pub mod Count
mod Tests
use fpga_network_processing.Base.{
  Bool, drop, if◌then◌else◌, ltb, ℕ, ◌%◌, ◌&&◌, ◌+◌, ◌-◌, ◌==◌, ◌^◌, ◌||◌,
}
use fpga_network_processing.Fifo
use fpga_network_processing.Stage
use fpga_network_processing.Stage.{Stage}
use fpga_network_processing.Meta.{PacketMetadata}
use fpga_network_processing.RegisterIface.{Counters}

-- A beat: `{s_tkeep, s_tdata}`, which the circuit only moves, and `s_tlast`.
pub record Beat (A : Type 0) : Type 0 where
  pub payload : A
  pub tlast : Bool

pub record Stats (A : Type 0) : Type 0 where
  pub counters : Counters
  pub stage : Stage (Beat A)

pub record Inputs (A : Type 0) : Type 0 where
  pub axis : Fifo.Inputs (Beat A)
  pub s_meta : PacketMetadata

abbrev pub etype_arp : ℕ
etype_arp = 0x0806

unfoldable pub sat_inc : ℕ → ℕ
sat_inc val = if ltb val (2 ^ 48 - 1) then (val + 1) % 2 ^ 48 else val

abbrev pub inc_if : Bool → ℕ → ℕ
inc_if c val = if c then sat_inc val else val

-- The counters at the end of a packet.
unfoldable pub count_packet : PacketMetadata → Counters → Counters
unfolding sat_inc
count_packet meta c = record {
  cnt_packets = sat_inc c.cnt_packets;
  cnt_bytes = (c.cnt_bytes + meta.pkt_length) % 2 ^ 48;
  cnt_ipv4 = inc_if meta.ipv4_valid c.cnt_ipv4;
  cnt_tcp = inc_if meta.tcp_valid c.cnt_tcp;
  cnt_udp = inc_if meta.udp_valid c.cnt_udp;
  cnt_arp = inc_if (meta.ethertype == etype_arp) c.cnt_arp;
  cnt_drops = inc_if meta.drop c.cnt_drops;
  cnt_errors = inc_if (meta.crc_error || meta.parse_error) c.cnt_errors;
}

abbrev pub zero_counters : Counters
zero_counters = record {
  cnt_packets = 0;
  cnt_bytes = 0;
  cnt_ipv4 = 0;
  cnt_tcp = 0;
  cnt_udp = 0;
  cnt_arp = 0;
  cnt_drops = 0;
  cnt_errors = 0;
}

module _ {A : Type 0} where
  unfoldable pub count_valid : Inputs A → Stats A → Bool
  count_valid i s = i.axis.s_tvalid && Stage.s_tready i.axis s.stage && i.axis.s_data.tlast

  unfoldable pub posedge : Inputs A → Stats A → Stats A
  unfolding count_valid count_packet
  posedge i s = record {
    counters =
        if i.axis.rst_n
        then if count_valid i s then count_packet i.s_meta s.counters else s.counters
        else zero_counters;
    stage = Stage.posedge i.axis s.stage;
  }
