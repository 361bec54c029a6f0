-- ===== src/Pipeline.antt =====
-- rtl/top/parser_pipeline.sv: eight register stages in a row. `posedge` is the rising edge of the
-- clock. A stage's `s_tready` is a function of the registers of the stages behind it and of
-- `m_tready`.
pub mod Sight
pub mod Tame
pub mod Balance
pub mod Order
pub mod Shift
pub mod Reset
pub mod Blank
mod Tests
use fpga_network_processing.Base.{Bool, drop, false, if◌then◌else◌, not, ℕ, ◌&&◌, ◌||◌}
use fpga_network_processing.Fifo
use fpga_network_processing.Stage
use fpga_network_processing.Stage.{Stage}
use fpga_network_processing.Meta.{PacketMetadata}
use fpga_network_processing.Stats
use fpga_network_processing.Stats.{Stats}
use fpga_network_processing.Ipv4Parser
use fpga_network_processing.Ipv4Parser.{Ipv4Parser, Beat}
use fpga_network_processing.Parsers.Ethernet
use fpga_network_processing.Parsers.Ethernet.{EthernetParser}
use fpga_network_processing.Parsers.Vlan
use fpga_network_processing.Parsers.Transport.{udp_posedge, tcp_posedge}
use fpga_network_processing.MatchTable
use fpga_network_processing.MatchTable.{MatchTable}
use fpga_network_processing.Modifier
use fpga_network_processing.Modifier.{Modifier}
use fpga_network_processing.FlowTable
use fpga_network_processing.FlowTable.{FlowTable, Past}

pub record Pipeline : Type 0 where
  pub eth_inst : EthernetParser
  pub vlan_inst : Ipv4Parser
  pub ip_inst : Ipv4Parser
  pub udp_inst : Ipv4Parser
  pub tcp_inst : Ipv4Parser
  pub match_inst : MatchTable
  pub mod_inst : Modifier
  pub stats_inst : Stats (ℕ × ℕ)
  pub flow_inst : FlowTable

-- The inputs at an edge; `past` is what flow_table.sv reads past its vectors.
pub record Inputs : Type 0 where
  pub axis : Fifo.Inputs Beat
  pub past : Past

module _ {A : Type 0} where
  -- `s_tready` of a register stage in front of a `m_tready`.
  abbrev pub ready : Bool → Stage A → Bool
  ready m_tready r = m_tready || not r.pipe_valid

  -- The wires from a stage to the next, behind which `m_tready` is set or not.
  abbrev pub wires : Bool → Stage A → Bool → Fifo.Inputs A
  wires rst_n r m_tready = record {
    rst_n = rst_n;
    s_data = r.pipe;
    s_tvalid = r.pipe_valid;
    m_tready = m_tready;
  }

-- `r_flow`, `r_stats`, `r_mod`, `r_match`, `r_ip`, `r_vlan` and `r_eth`.
abbrev pub r_flow : Bool → Pipeline → Bool
r_flow m_tready p = ready m_tready p.flow_inst.stage

abbrev pub r_stats : Bool → Pipeline → Bool
r_stats m_tready p = ready (r_flow m_tready p) p.stats_inst.stage

abbrev pub r_mod : Bool → Pipeline → Bool
r_mod m_tready p = ready (r_stats m_tready p) p.mod_inst.stage

abbrev pub r_match : Bool → Pipeline → Bool
r_match m_tready p = ready (r_mod m_tready p) p.match_inst.stage

abbrev pub r_ip : Bool → Pipeline → Bool
r_ip m_tready p =
    ready (r_match m_tready p) p.udp_inst.stage && ready (r_match m_tready p) p.tcp_inst.stage

abbrev pub r_vlan : Bool → Pipeline → Bool
r_vlan m_tready p = ready (r_ip m_tready p) p.ip_inst.stage

abbrev pub r_eth : Bool → Pipeline → Bool
r_eth m_tready p = ready (r_vlan m_tready p) p.vlan_inst.stage

unfoldable pub s_tready : Bool → Pipeline → Bool
s_tready m_tready p = ready (r_eth m_tready p) p.eth_inst.stage

-- What the parsers of UDP and TCP show together.
abbrev pub l4 : Pipeline → Stage Beat
l4 p = record {
  pipe = if p.tcp_inst.stage.pipe_valid then p.tcp_inst.stage.pipe else p.udp_inst.stage.pipe;
  pipe_valid = p.tcp_inst.stage.pipe_valid || p.udp_inst.stage.pipe_valid;
}

abbrev pub m_l4 : Pipeline → PacketMetadata
m_l4 p = if p.tcp_inst.pipe_meta.tcp_valid then p.tcp_inst.pipe_meta else p.udp_inst.pipe_meta

-- stats_engine.sv looks at `tlast` alone.
abbrev pub for_stats : Beat → Stats.Beat (ℕ × ℕ)
for_stats b = record { payload = (b.tkeep, b.tdata); tlast = b.tlast }

abbrev pub from_stats : Stats.Beat (ℕ × ℕ) → Beat
from_stats b = record { tdata = b.payload.1; tkeep = b.payload.0; tlast = b.tlast }

abbrev pub d_mod : Pipeline → Stage (Stats.Beat (ℕ × ℕ))
d_mod p = record {
  pipe = for_stats p.mod_inst.stage.pipe;
  pipe_valid = p.mod_inst.stage.pipe_valid;
}

abbrev pub d_stats : Pipeline → Stage Beat
d_stats p = record {
  pipe = from_stats p.stats_inst.stage.pipe;
  pipe_valid = p.stats_inst.stage.pipe_valid;
}

-- The ports of `eth_inst`, whose `s_meta` is all 0.
abbrev pub no_meta : PacketMetadata
no_meta = record {
  dst_mac = 0;
  src_mac = 0;
  ethertype = 0;
  vlan_valid = false;
  vlan_id = 0;
  vlan_prio = 0;
  vlan_cfi = false;
  ipv4_valid = false;
  src_ip = 0;
  dst_ip = 0;
  protocol = 0;
  ttl = 0;
  ip_hdr_len = 0;
  ip_checksum_ok = false;
  tcp_valid = false;
  udp_valid = false;
  src_port = 0;
  dst_port = 0;
  tcp_flags = 0;
  tcp_seq = 0;
  tcp_ack = 0;
  tcp_window = 0;
  class_id = 0;
  drop = false;
  crc_error = false;
  parse_error = false;
  pkt_length = 0;
}

-- The inputs of the match table, of the modifier and of the flow table.
abbrev pub match_wires : Inputs → Pipeline → Ipv4Parser.Inputs
match_wires i p = record {
  axis = wires i.axis.rst_n (l4 p) (r_mod i.axis.m_tready p);
  s_meta = m_l4 p;
}

abbrev pub mod_wires : Inputs → Pipeline → Modifier.Inputs
mod_wires i p = record {
  axis = wires i.axis.rst_n p.match_inst.stage (r_stats i.axis.m_tready p);
  s_meta = p.match_inst.pipe_meta;
  s_mod_action = p.match_inst.pipe_mod_action;
  s_mod_data = p.match_inst.pipe_mod_data;
}

abbrev pub flow_wires : Inputs → Pipeline → FlowTable.Inputs
flow_wires i p = record {
  axis = wires i.axis.rst_n (d_stats p) i.axis.m_tready;
  s_meta = p.match_inst.pipe_meta;
  past = i.past;
}

unfoldable pub posedge : Inputs → Pipeline → Pipeline
posedge i p =
    let rst = i.axis.rst_n in
    let m = i.axis.m_tready in
    let l4_in : Ipv4Parser.Inputs = record {
      axis = wires rst p.ip_inst.stage (r_match m p);
      s_meta = p.ip_inst.pipe_meta;
    } in
    record {
      eth_inst =
          Ethernet.posedge
            (record { axis = record i.axis { m_tready = r_eth m p }; s_meta = no_meta }) p.eth_inst;
      vlan_inst =
          Vlan.posedge
            (record {
              axis = wires rst p.eth_inst.stage (r_vlan m p);
              s_meta = p.eth_inst.pipe_meta;
            })
            p.vlan_inst;
      ip_inst =
          Ipv4Parser.posedge
            (record {
              axis = wires rst p.vlan_inst.stage (r_ip m p);
              s_meta = p.vlan_inst.pipe_meta;
            })
            p.ip_inst;
      udp_inst = udp_posedge l4_in p.udp_inst;
      tcp_inst = tcp_posedge l4_in p.tcp_inst;
      match_inst = MatchTable.posedge (match_wires i p) p.match_inst;
      mod_inst = Modifier.posedge (mod_wires i p) p.mod_inst;
      stats_inst =
          Stats.posedge
            (record { axis = wires rst (d_mod p) (r_flow m p); s_meta = p.match_inst.pipe_meta })
            p.stats_inst;
      flow_inst = FlowTable.posedge (flow_wires i p) p.flow_inst;
    }

-- The outputs, functions of the registers.
abbrev pub m_tvalid : Pipeline → Bool
m_tvalid p = p.flow_inst.stage.pipe_valid

abbrev pub m_beat : Pipeline → Beat
m_beat p = p.flow_inst.stage.pipe
