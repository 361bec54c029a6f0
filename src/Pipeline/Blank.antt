-- ===== src/Pipeline/Blank.antt =====
-- parser_pipeline.sv with all registers 0, for the tests.
use fpga_network_processing.Base.{Bool, false, true, ℕ}
use fpga_network_processing.Stage.{Stage}
use fpga_network_processing.Ipv4Parser.{Ipv4Parser, Beat}
use fpga_network_processing.MatchTable.{mod_nop, no_data}
use fpga_network_processing.Stats.{zero_counters}
use fpga_network_processing.FlowTable.{Past, no_flow}
use fpga_network_processing.Pipeline.{Pipeline, Inputs, no_meta}

abbrev pub no_past : Past
no_past = record { lru = false; hash = 0 }

abbrev pub beat : ℕ → ℕ → Bool → Beat
beat d k l = record { tdata = d; tkeep = k; tlast = l }

abbrev no_beat : Stage Beat
no_beat = record { pipe = beat 0 0 false; pipe_valid = false }

abbrev no_parser : Ipv4Parser
no_parser = record { first_beat = false; stage = no_beat; pipe_meta = no_meta }

abbrev pub blank : Pipeline
blank = record {
  eth_inst = record { first_beat = false; pkt_len = 0; stage = no_beat; pipe_meta = no_meta };
  vlan_inst = no_parser;
  ip_inst = no_parser;
  udp_inst = no_parser;
  tcp_inst = no_parser;
  match_inst = record {
    first_beat = false;
    stage = no_beat;
    pipe_meta = no_meta;
    pipe_mod_action = mod_nop;
    pipe_mod_data = no_data;
  };
  mod_inst = record { prev_tlast = false; stage = no_beat };
  stats_inst = record {
    counters = zero_counters;
    stage = record { pipe = record { payload = (0, 0); tlast = false }; pipe_valid = false };
  };
  flow_inst = record {
    way0 = λ s. no_flow;
    way1 = λ s. no_flow;
    lru0 = false;
    lru1 = false;
    now = 0;
    stage = no_beat;
  };
}

-- An edge with a beat, wanted or not.
abbrev pub give : ℕ → Bool → Bool → Inputs
give d last wanted = record {
  axis = record { rst_n = true; s_data = beat d 255 last; s_tvalid = true; m_tready = wanted };
  past = no_past;
}
