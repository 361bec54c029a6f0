-- ===== src/MatchTable.antt =====
-- rtl/classifiers/match_table.sv at its default `NUM_RULES`, 32, and the types of
-- rtl/common/npe_pkg.sv that it works on.
pub mod Rules
mod Tests
use fpga_network_processing.Base.{
  Bool, List, [], drop, false, if◌then◌else◌, not, replicate, true, ℕ, ◌&&◌, ◌-◌, ◌==◌, ◌||◌, ◌∷◌,
}
use fpga_network_processing.Stage
use fpga_network_processing.Stage.{Stage}
use fpga_network_processing.Meta.{PacketMetadata}
use fpga_network_processing.Ipv4Parser.{Beat, Inputs}
use fpga_network_processing.Parsers.Transport.{proto_tcp, proto_udp}

pub data RuleAction : Type 0 where
  action_allow action_drop action_redirect action_mirror : RuleAction

pub data ModifierAction : Type 0 where
  mod_nop mod_ttl_dec mod_mac_swap mod_mac_set mod_ip_set mod_vlan_push mod_vlan_pop mod_dscp_set
        mod_ecn_set :
      ModifierAction

pub record ModifierData : Type 0 where
  pub new_dst_mac : ℕ
  pub new_src_mac : ℕ
  pub new_src_ip : ℕ
  pub new_dst_ip : ℕ
  pub vlan_id : ℕ
  pub vlan_prio : ℕ
  pub new_dscp : ℕ
  pub new_ecn : ℕ

pub record MatchEntry : Type 0 where
  pub valid : Bool
  pub protocol : ℕ
  pub src_ip : ℕ
  pub dst_ip : ℕ
  pub src_port : ℕ
  pub dst_port : ℕ
  pub action : RuleAction
  pub class_id : ℕ
  pub mod_action : ModifierAction
  pub mod_data : ModifierData

abbrev pub no_data : ModifierData
no_data = record {
  new_dst_mac = 0;
  new_src_mac = 0;
  new_src_ip = 0;
  new_dst_ip = 0;
  vlan_id = 0;
  vlan_prio = 0;
  new_dscp = 0;
  new_ecn = 0;
}

-- `'0`
abbrev pub no_entry : MatchEntry
no_entry = record {
  valid = false;
  protocol = 0;
  src_ip = 0;
  dst_ip = 0;
  src_port = 0;
  dst_port = 0;
  action = action_allow;
  class_id = 0;
  mod_action = mod_nop;
  mod_data = no_data;
}

abbrev pub port_rule : ℕ → ℕ → ℕ → MatchEntry
port_rule proto port class = record no_entry {
  valid = true;
  protocol = proto;
  dst_port = port;
  class_id = class;
}

abbrev pub num_rules : ℕ
num_rules = 32

unfoldable pub rules : List MatchEntry
rules =
    port_rule proto_udp 53 1
    ∷ port_rule proto_tcp 80 2
    ∷ port_rule proto_tcp 443 3
    ∷ port_rule proto_tcp 22 4
    ∷ record no_entry { valid = true; mod_action = mod_ttl_dec }
    ∷ replicate (num_rules - 5) no_entry

-- `local_match`: a field that is 0 matches anything, and so does a port without a transport header.
unfoldable pub local_match : MatchEntry → PacketMetadata → Bool
local_match r meta =
    (r.protocol == 0 || r.protocol == meta.protocol)
    && (r.src_ip == 0 || r.src_ip == meta.src_ip)
    && (r.dst_ip == 0 || r.dst_ip == meta.dst_ip)
    && (not (not (r.src_port == 0) && (meta.udp_valid || meta.tcp_valid))
        || r.src_port == meta.src_port)
    && (not (not (r.dst_port == 0) && (meta.udp_valid || meta.tcp_valid))
        || r.dst_port == meta.dst_port)

-- `match_found`, `match_action`, `match_class`, `match_mod_action` and `match_mod_data`.
pub record Match : Type 0 where
  pub found : Bool
  pub action : RuleAction
  pub class : ℕ
  pub mod_action : ModifierAction
  pub mod_data : ModifierData

abbrev pub no_match : Match
no_match = record {
  found = false;
  action = action_drop;
  class = 0;
  mod_action = mod_nop;
  mod_data = no_data;
}

abbrev pub match_of : MatchEntry → Match
match_of r = record {
  found = true;
  action = r.action;
  class = r.class_id;
  mod_action = r.mod_action;
  mod_data = r.mod_data;
}

-- The loop over the rules.
unfoldable pub match_from : List MatchEntry → PacketMetadata → Match → Match
unfolding local_match
match_from [] meta m = m
match_from (r ∷ rs) meta m =
    match_from rs meta (if r.valid && not m.found && local_match r meta then match_of r else m)

unfoldable pub match_rules : PacketMetadata → Match
match_rules meta = match_from rules meta no_match

pub record MatchTable : Type 0 where
  pub first_beat : Bool
  pub stage : Stage Beat
  pub pipe_meta : PacketMetadata
  pub pipe_mod_action : ModifierAction
  pub pipe_mod_data : ModifierData

unfoldable pub accepts : Inputs → MatchTable → Bool
accepts i t = i.axis.s_tvalid && Stage.s_tready i.axis t.stage

-- The first beat of a packet is taken.
abbrev pub latches : Inputs → MatchTable → Bool
latches i t = i.axis.rst_n && t.first_beat && accepts i t

abbrev pub is_drop : RuleAction → Bool
is_drop action_drop = true
is_drop _ = false

-- The metadata that goes with a match.
abbrev pub matched_meta : Match → PacketMetadata → PacketMetadata
matched_meta m meta = record meta { class_id = m.class; drop = is_drop m.action }

unfoldable pub posedge : Inputs → MatchTable → MatchTable
unfolding accepts
posedge i t = record {
  first_beat =
      if i.axis.rst_n
      then if accepts i t && i.axis.s_data.tlast
        then true
        else if accepts i t && t.first_beat
        then false
        else t.first_beat
      else true;
  stage = Stage.posedge i.axis t.stage;
  pipe_meta = if latches i t then matched_meta (match_rules i.s_meta) i.s_meta else t.pipe_meta;
  pipe_mod_action = if latches i t then (match_rules i.s_meta).mod_action else t.pipe_mod_action;
  pipe_mod_data = if latches i t then (match_rules i.s_meta).mod_data else t.pipe_mod_data;
}
