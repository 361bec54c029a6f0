-- ===== src/Classifier.antt =====
-- rtl/classifiers/packet_classifier.sv at its default `NUM_RULES`, 32, and rtl/filters/rule_engine.sv
-- at its default `NUM_CLASSES`, 8. Both are register stages like the parsers'.
pub mod Same
mod Tests
use fpga_network_processing.Base.{
  Bool, List, [], drop, false, if◌then◌else◌, ltb, not, replicate, true, ℕ, ◌&&◌, ◌-◌, ◌==◌, ◌||◌,
  ◌∷◌,
}
use fpga_network_processing.Meta.{PacketMetadata}
use fpga_network_processing.Ipv4Parser.{Ipv4Parser, Inputs}
use fpga_network_processing.Parsers.{posedge_with}
use fpga_network_processing.Parsers.Transport.{proto_tcp, proto_udp}
use fpga_network_processing.MatchTable.{RuleAction, action_allow, action_drop, is_drop, num_rules}

pub record ClassifierRule : Type 0 where
  pub valid : Bool
  pub protocol : ℕ
  pub src_ip : ℕ
  pub dst_ip : ℕ
  pub src_port : ℕ
  pub dst_port : ℕ
  pub class_id : ℕ
  pub drop : Bool

-- `'0`
abbrev pub no_rule : ClassifierRule
no_rule = record {
  valid = false;
  protocol = 0;
  src_ip = 0;
  dst_ip = 0;
  src_port = 0;
  dst_port = 0;
  class_id = 0;
  drop = false;
}

abbrev pub default_rule : ℕ → ℕ → ℕ → ClassifierRule
default_rule proto port class = record no_rule {
  valid = true;
  protocol = proto;
  dst_port = port;
  class_id = class;
}

unfoldable pub default_rules : List ClassifierRule
default_rules =
    default_rule proto_udp 53 1
    ∷ default_rule proto_tcp 80 2
    ∷ default_rule proto_tcp 443 3
    ∷ default_rule proto_tcp 22 4
    ∷ replicate (num_rules - 4) no_rule

-- `match`: a field that is 0 matches anything, and so does a port without a transport header.
unfoldable pub rule_match : ClassifierRule → PacketMetadata → Bool
rule_match r meta =
    (r.protocol == 0 || r.protocol == meta.protocol)
    && (r.src_ip == 0 || r.src_ip == meta.src_ip)
    && (r.dst_ip == 0 || r.dst_ip == meta.dst_ip)
    && (not (not (r.src_port == 0) && (meta.udp_valid || meta.tcp_valid))
        || r.src_port == meta.src_port)
    && (not (not (r.dst_port == 0) && (meta.udp_valid || meta.tcp_valid))
        || r.dst_port == meta.dst_port)

-- `match_found`, `match_class` and `match_drop`.
pub record Class : Type 0 where
  pub found : Bool
  pub class : ℕ
  pub drop : Bool

abbrev pub no_class : Class
no_class = record { found = false; class = 0; drop = false }

-- The loop over the rules.
unfoldable pub classify_from : List ClassifierRule → PacketMetadata → Class → Class
unfolding rule_match
classify_from [] meta c = c
classify_from (r ∷ rs) meta c = classify_from rs meta (
    if r.valid && not c.found && rule_match r meta
    then record { found = true; class = r.class_id; drop = r.drop }
    else c)

unfoldable pub classify : PacketMetadata → Class
classify meta = classify_from default_rules meta no_class

unfoldable pub classified : PacketMetadata → PacketMetadata
unfolding classify
classified meta =
    let c = classify meta in
    record meta { class_id = if c.found then c.class else 0; drop = c.drop }

unfoldable pub classifier_posedge : Inputs → Ipv4Parser → Ipv4Parser
unfolding posedge_with
classifier_posedge i p = posedge_with (λ tdata meta. classified meta) i p

-- `action_table[class_id].action`; `past` is what a read past its 8 entries gives.
unfoldable pub class_action : (ℕ → RuleAction) → ℕ → RuleAction
class_action past class_id =
    if class_id == 0 then action_drop else if ltb class_id 8 then action_allow else past class_id

unfoldable pub should_drop : (ℕ → RuleAction) → PacketMetadata → Bool
unfolding class_action
should_drop past meta = is_drop (class_action past meta.class_id)

unfoldable pub ruled : (ℕ → RuleAction) → PacketMetadata → PacketMetadata
unfolding should_drop
ruled past meta = record meta { drop = should_drop past meta }

unfoldable pub rule_engine_posedge : (ℕ → RuleAction) → Inputs → Ipv4Parser → Ipv4Parser
unfolding posedge_with
rule_engine_posedge past i p = posedge_with (λ tdata meta. ruled past meta) i p
