-- ===== src/Classifier/Same.antt =====
-- packet_classifier.sv and rule_engine.sv against match_table.sv.
use fpga_network_processing.Base.{
  Bool, List, [], ap, false, if◌then◌else◌, none, not, refl, some, sym, true, ℕ, ◌&&◌, ◌==◌, ◌∙◌,
  ◌∷◌, ◌≡◌,
}
use fpga_network_processing.Meta.{PacketMetadata}
use fpga_network_processing.MatchTable.{
  RuleAction, MatchEntry, Match, no_entry, no_match, match_of, match_from, match_rules, local_match,
  is_drop, action_allow, action_drop, port_rule, mod_nop, mod_ttl_dec,
}
use fpga_network_processing.MatchTable.Rules.{
  first_match, outcome, match_from-first, match_rules_lem, to_port, tidy, allowed,
}
use mathlib.Core.List.{map}
use mathlib.Core.Path.{subst}
use fpga_network_processing.Classifier.{
  ClassifierRule, Class, default_rules, rule_match, classify_from, classify, classified,
  class_action, should_drop, ruled,
}

-- A rule as an entry of the match table, and what is found there as a class.
abbrev entry_of : ClassifierRule → MatchEntry
entry_of r = record no_entry {
  valid = r.valid;
  protocol = r.protocol;
  src_ip = r.src_ip;
  dst_ip = r.dst_ip;
  src_port = r.src_port;
  dst_port = r.dst_port;
  action = if r.drop then action_drop else action_allow;
  class_id = r.class_id;
}

abbrev class_of : Match → Class
class_of m = record { found = m.found; class = m.class; drop = m.found && is_drop m.action }

-- The two loops do the same.
classify_from-match_from :
    (rs : List ClassifierRule) (meta : PacketMetadata) (m : Match)
    → classify_from rs meta (class_of m) ≡ class_of (match_from (map entry_of rs) meta m)
unfolding classify_from match_from rule_match local_match
classify_from-match_from [] meta m = refl
classify_from-match_from (r ∷ rs) meta m =
    ap (classify_from rs meta) (by_case (r.valid && not m.found && rule_match r meta) r.drop)
    ∙ classify_from-match_from rs meta
        (if r.valid && not m.found && rule_match r meta then match_of (entry_of r) else m)
  where
    by_case :
        (c d : Bool)
        → (if c then record { found = true; class = r.class_id; drop = d } else class_of m)
          ≡ class_of (if c then match_of (entry_of (record r { drop = d })) else m)
    by_case true true = refl
    by_case true false = refl
    by_case false d = refl

-- By which of the four rules match.
abbrev by_rule : Bool → Bool → Bool → Bool → Class
by_rule a b c d = class_of (
    outcome (
      if a
      then some (port_rule 17 53 1)
      else if b
      then some (port_rule 6 80 2)
      else if c
      then some (port_rule 6 443 3)
      else if d
      then some (port_rule 6 22 4)
      else none))

classify-by_rule :
    (meta : PacketMetadata)
    → classify meta
      ≡ by_rule
          (17 == meta.protocol && to_port 53 meta)
          (6 == meta.protocol && to_port 80 meta)
          (6 == meta.protocol && to_port 443 meta)
          (6 == meta.protocol && to_port 22 meta)
unfolding classify default_rules first_match local_match
classify-by_rule meta =
    classify_from-match_from default_rules meta no_match
    ∙ ap class_of (match_from-first (map entry_of default_rules) meta)
    ∙ (λ i.
        by_rule (tidy (17 == meta.protocol) (to_port 53 meta) i)
          (tidy (6 == meta.protocol) (to_port 80 meta) i)
          (tidy (6 == meta.protocol) (to_port 443 meta) i)
          (tidy (6 == meta.protocol) (to_port 22 meta) i))

-- A class and a match agree, and the action table drops what the match has class 0 for.
abbrev Agrees : (ℕ → RuleAction) → Class → Match → Type 0
Agrees past c m =
    let class = if c.found then c.class else 0 in
    (class ≡ m.class) × (c.drop ≡ false) × (is_drop (class_action past class) ≡ (m.class == 0))

by_rule-Agrees :
    (past : ℕ → RuleAction) (a b c d : Bool)
    → Agrees past (by_rule a b c d) (
        if a
        then allowed 1 mod_nop
        else if b
        then allowed 2 mod_nop
        else if c
        then allowed 3 mod_nop
        else if d
        then allowed 4 mod_nop
        else allowed 0 mod_ttl_dec)
unfolding class_action
by_rule-Agrees past true b c d = (refl, refl, refl)
by_rule-Agrees past false true c d = (refl, refl, refl)
by_rule-Agrees past false false true d = (refl, refl, refl)
by_rule-Agrees past false false false true = (refl, refl, refl)
by_rule-Agrees past false false false false = (refl, refl, refl)

-- The classifier gives every packet the class that the match table gives it, and drops none; the
-- rule engine behind it drops exactly those of class 0, which the match table allows, whatever a
-- read past its action table gives.
pub classified-match_rules :
    (past : ℕ → RuleAction) (meta : PacketMetadata)
    → ((classified meta).class_id ≡ (match_rules meta).class)
      × ((classified meta).drop ≡ false)
      × ((ruled past (classified meta)).drop ≡ ((match_rules meta).class == 0))
unfolding classified ruled should_drop
classified-match_rules past meta =
    subst (λ c. Agrees past c (match_rules meta)) (sym (classify-by_rule meta))
      (subst
        (Agrees past (
          by_rule (17 == meta.protocol && to_port 53 meta) (6 == meta.protocol && to_port 80 meta)
            (6 == meta.protocol && to_port 443 meta) (6 == meta.protocol && to_port 22 meta)))
        (sym (match_rules_lem meta))
        (by_rule-Agrees past (17 == meta.protocol && to_port 53 meta)
          (6 == meta.protocol && to_port 80 meta) (6 == meta.protocol && to_port 443 meta)
          (6 == meta.protocol && to_port 22 meta)))
