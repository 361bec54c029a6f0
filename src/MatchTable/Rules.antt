-- ===== src/MatchTable/Rules.antt =====
-- Which rule of match_table.sv a packet gets.
use fpga_network_processing.Base.{
  Bool, List, Option, [], ap, false, if◌then◌else◌, none, not, refl, some, true, ℕ, ◌&&◌, ◌==◌,
  ◌||◌, ◌∙◌, ◌∷◌, ◌≡◌,
}
use fpga_network_processing.Meta.{PacketMetadata}
use fpga_network_processing.MatchTable.{
  MatchEntry, Match, ModifierAction, rules, no_match, match_of, no_data, local_match, match_from,
  match_rules, action_allow, mod_nop, mod_ttl_dec, port_rule, no_entry,
}

-- The first valid rule that matches.
unfoldable pub first_match : List MatchEntry → PacketMetadata → Option MatchEntry
unfolding local_match
first_match [] meta = none
first_match (r ∷ rs) meta = if r.valid && local_match r meta then some r else first_match rs meta

-- What goes out with it.
abbrev pub outcome : Option MatchEntry → Match
outcome none = no_match
outcome (some r) = match_of r

-- Once a rule is found, the loop keeps it.
kept :
    (rs : List MatchEntry) (meta : PacketMetadata) (m : Match)
    → m.found ≡ true
    → match_from rs meta m ≡ m
unfolding match_from
kept [] meta m h = refl
kept (r ∷ rs) meta m h =
    ap (λ c. match_from rs meta (if r.valid && not c && local_match r meta then match_of r else m))
      h
    ∙ ap (λ c. match_from rs meta (if c && local_match r meta then match_of r else m))
        (never r.valid)
    ∙ kept rs meta m h
  where
    never : (v : Bool) → (v && false) ≡ false
    never true = refl
    never false = refl

-- The loop finds the first valid rule that matches, if there is one.
pub match_from-first :
    (rs : List MatchEntry) (meta : PacketMetadata)
    → match_from rs meta no_match ≡ outcome (first_match rs meta)
unfolding match_from first_match
match_from-first [] meta = refl
match_from-first (r ∷ rs) meta =
    by_match r.valid (local_match r meta) (kept rs meta (match_of r) refl)
      (match_from-first rs meta)
  where
    by_match :
        (v c : Bool)
        → match_from rs meta (match_of r) ≡ match_of r
        → match_from rs meta no_match ≡ outcome (first_match rs meta)
        → match_from rs meta (if v && true && c then match_of r else no_match)
          ≡ outcome (if v && c then some r else first_match rs meta)
    by_match true true now later = now
    by_match true false now later = later
    by_match false c now later = later

-- The port is `port`, or there is no transport header.
abbrev pub to_port : ℕ → PacketMetadata → Bool
to_port port meta = not (meta.udp_valid || meta.tcp_valid) || port == meta.dst_port

abbrev pub allowed : ℕ → ModifierAction → Match
allowed class act = record {
  found = true;
  action = action_allow;
  class = class;
  mod_action = act;
  mod_data = no_data;
}

-- When a rule for a port matches.
pub tidy : (a b : Bool) → (a && true && true && true && b) ≡ (a && b)
tidy true b = refl
tidy false b = refl

-- The outcome of the five rules, by which of the first four match.
abbrev by_class : Bool → Bool → Bool → Bool → Match
by_class a b c d = outcome (
    if a
    then some (port_rule 17 53 1)
    else if b
    then some (port_rule 6 80 2)
    else if c
    then some (port_rule 6 443 3)
    else if d
    then some (port_rule 6 22 4)
    else some (record no_entry { valid = true; mod_action = mod_ttl_dec }))

pushed :
    (a b c d : Bool)
    → by_class a b c d ≡ (
        if a
        then allowed 1 mod_nop
        else if b
        then allowed 2 mod_nop
        else if c
        then allowed 3 mod_nop
        else if d
        then allowed 4 mod_nop
        else allowed 0 mod_ttl_dec)
pushed true b c d = refl
pushed false true c d = refl
pushed false false true d = refl
pushed false false false true = refl
pushed false false false false = refl

-- The classes by the table's rules: 1 for UDP to port 53, 2, 3 and 4 for TCP to ports 80, 443 and
-- 22, in this order, where a packet without a transport header has every port; and class 0 with a
-- decrement of the TTL for all others. Every packet is allowed.
pub match_rules_lem :
    (meta : PacketMetadata)
    → match_rules meta ≡ (
        if 17 == meta.protocol && to_port 53 meta
        then allowed 1 mod_nop
        else if 6 == meta.protocol && to_port 80 meta
        then allowed 2 mod_nop
        else if 6 == meta.protocol && to_port 443 meta
        then allowed 3 mod_nop
        else if 6 == meta.protocol && to_port 22 meta
        then allowed 4 mod_nop
        else allowed 0 mod_ttl_dec)
unfolding match_rules rules first_match local_match
match_rules_lem meta =
    match_from-first rules meta
    ∙ (λ i.
        by_class (tidy (17 == meta.protocol) (to_port 53 meta) i)
          (tidy (6 == meta.protocol) (to_port 80 meta) i)
          (tidy (6 == meta.protocol) (to_port 443 meta) i)
          (tidy (6 == meta.protocol) (to_port 22 meta) i))
    ∙ pushed (17 == meta.protocol && to_port 53 meta) (6 == meta.protocol && to_port 80 meta)
        (6 == meta.protocol && to_port 443 meta) (6 == meta.protocol && to_port 22 meta)
