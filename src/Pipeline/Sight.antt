-- ===== src/Pipeline/Sight.antt =====
-- What the testbenches of parser_pipeline.sv see of a beat, 8 bytes of its words, and that the
-- modifier leaves it alone.
use fpga_network_processing.Base.{
  Bool, Bool-cases, List, [], ap, ap₂, arith, false, if◌then◌else◌, inl, inr, not, refl, suc, sym,
  true, zero, ℕ, ◌%◌, ◌&&◌, ◌++◌, ◌+◌, ◌-◌, ◌/◌, ◌^◌, ◌∙◌, ◌∷◌, ◌≡◌, ◌≤◌, ◌⊎◌,
}
use fpga_network_processing.Ipv4Parser.{Beat, ip_off}
use fpga_network_processing.Meta.{PacketMetadata}
use fpga_network_processing.MatchTable.{
  ModifierAction, mod_nop, mod_ttl_dec, mod_mac_swap, mod_mac_set, mod_ip_set, mod_vlan_push,
  mod_vlan_pop, mod_dscp_set, mod_ecn_set, MatchEntry, Match, ModifierData, match_from, match_rules,
  rules, no_match, match_of, local_match,
}
use fpga_network_processing.Modifier
use fpga_network_processing.Modifier.{Modifier, set_byte, ttl_dec, apply, modified, do_mod}
use fpga_network_processing.Monitor.Verdict
use fpga_network_processing.Bench.Words.{vlwide_get_bytes, unpack_word, no_bytes, count_keep}

-- The 32-bit words of a port of 512 bits.
unfoldable pub words : ℕ → ℕ → List ℕ
words zero d = []
words (suc n) d = d % 2 ^ 32 ∷ words n (d / 2 ^ 32)

-- A beat as the testbenches read it.
unfoldable pub see : Beat → Verdict.Beat
unfolding words
see b = (vlwide_get_bytes (words 16 b.tdata) (count_keep 8 0 b.tkeep 0), b.tlast)

few : (left b keep n : ℕ) → count_keep left b keep n ≤ n + left
unfolding count_keep
few zero b keep n = omega arith
few (suc left) b keep n = ground (arith, few left (suc b) keep n, few left (suc b) keep (n + 1))

get_two :
    (w v : ℕ) (ws ws' : List ℕ) (n : ℕ)
    → n ≤ 8
    → vlwide_get_bytes (w ∷ v ∷ ws) n ≡ vlwide_get_bytes (w ∷ v ∷ ws') n
unfolding vlwide_get_bytes
get_two w v ws ws' n h =
    let spent : n - 4 - 4 ≡ 0 = omega arith in
    ap (λ t. unpack_word 4 0 w n ++ (unpack_word 4 0 v (n - 4) ++ t))
      (ap (vlwide_get_bytes ws) spent
        ∙ no_bytes ws
        ∙ sym (ap (vlwide_get_bytes ws') spent ∙ no_bytes ws'))

-- Beats with the same low two words look the same.
see_low :
    (d e k : ℕ) (l : Bool)
    → d % 2 ^ 64 ≡ e % 2 ^ 64
    → see (record { tdata = d; tkeep = k; tlast = l })
      ≡ see (record { tdata = e; tkeep = k; tlast = l })
unfolding see words
see_low d e k l h =
    let n = count_keep 8 0 k 0 in
    let (low, high) : (d % 2 ^ 32 ≡ e % 2 ^ 32) × (d / 2 ^ 32 % 2 ^ 32 ≡ e / 2 ^ 32 % 2 ^ 32) =
      (omega arith, omega arith) in
    ap (λ bs. (bs, l))
      (get_two (d % 2 ^ 32) (d / 2 ^ 32 % 2 ^ 32) (words 14 (d / 2 ^ 32 / 2 ^ 32))
          (words 14 (e / 2 ^ 32 / 2 ^ 32)) n (few 8 0 k 0)
        ∙ ap₂ (λ a b. vlwide_get_bytes (a ∷ b ∷ words 14 (e / 2 ^ 32 / 2 ^ 32)) n) low high)

ttl_dec_low : (off s : ℕ) → (off ≡ 14) ⊎ (off ≡ 18) → ttl_dec off s % 2 ^ 64 ≡ s % 2 ^ 64
unfolding ttl_dec set_byte
ttl_dec_low off s (inl h) = rw h (omega arith)
ttl_dec_low off s (inr h) = rw h (omega arith)

-- The rules change no byte but those of the TTL and the checksum.
abbrev pub is_mild : ModifierAction → Bool
is_mild mod_nop = true
is_mild mod_ttl_dec = true
is_mild _ = false

ip_off-cases : (meta : PacketMetadata) → (ip_off meta ≡ 14) ⊎ (ip_off meta ≡ 18)
ip_off-cases meta = elim (Bool-cases meta.vlan_valid) [
  | inl h ↦ inr (ap (λ (c : Bool). if c then 18 else 14) h)
  | inr h ↦ inl (ap (λ (c : Bool). if c then 18 else 14) h)
]

see-apply :
    (a : ModifierAction) (m : ModifierData) (meta : PacketMetadata) (b : Beat)
    → is_mild a ≡ true
    → let new = apply a m meta b.tdata b.tkeep in
      see (record b { tdata = new.0; tkeep = new.1 }) ≡ see b
unfolding apply
see-apply mod_nop m meta b h = refl
see-apply mod_ttl_dec m meta b h =
    see_low (ttl_dec (ip_off meta) b.tdata) b.tdata b.tkeep b.tlast
      (ttl_dec_low (ip_off meta) b.tdata (ip_off-cases meta))
see-apply mod_mac_swap m meta b h = cc
see-apply mod_mac_set m meta b h = cc
see-apply mod_ip_set m meta b h = cc
see-apply mod_vlan_push m meta b h = cc
see-apply mod_vlan_pop m meta b h = cc
see-apply mod_dscp_set m meta b h = cc
see-apply mod_ecn_set m meta b h = cc

pub see-modified :
    (i : Modifier.Inputs) (r : Modifier)
    → is_mild i.s_mod_action ≡ true
    → see (modified i r) ≡ see i.axis.s_data
unfolding modified
see-modified i r h = elim (Bool-cases (do_mod i r)) [
  | inl on ↦
      ap (λ (c : Bool). see (if c then new else i.axis.s_data)) on
      ∙ see-apply i.s_mod_action i.s_mod_data i.s_meta i.axis.s_data h
  | inr off ↦ ap (λ (c : Bool). see (if c then new else i.axis.s_data)) off
]
  where
    new : Beat
    new =
        let b = i.axis.s_data in
        let changed = apply i.s_mod_action i.s_mod_data i.s_meta b.tdata b.tkeep in
        record b { tdata = changed.0; tkeep = changed.1 }

abbrev all_mild : List MatchEntry → Bool
all_mild [] = true
all_mild (r ∷ rs) = is_mild r.mod_action && all_mild rs

pick_mild :
    (c : Bool) (r : MatchEntry) (m : Match)
    → is_mild r.mod_action ≡ true
    → is_mild m.mod_action ≡ true
    → is_mild (if c then match_of r else m).mod_action ≡ true
pick_mild true r m h k = h
pick_mild false r m h k = k

and_true : (a b : Bool) → (a && b) ≡ true → (a ≡ true) × (b ≡ true)
and_true true true h = (refl, refl)
and_true true false h = cc
and_true false b h = cc

match_from-mild :
    (rs : List MatchEntry) (meta : PacketMetadata) (m : Match)
    → all_mild rs ≡ true
    → is_mild m.mod_action ≡ true
    → is_mild (match_from rs meta m).mod_action ≡ true
unfolding match_from
match_from-mild [] meta m h k = k
match_from-mild (r ∷ rs) meta m h k =
    let (first, others) = and_true (is_mild r.mod_action) (all_mild rs) h in
    match_from-mild rs meta (if r.valid && not m.found && local_match r meta then match_of r else m)
      others (pick_mild (r.valid && not m.found && local_match r meta) r m first k)

rules_mild : all_mild rules ≡ true
unfolding rules
rules_mild = refl

pub match_rules-mild : (meta : PacketMetadata) → is_mild (match_rules meta).mod_action ≡ true
unfolding match_rules
match_rules-mild meta = match_from-mild rules meta no_match rules_mild refl
