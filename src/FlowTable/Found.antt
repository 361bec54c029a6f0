-- ===== src/FlowTable/Found.antt =====
-- The row of a set of flow_table.sv after a packet, by what it finds there.
use fpga_network_processing.Base.{
  Bool, ap₂, arith, false, if◌then◌else◌, ltb, not, refl, true, ℕ, ◌%◌, ◌&&◌, ◌+◌, ◌-◌, ◌<◌, ◌^◌,
  ◌||◌, ◌≡◌,
}
use fpga_network_processing.FlowTable.{
  FlowKey, FlowEntry, Row, same_key, hit, fresh, flow_hit, expired_hit, update, timeout_cycles,
  counted, restarted, inserted,
}

-- No flow is in both ways of a set.
abbrev pub IsUnique : Row → Type 0
IsUnique r = (k : FlowKey) → (hit k r.e0 && hit k r.e1) ≡ false

-- `flow_packets`
abbrev pub packets : FlowKey → Row → ℕ
packets k r = if hit k r.e0 then r.e0.packet_count else r.e1.packet_count

pub same_key_refl : (k : FlowKey) → same_key k k ≡ true
unfolding same_key
same_key_refl k = ground arith

pub same_key_join :
    (a b c : FlowKey) → same_key a c ≡ true → same_key b c ≡ true → same_key a b ≡ true
unfolding same_key
same_key_join a b c h k = ground arith

pub hit_valid : (k : FlowKey) (e : FlowEntry) → hit k e ≡ true → e.valid ≡ true
unfolding hit
hit_valid k e h = ground arith

-- An entry seen at `now`, `d` cycles later.
pub fresh_later :
    (now d : ℕ) (e : FlowEntry)
    → now < 2 ^ 32
    → d < 2 ^ 32
    → e.valid ≡ true
    → e.last_seen ≡ now
    → fresh ((now + d) % 2 ^ 32) e ≡ ltb d timeout_cycles
unfolding fresh
fresh_later now d e small later there seen =
    let age : ((now + d) % 2 ^ 32 + 2 ^ 32 - e.last_seen) % 2 ^ 32 ≡ d = omega (arith, seen) in
    ap₂ (λ c n. c && ltb n timeout_cycles) there age

pub missed :
    (now : ℕ) (k : FlowKey) (e0 e1 : FlowEntry)
    → flow_hit now k e0 e1 ≡ false
    → expired_hit now k e0 e1 ≡ false
    → (hit k e0 ≡ false) × (hit k e1 ≡ false)
unfolding flow_hit expired_hit
missed now k e0 e1 h g = ground arith

module _ (now : ℕ) (k : FlowKey) (bytes : ℕ) (r : Row) where
  -- `update`, by what it finds.
  abbrev pub found : Bool → Bool → Bool → Bool → Row
  found h0 h1 v0 v1 =
      let pkts = if h0 then r.e0.packet_count else r.e1.packet_count in
      let total = if h0 then r.e0.byte_count else r.e1.byte_count in
      if h0 && v0 || h1 && v1
      then record {
        e0 = if h0 && v0 then counted now bytes pkts total r.e0 else r.e0;
        e1 = if h1 && v1 then counted now bytes pkts total r.e1 else r.e1;
        lru = if h1 && v1 then false else true;
      }
      else if h0 && not v0 || h1 && not v1
      then record {
        e0 = if h0 then restarted now bytes r.e0 else r.e0;
        e1 = if h1 then restarted now bytes r.e1 else r.e1;
        lru = if h1 then false else true;
      }
      else record {
        e0 = if r.lru then inserted now k bytes else r.e0;
        e1 = if r.lru then r.e1 else inserted now k bytes;
        lru = not r.lru;
      }

  pub update_found :
      {h0 h1 v0 v1 : Bool}
      → hit k r.e0 ≡ h0
      → hit k r.e1 ≡ h1
      → fresh now r.e0 ≡ v0
      → fresh now r.e1 ≡ v1
      → update now k bytes r ≡ found h0 h1 v0 v1
  unfolding update flow_hit expired_hit
  update_found p0 p1 q0 q1 = λ i. found (p0 i) (p1 i) (q0 i) (q1 i)

pub hit-restarted :
    (now : ℕ) (k : FlowKey) (bytes : ℕ) (e : FlowEntry)
    → hit k e ≡ true
    → hit k (restarted now bytes e) ≡ true
unfolding hit
hit-restarted now k bytes e h = ground arith

pub hit-inserted : (now : ℕ) (k : FlowKey) (bytes : ℕ) → hit k (inserted now k bytes) ≡ true
unfolding hit
hit-inserted now k bytes = same_key_refl k

pub hit-counted :
    (now : ℕ) (k j : FlowKey) (bytes pkts total : ℕ) (e : FlowEntry)
    → hit j (counted now bytes pkts total e) ≡ hit j e
unfolding hit
hit-counted now k j bytes pkts total e = refl
