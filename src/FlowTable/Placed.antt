-- ===== src/FlowTable/Placed.antt =====
-- The sets of flow_table.sv that hold the flows.
use fpga_network_processing.Base.{
  ==_iff, Bool, Bool-cases, ap, arith, false, if◌then◌else◌, inl, inr, not, refl, true, ℕ, ◌%◌,
  ◌&&◌, ◌+◌, ◌<◌, ◌==◌, ◌^◌, ◌||◌, ◌∙◌, ◌≡◌,
}
use fpga_network_processing.Stage
use fpga_network_processing.FlowTable.{
  FlowKey, FlowEntry, FlowTable, Row, Inputs, Past, same_key, hit, flow_hit, update, updated,
  set_idx, flow_key, update_en, row, posedge,
}
use fpga_network_processing.FlowTable.Lookup.{update_lem}
use fpga_network_processing.FlowTable.Hash.{home, mixed, folded, set_idx_lem}
use fpga_network_processing.FlowTable.Unique.{AllUnique, posedge-AllUnique}

-- A flow that is not in the set of its hash.
abbrev pub astray : Past → FlowKey → ℕ → FlowEntry → Bool
astray p k s e = hit k e && not (s == home p k)

-- Every flow is in the set of its hash, and in one way of it at most.
pub record AllPlaced (p : Past) (t : FlowTable) : Type 0 where
  pub unique : AllUnique t
  pub placed0 : (s : ℕ) (k : FlowKey) → astray p k s (t.way0 s) ≡ false
  pub placed1 : (s : ℕ) (k : FlowKey) → astray p k s (t.way1 s) ≡ false

same_key_eq : (a b : FlowKey) → same_key a b ≡ true → a ≡ b
unfolding same_key
same_key_eq a b h =
    let (e0, e1, e2, e3, e4) : (a.src_ip ≡ b.src_ip)
        × (a.dst_ip ≡ b.dst_ip)
        × (a.protocol ≡ b.protocol)
        × (a.src_port ≡ b.src_port)
        × (a.dst_port ≡ b.dst_port) =
      ground arith in
    λ i. record { src_ip = e0 i; dst_ip = e1 i; protocol = e2 i; src_port = e3 i; dst_port = e4 i }

-- An entry holds nothing but what another does and flow `k`.
abbrev Adds : FlowKey → FlowEntry → FlowEntry → Type 0
Adds k old new = (j : FlowKey) → (hit j new && not (hit j old || same_key k j)) ≡ false

update-Adds :
    (now : ℕ) (k : FlowKey) (bytes : ℕ) (r : Row)
    → Adds k r.e0 (update now k bytes r).e0 × Adds k r.e1 (update now k bytes r).e1
unfolding update hit
update-Adds now k bytes r = (λ j. ground arith, λ j. ground arith)

-- Such an entry is placed in the set of `k`, if the other was.
placed_lem :
    (p : Past) (k j : FlowKey) (old new : FlowEntry)
    → Adds k old new
    → astray p j (home p k) old ≡ false
    → astray p j (home p k) new ≡ false
placed_lem p k j old new adds h = elim (Bool-cases (same_key k j)) [
  | inl e ↦ let at : home p k ≡ home p j = ap (home p) (same_key_eq k j e) in ground (arith, at)
  | inr e ↦ let a = adds j in ground (arith, a)
]

set_idx-home : (p q : Past) (k : FlowKey) → q.hash ≡ p.hash → set_idx q k ≡ home p k
unfolding home
set_idx-home p q k e = set_idx_lem q k ∙ ap (λ h. folded h (mixed k)) e

-- A way of the table after a write to the set of `k`.
written :
    (p : Past) (k j : FlowKey) (s : ℕ) (way : ℕ → FlowEntry) (new : FlowEntry)
    → Adds k (way (home p k)) new
    → ((n : ℕ) → astray p j n (way n) ≡ false)
    → astray p j s (if s == home p k then new else way s) ≡ false
written p k j s way new adds h = elim (Bool-cases (s == home p k)) [
  | inl e ↦
      ap (λ (c : Bool). astray p j s (if c then new else way s)) e
      ∙ ap (λ n. astray p j n new) ((==_iff s (home p k)).0 e)
      ∙ placed_lem p k j (way (home p k)) new adds (h (home p k))
  | inr e ↦ ap (λ (c : Bool). astray p j s (if c then new else way s)) e ∙ h s
]

module _ (p : Past) (i : Inputs) (t : FlowTable) (same : i.past.hash ≡ p.hash)
    (v : AllPlaced p t) where
  abbrev its_key : FlowKey
  its_key = flow_key i.s_meta

  abbrev its_set : ℕ
  its_set = home p its_key

  -- What a packet leaves in its set.
  abbrev new : Row
  new = update t.now its_key i.s_meta.pkt_length (row i.past t its_set)

  -- The table after an edge with a packet.
  after_packet :
      i.axis.rst_n ≡ true
      → update_en i t ≡ true
      → let t' = posedge i t in
        ((s : ℕ) → t'.way0 s ≡ (if s == its_set then new.e0 else t.way0 s))
        × ((s : ℕ) → t'.way1 s ≡ (if s == its_set then new.e1 else t.way1 s))
        × (t'.now ≡ (t.now + 1) % 2 ^ 32)
  unfolding posedge updated Stage.s_tready Stage.posedge
  after_packet on busy =
      let at : set_idx i.past its_key ≡ its_set = set_idx-home p i.past its_key same in
      rw (on, busy, at) (λ s. refl, λ s. refl, refl)

  edge-AllPlaced : AllPlaced p (posedge i t)
  unfolding posedge Stage.s_tready Stage.posedge
  edge-AllPlaced = elim (Bool-cases i.axis.rst_n) [
    | inr off ↦ record {
      unique = posedge-AllUnique i t v.unique;
      placed0 = λ s k. rw off (unfold hit in refl);
      placed1 = λ s k. rw off (unfold hit in refl);
    }
    | inl on ↦ elim (Bool-cases (update_en i t)) [
      | inr idle ↦ record {
        unique = posedge-AllUnique i t v.unique;
        placed0 = λ s k. rw (on, idle) (v.placed0 s k);
        placed1 = λ s k. rw (on, idle) (v.placed1 s k);
      }
      | inl busy ↦
          let adds = update-Adds t.now its_key i.s_meta.pkt_length (row i.past t its_set) in
          let (w0, w1, clock) = after_packet on busy in
          record {
            unique = posedge-AllUnique i t v.unique;
            placed0 = λ s k.
                ap (astray p k s) (w0 s)
                ∙ written p its_key k s t.way0 new.e0 adds.0 (λ n. v.placed0 n k);
            placed1 = λ s k.
                ap (astray p k s) (w1 s)
                ∙ written p its_key k s t.way1 new.e1 adds.1 (λ n. v.placed1 n k);
          }
    ]
  ]

  -- The flow of the packet is found in the next cycle.
  edge_finds :
      t.now < 2 ^ 32
      → i.axis.rst_n ≡ true
      → update_en i t ≡ true
      → let t' = posedge i t in flow_hit t'.now its_key (t'.way0 its_set) (t'.way1 its_set) ≡ true
  edge_finds small on busy =
      let (w0, w1, clock) = after_packet on busy in
      let here : (its_set == its_set) ≡ true = (==_iff its_set its_set).1 refl in
      let e0 = w0 its_set ∙ ap (λ (c : Bool). if c then new.e0 else t.way0 its_set) here in
      let e1 = w1 its_set ∙ ap (λ (c : Bool). if c then new.e1 else t.way1 its_set) here in
      (λ j. flow_hit (clock j) its_key (e0 j) (e1 j))
      ∙ (update_lem t.now 1 its_key i.s_meta.pkt_length (row i.past t its_set) (v.unique its_set)
          small (omega arith)).0

-- If the bits that the hash reads past its end are at the edge those for which the sets are given,
-- and the clock has 32 bits: the edge, with reset or without, with a packet or without, keeps
-- every flow of the table in its own set, and in at most one way of it; and after an edge without
-- reset that takes the last beat of a packet, a lookup of the flow of the packet in its own set
-- hits. The set of a flow is given without the loops and the key table of the code: the exclusive
-- or of the six slices of 6 bits of one word, which is that of its fields and of 0x9e71fb87.
pub posedge-AllPlaced :
    (p : Past) (i : Inputs) (t : FlowTable)
    → i.past.hash ≡ p.hash
    → t.now < 2 ^ 32
    → AllPlaced p t
    → let t' = posedge i t in
      let k = flow_key i.s_meta in
      let s = home p k in
      AllPlaced p t'
      × ((i.axis.rst_n && update_en i t && not (flow_hit t'.now k (t'.way0 s) (t'.way1 s))) ≡ false)
posedge-AllPlaced p i t same small v =
    (edge-AllPlaced p i t same v, by_case i.axis.rst_n (update_en i t) refl refl)
  where
    by_case :
        (c b : Bool)
        → i.axis.rst_n ≡ c
        → update_en i t ≡ b
        → let t' = posedge i t in
          let s = home p (flow_key i.s_meta) in
          (c && b && not (flow_hit t'.now (flow_key i.s_meta) (t'.way0 s) (t'.way1 s))) ≡ false
    by_case true true on busy = ap not (edge_finds p i t same v small on busy)
    by_case true false on busy = refl
    by_case false b on busy = refl
