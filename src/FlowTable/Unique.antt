-- ===== src/FlowTable/Unique.antt =====
-- Which ways of flow_table.sv hold a flow.
use mathlib.Core.Path.{subst}
use fpga_network_processing.Base.{
  Bool, Bool-cases, ap, ap₂, arith, false, if◌then◌else◌, inl, inr, refl, sym, true, ℕ, ◌&&◌, ◌==◌,
  ◌∙◌, ◌≡◌,
}
use fpga_network_processing.Stage
use fpga_network_processing.FlowTable.{
  FlowKey, FlowEntry, FlowTable, Row, Inputs, hit, fresh, update, updated, restarted, inserted,
  set_idx, flow_key, update_en, row, posedge,
}
use fpga_network_processing.FlowTable.Found.{
  IsUnique, same_key_join, update_found, found, hit-counted,
}

-- Entries with the flows of others.
hit_restarted_lem :
    (now : ℕ) (k j : FlowKey) (bytes : ℕ) (e : FlowEntry)
    → hit k e ≡ true
    → hit j (restarted now bytes e) ≡ hit j e
unfolding hit
hit_restarted_lem now k j bytes e h = ground arith

-- A flow that is not there, and a new entry.
apart :
    (now : ℕ) (k j : FlowKey) (bytes : ℕ) (e : FlowEntry)
    → hit k e ≡ false
    → (hit j (inserted now k bytes) && hit j e) ≡ false
unfolding hit
apart now k j bytes e h = ground (arith, same_key_join e.key k j)

apart' :
    (now : ℕ) (k j : FlowKey) (bytes : ℕ) (e : FlowEntry)
    → hit k e ≡ false
    → (hit j e && hit j (inserted now k bytes)) ≡ false
unfolding hit
apart' now k j bytes e h = ground (arith, same_key_join e.key k j)

module _ (now : ℕ) (k : FlowKey) (bytes : ℕ) (r : Row) (u : IsUnique r) where
  by_way :
      (h0 h1 v0 v1 : Bool)
      → hit k r.e0 ≡ h0
      → hit k r.e1 ≡ h1
      → IsUnique (found now k bytes r h0 h1 v0 v1)
  by_way true true v0 v1 p0 p1 j = absurd (both (sym (ap₂ ◌&&◌ p0 p1) ∙ u k))
    where
      both : true ≡ false → ⊥
      both e = cc
  by_way true false true v1 p0 p1 j =
      ap (λ h. h && hit j r.e1) (hit-counted now k j bytes r.e0.packet_count r.e0.byte_count r.e0)
      ∙ u j
  by_way true false false v1 p0 p1 j =
      ap (λ h. h && hit j r.e1) (hit_restarted_lem now k j bytes r.e0 p0) ∙ u j
  by_way false true v0 true p0 p1 j =
      ap (λ h. hit j r.e0 && h) (hit-counted now k j bytes r.e1.packet_count r.e1.byte_count r.e1)
      ∙ u j
  by_way false true v0 false p0 p1 j =
      ap (λ h. hit j r.e0 && h) (hit_restarted_lem now k j bytes r.e1 p1) ∙ u j
  by_way false false v0 v1 p0 p1 j = by_lru r.lru
    where
      by_lru :
          (lru : Bool)
          → (hit j (if lru then inserted now k bytes else r.e0)
              && hit j (if lru then r.e1 else inserted now k bytes))
            ≡ false
      by_lru true = apart now k j bytes r.e1 p1
      by_lru false = apart' now k j bytes r.e0 p0

  update-IsUnique : IsUnique (update now k bytes r)
  update-IsUnique =
      subst IsUnique (sym (update_found now k bytes r refl refl refl refl))
        (by_way (hit k r.e0) (hit k r.e1) (fresh now r.e0) (fresh now r.e1) refl refl)

-- No flow is in both ways of its set, in any set.
abbrev pub AllUnique : FlowTable → Type 0
AllUnique t = (s : ℕ) (k : FlowKey) → (hit k (t.way0 s) && hit k (t.way1 s)) ≡ false

stored :
    (c : Bool) (a b x y : FlowEntry) (k : FlowKey)
    → (hit k a && hit k b) ≡ false
    → (hit k x && hit k y) ≡ false
    → (hit k (if c then a else x) && hit k (if c then b else y)) ≡ false
stored true a b x y k new old = new
stored false a b x y k new old = old

-- An edge, with reset or without, with a packet or without, keeps every flow in at most one way of
-- a set.
pub posedge-AllUnique : (i : Inputs) (t : FlowTable) → AllUnique t → AllUnique (posedge i t)
unfolding posedge updated Stage.s_tready Stage.posedge
posedge-AllUnique i t u s k = elim (Bool-cases i.axis.rst_n) [
  | inr off ↦ rw off (unfold hit in refl)
  | inl on ↦ elim (Bool-cases (update_en i t)) [
    | inr idle ↦ rw (on, idle) (u s k)
    | inl busy ↦
        let at = set_idx i.past (flow_key i.s_meta) in
        let old = row i.past t at in
        let new = update t.now (flow_key i.s_meta) i.s_meta.pkt_length old in
        let unique = update-IsUnique t.now (flow_key i.s_meta) i.s_meta.pkt_length old (u at) in
        rw (on, busy) (stored (s == at) new.e0 new.e1 (t.way0 s) (t.way1 s) k (unique k) (u s k))
  ]
]
