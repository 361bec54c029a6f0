-- ===== src/FlowTable/Lookup.antt =====
-- What flow_table.sv finds of a flow after a packet of it, and after one of another.
use mathlib.Core.Path.{subst}
use fpga_network_processing.Base.{
  Bool, Bool-cases, ap, ap₂, false, if◌then◌else◌, inl, inr, ltb, not, refl, sym, true, ℕ, ◌%◌,
  ◌&&◌, ◌+◌, ◌<◌, ◌^◌, ◌||◌, ◌∙◌, ◌≡◌,
}
use fpga_network_processing.FlowTable.{
  FlowKey, FlowEntry, Row, hit, fresh, flow_hit, update, timeout_cycles, inserted,
}
use fpga_network_processing.FlowTable.Found.{
  IsUnique, packets, found, update_found, hit-restarted, hit-inserted, hit-counted, hit_valid,
  fresh_later,
}

-- The flow is in one way and not in the other, and was seen at `now`.
record IsSeen (now : ℕ) (k : FlowKey) (e other : FlowEntry) : Type 0 where
  there : hit k e ≡ true
  once : hit k other ≡ false
  seen : e.last_seen ≡ now

abbrev Counts : ℕ → ℕ → FlowKey → ℕ → Row → Type 0
Counts now d k n r =
    (flow_hit ((now + d) % 2 ^ 32) k r.e0 r.e1 ≡ ltb d timeout_cycles) × (packets k r ≡ n)

module _ (now d : ℕ) (k : FlowKey) (small : now < 2 ^ 32) (later : d < 2 ^ 32) where
  counts0 : (r : Row) → IsSeen now k r.e0 r.e1 → Counts now d k r.e0.packet_count r
  unfolding flow_hit
  counts0 r v =
      let f = fresh_later now d r.e0 small later (hit_valid k r.e0 v.there) v.seen in
      let f1 = fresh ((now + d) % 2 ^ 32) r.e1 in
      (
        ap (λ h. h && fresh ((now + d) % 2 ^ 32) r.e0 || hit k r.e1 && f1) v.there
            ∙ ap₂ (λ a b. a || b && f1) f v.once
            ∙ or_false (ltb d timeout_cycles),
        ap (λ c. if c then r.e0.packet_count else r.e1.packet_count) v.there,
      )
    where
      or_false : (b : Bool) → (b || false) ≡ b
      or_false true = refl
      or_false false = refl

  counts1 : (r : Row) → IsSeen now k r.e1 r.e0 → Counts now d k r.e1.packet_count r
  unfolding flow_hit
  counts1 r v =
      let f = fresh_later now d r.e1 small later (hit_valid k r.e1 v.there) v.seen in
      let f0 = fresh ((now + d) % 2 ^ 32) r.e0 in
      (
        ap (λ h. h && f0 || hit k r.e1 && fresh ((now + d) % 2 ^ 32) r.e1) v.once
            ∙ ap₂ ◌&&◌ v.there f,
        ap (λ c. if c then r.e0.packet_count else r.e1.packet_count) v.once,
      )

-- The count that a packet of the flow leaves.
abbrev next_count : FlowKey → Row → Bool → ℕ
next_count k r f = if f then (packets k r + 1) % 2 ^ 48 else 1

module _ (now d : ℕ) (k : FlowKey) (bytes : ℕ) (r : Row) (small : now < 2 ^ 32)
    (later : d < 2 ^ 32) where
  finish :
      (h0 h1 v0 v1 : Bool)
      → hit k r.e0 ≡ h0
      → hit k r.e1 ≡ h1
      → fresh now r.e0 ≡ v0
      → fresh now r.e1 ≡ v1
      → Counts now d k (next_count k r (h0 && v0 || h1 && v1)) (found now k bytes r h0 h1 v0 v1)
      → Counts now d k (next_count k r (flow_hit now k r.e0 r.e1)) (update now k bytes r)
  unfolding flow_hit
  finish h0 h1 v0 v1 p0 p1 q0 q1 c =
      subst (λ (z : Row × Bool). Counts now d k (next_count k r z.1) z.0)
        (sym (λ i. (update_found now k bytes r p0 p1 q0 q1 i, p0 i && q0 i || p1 i && q1 i))) c

  in_way0 :
      (v0 v1 : Bool)
      → hit k r.e0 ≡ true
      → hit k r.e1 ≡ false
      → Counts now d k (next_count k r (v0 || false)) (found now k bytes r true false v0 v1)
  in_way0 true v1 p0 p1 =
      let (f, n) = counts0 now d k small later (found now k bytes r true false true v1) (record {
        there = hit-counted now k k bytes r.e0.packet_count r.e0.byte_count r.e0 ∙ p0;
        once = p1;
        seen = refl;
      }) in
      (
        f,
        n
            ∙ ap (λ (c : Bool). ((if c then r.e0.packet_count else r.e1.packet_count) + 1) % 2 ^ 48)
                (sym p0),
      )
  in_way0 false v1 p0 p1 =
      counts0 now d k small later (found now k bytes r true false false v1)
        (record { there = hit-restarted now k bytes r.e0 p0; once = p1; seen = refl })

  in_way1 :
      (v0 v1 : Bool)
      → hit k r.e0 ≡ false
      → hit k r.e1 ≡ true
      → Counts now d k (next_count k r v1) (found now k bytes r false true v0 v1)
  in_way1 v0 true p0 p1 =
      let (f, n) = counts1 now d k small later (found now k bytes r false true v0 true) (record {
        there = hit-counted now k k bytes r.e1.packet_count r.e1.byte_count r.e1 ∙ p1;
        once = p0;
        seen = refl;
      }) in
      (
        f,
        n
            ∙ ap (λ (c : Bool). ((if c then r.e0.packet_count else r.e1.packet_count) + 1) % 2 ^ 48)
                (sym p0),
      )
  in_way1 v0 false p0 p1 =
      counts1 now d k small later (found now k bytes r false true v0 false)
        (record { there = hit-restarted now k bytes r.e1 p1; once = p0; seen = refl })

  in_none :
      (lru v0 v1 : Bool)
      → hit k r.e0 ≡ false
      → hit k r.e1 ≡ false
      → Counts now d k 1 (record {
        e0 = if lru then inserted now k bytes else r.e0;
        e1 = if lru then r.e1 else inserted now k bytes;
        lru = not lru;
      })
  in_none true v0 v1 p0 p1 =
      counts0 now d k small later (record { e0 = inserted now k bytes; e1 = r.e1; lru = false })
        (record { there = hit-inserted now k bytes; once = p1; seen = refl })
  in_none false v0 v1 p0 p1 =
      counts1 now d k small later (record { e0 = r.e0; e1 = inserted now k bytes; lru = true })
        (record { there = hit-inserted now k bytes; once = p0; seen = refl })

-- After a packet of a flow, in a set that does not hold it twice, the flow is found `d` cycles
-- later exactly when `d` is below the time-out, for `d` and the clock of 32 bits; and its count is
-- one more, modulo 2 ^ 48, if it was found before, and 1 otherwise.
pub update_lem :
    (now d : ℕ) (k : FlowKey) (bytes : ℕ) (r : Row)
    → IsUnique r
    → now < 2 ^ 32
    → d < 2 ^ 32
    → let r' = update now k bytes r in
      (flow_hit ((now + d) % 2 ^ 32) k r'.e0 r'.e1 ≡ ltb d timeout_cycles)
      × (packets k r' ≡ (if flow_hit now k r.e0 r.e1 then (packets k r + 1) % 2 ^ 48 else 1))
update_lem now d k bytes r u small later =
    let v0 = fresh now r.e0 in
    let v1 = fresh now r.e1 in
    elim (Bool-cases (hit k r.e0)) [
      | inl p0 ↦ elim (Bool-cases (hit k r.e1)) [
        | inl p1 ↦ absurd (both (sym (ap₂ ◌&&◌ p0 p1) ∙ u k))
        | inr p1 ↦
            finish now d k bytes r small later true false v0 v1 p0 p1 refl refl
              (in_way0 now d k bytes r small later v0 v1 p0 p1)
      ]
      | inr p0 ↦ elim (Bool-cases (hit k r.e1)) [
        | inl p1 ↦
            finish now d k bytes r small later false true v0 v1 p0 p1 refl refl
              (in_way1 now d k bytes r small later v0 v1 p0 p1)
        | inr p1 ↦
            finish now d k bytes r small later false false v0 v1 p0 p1 refl refl
              (in_none now d k bytes r small later r.lru v0 v1 p0 p1)
      ]
    ]
  where
    both : true ≡ false → ⊥
    both e = cc
