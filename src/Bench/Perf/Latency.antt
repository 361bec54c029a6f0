-- ===== src/Bench/Perf/Latency.antt =====
-- When tb_perf.cpp sees the first beat.
use fpga_network_processing.Base.{
  Bool, Bool-cases, List, Option, [], ap, arith, drop, false, if◌then◌else◌, inl, inr, length,
  length-drop, ltb, ltb→lt, lt→ltb, refl, some, suc, sym, take, zero, ℕ, ◌*◌, ◌++◌, ◌+◌, ◌-◌, ◌<◌,
  ◌^◌, ◌||◌, ◌∙◌, ◌∷◌, ◌≡◌,
}
use mathlib.Core.List.{map}
use mathlib.Core.Path.{subst}
use fpga_network_processing.Generator.Carries.{AllBytes}
use fpga_network_processing.Monitor.Verdict.{Beat}
use fpga_network_processing.Pipeline.Shift.{line}
use fpga_network_processing.Bench.PipelineDriver.Drain.{IsDraining, nones}
use fpga_network_processing.Bench.PipelineDriver.Session.{beats}
use fpga_network_processing.Bench.Perf.{
  Sim, minus, Counts, no_counts, count_packet, track, push_each,
}
use fpga_network_processing.Bench.Perf.Push.{later, notes}
use fpga_network_processing.Bench.Perf.Count.{later_add, minus-later, count_packets}
use fpga_network_processing.Bench.Perf.Preheat.{seven-lt, tail}
use fpga_network_processing.Bench.Perf.Track.{
  mark, got, notes_first, notes-nones, each_round, each_seen,
}

-- What is seen of packets longer than eight beats or not, several or not.
abbrev pub seen_of : Bool → Bool → Counts
seen_of long several = record no_counts {
  first_out = if long then 8 else if several then 9 else 0;
  first_beat_seen = long || several;
}

-- What is seen of `n` packets of `b` beats.
abbrev pub firsts : ℕ → ℕ → Counts
firsts b n = seen_of (ltb 8 b) (ltb 1 n)

-- The rows that are shown while a packet goes in.
row_long :
    (n : ℕ) (cs : List Beat)
    → 8 < n
    → 0 < length cs
    → (x : Beat) × (l : List (Option Beat)) × (take n (nones 8 ++ map some cs)
        ≡ nones 8 ++ some x ∷ l)
row_long n [] h more = absurd (omega arith)
row_long n (x ∷ cs) h more = (
  x,
  take (n - 9) (map some cs),
  ap (λ k. take k (nones 8 ++ map some (x ∷ cs))) {x = n}
      {y = suc (suc (suc (suc (suc (suc (suc (suc (suc (n - 9)))))))))} (omega arith),
)

row_tail :
    (n : ℕ) (cs : List Beat) (l : List (Option Beat))
    → 0 < n
    → 7 < length cs
    → (x : Beat) × (l' : List (Option Beat)) × (take n (tail cs ++ l) ≡ some x ∷ l')
row_tail n cs l h more =
    from (drop (length cs - 7) cs) (omega (arith, length-drop (length cs - 7) cs))
  where
    from :
        (bs : List Beat)
        → 0 < length bs
        → (x : Beat) × (l' : List (Option Beat)) × (take n ((map some bs ++ nones 1) ++ l)
            ≡ some x ∷ l')
    from [] k = absurd (omega arith)
    from (x ∷ bs) k = (
      x,
      take (n - 1) ((map some bs ++ nones 1) ++ l),
      ap (λ k. take k ((map some (x ∷ bs) ++ nones 1) ++ l)) {x = n} {y = suc (n - 1)}
          (omega arith),
    )

module _ (pkt : List ℕ) (b : AllBytes pkt) (long : 56 < length pkt) where
  abbrev AllPushed : ℕ → Sim → Counts → Type 0
  AllPushed n s r =
      (s' : Sim) × (push_each s.cycles n pkt 8 s no_counts ≡ some (s', count_packets n pkt r))
      × IsDraining s'.bus (tail (beats pkt))
      × (s'.cycles ≡ later (n * (length (beats pkt) + 1)) s.cycles)

  -- The packet is longer than the pipeline.
  each_long :
      (left : ℕ) (s : Sim)
      → IsDraining s.bus (nones 8)
      → s.cycles < 2 ^ 64
      → 8 < length (beats pkt)
      → AllPushed (suc left) s (mark 8 no_counts)
  each_long left s v small h =
      let cs = beats pkt in
      let n = length cs + 1 in
      let c = s.cycles in
      let (x, l, e) = row_long (length cs) cs h (omega (arith, h)) in
      let seen : notes (track c) (got c) c (take (length cs) (line s.bus.dut ++ map some cs))
            no_counts
          ≡ mark 8 no_counts =
        ap (λ q. notes (track c) (got c) c (take (length cs) (q ++ map some cs)) no_counts) v.lined
        ∙ ap (λ q. notes (track c) (got c) c q no_counts) e
        ∙ notes_first c 8 c x l no_counts refl
        ∙ ap (λ k. mark k no_counts) (minus-later 8 c small) in
      let (s1, e1, v1, c1) = each_round pkt b long c left s no_counts v.running in
      let (s2, e2, v2, c2) =
        each_seen pkt b long c left s1 (count_packet pkt (mark 8 no_counts)) v1 refl in
      (
        s2,
        e1 ∙ ap (λ r. push_each c left pkt 8 s1 (count_packet pkt r)) seen ∙ e2,
        v2,
        c2
            ∙ ap (later (left * n)) c1
            ∙ later_add n (left * n) c
            ∙ ap (λ k. later k c) {x = n + left * n} {y = suc left * n} (omega arith),
      )

  -- A packet of eight beats shows nothing while it goes in.
  unseen :
      (s : Sim)
      → IsDraining s.bus (nones 8)
      → length (beats pkt) ≡ 8
      → notes
          (track s.cycles)
          (got s.cycles)
          s.cycles
          (take (length (beats pkt)) (line s.bus.dut ++ map some (beats pkt)))
          no_counts
        ≡ no_counts
  unseen s v h =
      let cs = beats pkt in
      let c = s.cycles in
      ap (λ q. notes (track c) (got c) c (take (length cs) (q ++ map some cs)) no_counts) v.lined
      ∙ ap (λ k. notes (track c) (got c) c (take k (nones 8 ++ map some cs)) no_counts) h
      ∙ notes-nones c 8 c [] no_counts

  -- The packet is as long as the pipeline, and one of several: its beats are all in when the loop
  -- pauses, and the first of them shows in the pause.
  each_short :
      (left : ℕ) (s : Sim)
      → IsDraining s.bus (nones 8)
      → s.cycles < 2 ^ 64
      → length (beats pkt) ≡ 8
      → AllPushed (suc (suc left)) s (mark 9 no_counts)
  each_short left s v small h =
      let cs = beats pkt in
      let n = length cs + 1 in
      let c = s.cycles in
      let (s1, e1, v1, c1) = each_round pkt b long c (suc left) s no_counts v.running in
      let (s2, e2, v2, c2) =
        each_round pkt b long c left s1 (count_packet pkt no_counts) v1.running in
      let r2 = count_packet pkt (mark 9 (count_packet pkt no_counts)) in
      let (s3, e3, v3, c3) = each_seen pkt b long c left s2 r2 v2 refl in
      let (x, l, e) = row_tail (length cs) cs (map some cs) (omega (arith, h)) (omega (arith, h)) in
      let nine : s1.cycles ≡ later 9 c =
        c1 ∙ ap (λ k. later k c) {x = n} {y = 9} (omega (arith, h)) in
      let seen : notes (track c) (got c) s1.cycles
            (take (length cs) (line s1.bus.dut ++ map some cs)) (count_packet pkt no_counts)
          ≡ mark 9 (count_packet pkt no_counts) =
        ap
          (λ q.
            notes (track c) (got c) s1.cycles (take (length cs) (q ++ map some cs))
              (count_packet pkt no_counts))
          v1.lined
        ∙ ap (λ q. notes (track c) (got c) s1.cycles q (count_packet pkt no_counts)) e
        ∙ notes_first c 0 s1.cycles x l (count_packet pkt no_counts) refl
        ∙ ap (λ k. mark (minus k c) (count_packet pkt no_counts)) nine
        ∙ ap (λ k. mark k (count_packet pkt no_counts)) (minus-later 9 c small) in
      (
        s3,
        e1
            ∙ ap (λ r. push_each c (suc left) pkt 8 s1 (count_packet pkt r)) (unseen s v h)
            ∙ e2
            ∙ ap (λ r. push_each c left pkt 8 s2 (count_packet pkt r)) seen
            ∙ e3,
        v3,
        c3
            ∙ ap (later (left * n)) (c2 ∙ ap (later n) c1 ∙ later_add n n c)
            ∙ later_add (n + n) (left * n) c
            ∙ ap (λ k. later k c) {x = n + n + left * n} {y = suc (suc left) * n} (omega arith),
      )

  -- Alone, it is not seen.
  each_once :
      (s : Sim) → IsDraining s.bus (nones 8) → length (beats pkt) ≡ 8 → AllPushed 1 s no_counts
  unfolding push_each
  each_once s v h =
      let c = s.cycles in
      let n = length (beats pkt) + 1 in
      let (s1, e1, v1, c1) = each_round pkt b long c 0 s no_counts v.running in
      (
        s1,
        e1 ∙ ap (λ r. push_each c 0 pkt 8 s1 (count_packet pkt r)) (unseen s v h),
        v1,
        c1 ∙ ap (λ k. later k c) {x = n} {y = 1 * n} (omega arith),
      )

  pub each_lem :
      (left : ℕ) (s : Sim)
      → IsDraining s.bus (nones 8)
      → s.cycles < 2 ^ 64
      → AllPushed (suc left) s (firsts (length (beats pkt)) (suc left))
  each_lem left s v small = elim (Bool-cases (ltb 8 (length (beats pkt)))) [
    | inl h ↦
        subst (λ c. AllPushed (suc left) s (seen_of c (ltb 1 (suc left)))) (sym h)
          (each_long left s v small (ltb→lt 8 (length (beats pkt)) h))
    | inr h ↦
        subst (λ c. AllPushed (suc left) s (seen_of c (ltb 1 (suc left)))) (sym h)
          (by_left left (short h))
  ]
    where
      short : ltb 8 (length (beats pkt)) ≡ false → length (beats pkt) ≡ 8
      short h = let more = seven-lt pkt b long in ground (arith, more)

      by_left :
          (left : ℕ)
          → length (beats pkt) ≡ 8
          → AllPushed (suc left) s (seen_of false (ltb 1 (suc left)))
      by_left zero e = each_once s v e
      by_left (suc left) e =
          subst (λ d. AllPushed (suc (suc left)) s (seen_of false d))
            (sym (lt→ltb 1 (suc (suc left)) (omega arith))) (each_short left s v small e)
