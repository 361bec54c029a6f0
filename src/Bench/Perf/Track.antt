-- ===== src/Bench/Perf/Track.antt =====
-- The loop of tb_perf.cpp that is measured.
use fpga_network_processing.Base.{
  Bool, List, Option, [], ap, arith, false, if◌then◌else◌, length, none, not, refl, some, suc, take,
  true, zero, ℕ, ◌&&◌, ◌*◌, ◌++◌, ◌+◌, ◌<◌, ◌∙◌, ◌∷◌, ◌≡◌,
}
use mathlib.Core.List.{map}
use fpga_network_processing.Generator.Carries.{AllBytes}
use fpga_network_processing.Monitor.Verdict.{Beat}
use fpga_network_processing.Pipeline.{m_tvalid}
use fpga_network_processing.Pipeline.Sight.{see}
use fpga_network_processing.Pipeline.Shift.{line}
use fpga_network_processing.Bench.PipelineDriver.Edges.{IsRunning}
use fpga_network_processing.Bench.PipelineDriver.Drain.{IsDraining, nones}
use fpga_network_processing.Bench.PipelineDriver.Session.{beats}
use fpga_network_processing.Bench.Perf.{Sim, next, minus, Counts, count_packet, track, push_each}
use fpga_network_processing.Bench.Perf.Push.{later, notes, Sees, push_packet_lem}
use fpga_network_processing.Bench.Perf.Count.{later_add, next-later, count_packets}
use fpga_network_processing.Bench.Perf.Preheat.{tail, IsDraining-Passed}

abbrev pub mark : ℕ → Counts → Counts
mark out r = record r { first_out = out; first_beat_seen = true }

-- What is noted of the beats that are shown.
abbrev pub got : ℕ → ℕ → Option Beat → Counts → Counts
got start c none r = r
got start c (some b) r = if r.first_beat_seen then r else mark (minus c start) r

track-Sees : (start : ℕ) → Sees (track start) (got start)
unfolding track see
track-Sees start s r v =
    ap
      (λ (m : Bool).
        if (m_tvalid s.bus.dut && m) && not r.first_beat_seen
        then mark (minus s.cycles start) r
        else r)
      v.driven.wanted
    ∙ by_case (m_tvalid s.bus.dut)
  where
    by_case :
        (c : Bool)
        → (if (c && true) && not r.first_beat_seen then mark (minus s.cycles start) r else r)
          ≡ got start s.cycles (if c then some (see s.bus.dut.flow_inst.stage.pipe) else none) r
    by_case c = ground arith

-- Once a beat was seen nothing changes.
notes_seen :
    (start c : ℕ) (l : List (Option Beat)) (r : Counts)
    → r.first_beat_seen ≡ true
    → notes (track start) (got start) c l r ≡ r
notes_seen start c [] r h = refl
notes_seen start c (none ∷ l) r h = notes_seen start (next c) l r h
notes_seen start c (some b ∷ l) r h =
    let same : got start c (some b) r ≡ r = ground arith in
    ap (notes (track start) (got start) (next c) l) same ∙ notes_seen start (next c) l r h

pub notes-nones :
    (start : ℕ) (k c : ℕ) (l : List (Option Beat)) (r : Counts)
    → notes (track start) (got start) c (nones k ++ l) r
      ≡ notes (track start) (got start) (later k c) l r
notes-nones start zero c l r = refl
notes-nones start (suc k) c l r = notes-nones start k (next c) l r

-- The first beat that is shown.
pub notes_first :
    (start k c : ℕ) (b : Beat) (l : List (Option Beat)) (r : Counts)
    → r.first_beat_seen ≡ false
    → notes (track start) (got start) c (nones k ++ some b ∷ l) r ≡ mark (minus (later k c) start) r
notes_first start k c b l r h =
    let now : got start (later k c) (some b) r ≡ mark (minus (later k c) start) r = ground arith in
    notes-nones start k c (some b ∷ l) r
    ∙ ap (notes (track start) (got start) (next (later k c)) l) now
    ∙ notes_seen start (next (later k c)) l (mark (minus (later k c) start) r) refl

module _ (pkt : List ℕ) (b : AllBytes pkt) (long : 56 < length pkt) (start : ℕ) where
  abbrev round_case : ℕ → Option (Sim × Counts) → Option (Sim × Counts)
  round_case left o = elim o [
    | none ↦ none
    | some (s', r') ↦ push_each start left pkt 8 s' (count_packet pkt r')
  ]

  -- A round of the loop.
  pub each_round :
      (left : ℕ) (s : Sim) (r : Counts)
      → IsRunning s.bus
      → let shown = take (length (beats pkt)) (line s.bus.dut ++ map some (beats pkt)) in
        let r' = notes (track start) (got start) s.cycles shown r in
        (s' : Sim) × (push_each start (suc left) pkt 8 s r
          ≡ push_each start left pkt 8 s' (count_packet pkt r'))
        × IsDraining s'.bus (tail (beats pkt))
        × (s'.cycles ≡ later (length (beats pkt) + 1) s.cycles)
  unfolding push_each
  each_round left s r v =
      let (q, e, p) = push_packet_lem (track start) (got start) pkt s r (track-Sees start) b v in
      (
        q.0,
        ap (round_case left) e
            ∙ ap (λ r'. push_each start left pkt 8 q.0 (count_packet pkt r')) p.noted,
        IsDraining-Passed pkt b long (track start) (got start) s r q p,
        p.counted ∙ next-later (length (beats pkt)) s.cycles,
      )

  -- The rounds after the first beat was seen.
  pub each_seen :
      (left : ℕ) (s : Sim) (r : Counts)
      → IsDraining s.bus (tail (beats pkt))
      → r.first_beat_seen ≡ true
      → (s' : Sim) × (push_each start left pkt 8 s r ≡ some (s', count_packets left pkt r))
        × IsDraining s'.bus (tail (beats pkt))
        × (s'.cycles ≡ later (left * (length (beats pkt) + 1)) s.cycles)
  unfolding push_each
  each_seen zero s r v h = (
    s,
    refl,
    v,
    ap (λ k. later k s.cycles) {x = 0} {y = 0 * (length (beats pkt) + 1)} (omega arith),
  )
  each_seen (suc left) s r v h =
      let n = length (beats pkt) + 1 in
      let shown = take (length (beats pkt)) (line s.bus.dut ++ map some (beats pkt)) in
      let same = notes_seen start s.cycles shown r h in
      let (s1, e1, v1, c1) = each_round left s r v.running in
      let (s2, e2, v2, c2) = each_seen left s1 (count_packet pkt r) v1 h in
      (
        s2,
        e1 ∙ ap (λ r'. push_each start left pkt 8 s1 (count_packet pkt r')) same ∙ e2,
        v2,
        c2
            ∙ ap (later (left * n)) c1
            ∙ later_add n (left * n) s.cycles
            ∙ ap (λ k. later k s.cycles) {x = n + left * n} {y = suc left * n} (omega arith),
      )
