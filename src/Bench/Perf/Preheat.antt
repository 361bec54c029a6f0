-- ===== src/Bench/Perf/Preheat.antt =====
-- A packet of eight beats or more in the pipeline, and the loop of tb_perf.cpp that warms it up.
use Prim.{tt}
use fpga_network_processing.Base.{
  List, Option, [], ap, arith, drop, length, length-drop, none, refl, some, suc, zero, ℕ, ◌*◌, ◌++◌,
  ◌+◌, ◌-◌, ◌<◌, ◌∙◌, ◌∷◌, ◌≡◌, ◌≤◌,
}
use mathlib.Core.List.{map}
use mathlib.Core.Path.{subst}
use fpga_network_processing.Generator.Carries.{AllBytes}
use fpga_network_processing.Monitor.Verdict.{Beat}
use fpga_network_processing.Pipeline.{Pipeline}
use fpga_network_processing.Pipeline.Shift.{line}
use fpga_network_processing.Bench.PipelineDriver.Edges.{IsRunning}
use fpga_network_processing.Bench.PipelineDriver.Drain.{IsDraining, nones}
use fpga_network_processing.Bench.PipelineDriver.Session.{beats}
use fpga_network_processing.Bench.PipelineDriver.Packet.{
  many_chunks, Ends-chunks, Ends-drop, drop-map,
}
use fpga_network_processing.Bench.Perf.{Sim, preheat, drain, drain_preheat, timeout}
use fpga_network_processing.Bench.Perf.Push.{later, Passed, push_packet_lem}
use fpga_network_processing.Bench.Perf.Rounds.{drain_lem}
use fpga_network_processing.Bench.FifoDriver.Chunks.{drop-drop}
use fpga_network_processing.Bench.Perf.Count.{later_add}

-- What is left of a row of beats that has moved on.
drop_through :
    (l : List (Option Beat)) (n : ℕ) (m : List (Option Beat))
    → length l ≤ n
    → drop n (l ++ m) ≡ drop (n - length l) m
drop_through [] n m h = ap (λ k. drop k m) {x = n} (omega arith)
drop_through (o ∷ l) zero m h = absurd (omega arith)
drop_through (o ∷ l) (suc n) m h =
    drop_through l n m (omega arith) ∙ ap (λ k. drop k m) {x = n - length l} (omega arith)

-- The last seven beats, one stage behind the last.
abbrev pub tail : List Beat → List (Option Beat)
tail cs = map some (drop (length cs - 7) cs) ++ nones 1

tail_lem :
    (d : Pipeline) (cs : List Beat)
    → 7 < length cs
    → drop 1 (drop (length cs) (line d ++ map some cs)) ++ none ∷ [] ≡ tail cs
tail_lem d cs h =
    let n = length cs in
    ap (λ q. q ++ none ∷ [])
      (drop-drop n 1 (line d ++ map some cs)
        ∙ drop_through (line d) (n + 1) (map some cs) (omega arith)
        ∙ ap (λ k. drop k (map some cs)) {x = n + 1 - 8} {y = n - 7} (omega arith)
        ∙ drop-map (n - 7) cs)

module _ (pkt : List ℕ) (b : AllBytes pkt) (long : 56 < length pkt) where
  abbrev pub cs : List Beat
  cs = beats pkt

  pub seven-lt : 7 < length cs
  seven-lt = many_chunks 7 (suc (length pkt)) pkt 0 (omega arith) (omega arith)

  -- After a packet the stages hold its tail.
  pub IsDraining-Passed :
      {Acc : Type 0} (note : Sim → Acc → Acc) (got : ℕ → Option Beat → Acc → Acc) (s : Sim)
      (acc : Acc) (r : Sim × Acc)
      → Passed note got cs s acc r
      → IsDraining r.0.bus (tail cs)
  IsDraining-Passed note got s acc r p = record {
    running = p.running;
    quiet = p.quiet_is;
    lined = p.lined ∙ tail_lem s.bus.dut cs seven-lt;
  }

  -- Reading the tail takes seven cycles.
  pub drain-tail :
      {R : Type 0} (done out : Sim → R) (left : ℕ) (s : Sim)
      → IsDraining s.bus (tail cs)
      → 7 ≤ left
      → (s' : Sim) × (drain done out left s ≡ done s')
        × IsDraining s'.bus (nones 8)
        × (s'.cycles ≡ later 7 s.cycles)
  drain-tail done out left s v enough =
      let rest = drop (length cs - 7) cs in
      let size : length rest ≡ 7 = omega (arith, length-drop (length cs - 7) cs, seven-lt) in
      let ends =
        Ends-drop (length cs - 7) cs (omega (arith, seven-lt))
          (Ends-chunks (suc (length pkt)) pkt 0 (omega arith) (omega arith)) in
      let (s', e, v', count) = drain_lem done out left rest 1 s v ends (omega (arith, size)) in
      (
        s',
        e,
        subst (IsDraining s'.bus) (ap nones {y = 8} (omega (arith, size))) v',
        count ∙ ap (λ n. later n s.cycles) size,
      )

  abbrev round_case : ℕ → Option (Sim × Unit {0}) → Option Sim
  round_case left o = elim o [ none ↦ none | some (s', u) ↦ preheat left pkt 8 (drain_preheat s') ]

  preheat_round :
      (left : ℕ) (s : Sim)
      → IsRunning s.bus
      → (s' : Sim) × (preheat (suc left) pkt 8 s ≡ preheat left pkt 8 s')
        × IsDraining s'.bus (nones 8)
        × (s'.cycles ≡ later (length cs + 8) s.cycles)
  unfolding preheat drain_preheat
  preheat_round left s v =
      let note : Sim → Unit {0} → Unit = λ t u. u in
      let got : ℕ → Option Beat → Unit {0} → Unit = λ c o u. u in
      let (r, e, p) = push_packet_lem note got pkt s tt (λ t acc running. refl) b v in
      let (s', e', v', count) =
        drain-tail (λ t. t) (λ t. t) timeout r.0 (IsDraining-Passed note got s tt r p)
          (omega arith) in
      (
        s',
        ap (round_case left) e ∙ ap (preheat left pkt 8) e',
        v',
        count
            ∙ ap (later 7) p.counted
            ∙ later_add 1 7 (later (length cs) s.cycles)
            ∙ later_add (length cs) 8 s.cycles,
      )

  pub preheat_lem :
      (s : Sim)
      → IsRunning s.bus
      → (s' : Sim) × (preheat 2 pkt 8 s ≡ some s')
        × IsDraining s'.bus (nones 8)
        × (s'.cycles ≡ later (2 * (length cs + 8)) s.cycles)
  unfolding preheat
  preheat_lem s v =
      let n = length cs + 8 in
      let (s1, e1, v1, c1) = preheat_round 1 s v in
      let (s2, e2, v2, c2) = preheat_round 0 s1 v1.running in
      (
        s2,
        e1 ∙ e2,
        v2,
        c2
            ∙ ap (later n) c1
            ∙ later_add n n s.cycles
            ∙ ap (λ k. later k s.cycles) {x = n + n} {y = 2 * n} (omega arith),
      )
