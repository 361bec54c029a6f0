-- ===== src/Bench/Perf/Alternate.antt =====
-- The loop of tb_perf.cpp with packets of two kinds.
use fpga_network_processing.Base.{
  Bool, List, Option, ap, ap₂, arith, false, if◌then◌else◌, length, none, refl, some, suc, true,
  zero, ℕ, ◌%◌, ◌+◌, ◌<◌, ◌==◌, ◌^◌, ◌∙◌, ◌≡◌,
}
use Prim.{tt}
use fpga_network_processing.Generator.Carries.{AllBytes}
use fpga_network_processing.Generator.Build.{Packet}
use fpga_network_processing.Monitor.Verdict.{Beat}
use fpga_network_processing.Bench.PipelineDriver.Edges.{IsRunning}
use fpga_network_processing.Bench.PipelineDriver.Drain.{IsDraining}
use fpga_network_processing.Bench.PipelineDriver.Session.{beats}
use fpga_network_processing.Bench.Perf.{Sim}
use fpga_network_processing.Bench.Perf.Push.{later, push_packet_lem}
use fpga_network_processing.Bench.Perf.Count.{later_add, next-later}
use fpga_network_processing.Bench.Perf.Preheat.{tail, IsDraining-Passed}
use fpga_network_processing.Bench.Perf.Report.{either, mixed_each}
use fpga_network_processing.Bench.Perf.Runs.{beats_of, length-beats}

-- The end of a packet of eight beats or more in the stages.
pub record IsTailed (s : Sim) : Type 0 where
  pub pkt : List ℕ
  pub bytes : AllBytes pkt
  pub long : 56 < length pkt
  pub tailed : IsDraining s.bus (tail (beats pkt))

abbrev pub size_at : ℕ → ℕ
size_at p = if p % 2 == 0 then 64 else 1530

-- Cycles and bytes of the rounds.
abbrev pub cost : ℕ → ℕ → ℕ
cost zero p = 0
cost (suc left) p = beats_of (size_at p) + 1 + cost left (p + 1)

abbrev pub bytes_of : ℕ → ℕ → ℕ
bytes_of zero p = 0
bytes_of (suc left) p = size_at p + bytes_of left (p + 1)

module _ (s l : Packet) (bs : AllBytes s) (bl : AllBytes l) (ns : length s ≡ 64)
    (nl : length l ≡ 1530) where
  either_lem :
      (p : ℕ)
      → AllBytes (either s l p) × (length (either s l p) ≡ size_at p) × (56 < length (either s l p))
  either_lem p = by_case (p % 2 == 0)
    where
      by_case :
          (c : Bool)
          → let pkt = if c then s else l in
            AllBytes pkt × (length pkt ≡ (if c then 64 else 1530)) × (56 < length pkt)
      by_case true = (bs, ns, omega (arith, ns))
      by_case false = (bl, nl, omega (arith, nl))

  abbrev round_case : ℕ → ℕ → ℕ → ℕ → Option (Sim × Unit {0}) → Option (Sim × ℕ × ℕ)
  round_case left p n total o = elim o [
    | none ↦ none
    | some (sim', u) ↦
        mixed_each s l left (p + 1) sim' (n + 1) ((total + length (either s l p)) % 2 ^ 64)
  ]

  mixed_round :
      (left p : ℕ) (sim : Sim) (n total : ℕ)
      → IsRunning sim.bus
      → (sim' : Sim) × (mixed_each s l (suc left) p sim n total
          ≡ mixed_each s l left (p + 1) sim' (n + 1) ((total + size_at p) % 2 ^ 64))
        × IsTailed sim'
        × (sim'.cycles ≡ later (beats_of (size_at p) + 1) sim.cycles)
  unfolding mixed_each
  mixed_round left p sim n total v =
      let pkt = either s l p in
      let (b, size, long) = either_lem p in
      let note : Sim → Unit {0} → Unit = λ t u. u in
      let got : ℕ → Option Beat → Unit {0} → Unit = λ c o u. u in
      let (r, e, q) = push_packet_lem note got pkt sim tt (λ t acc running. refl) b v in
      let same : length (beats pkt) + 1 ≡ beats_of (size_at p) + 1 =
        ap (λ k. k + 1) (length-beats pkt (omega (arith, long)) ∙ ap beats_of size) in
      (
        r.0,
        ap (round_case left p n total) e
            ∙ ap (λ k. mixed_each s l left (p + 1) r.0 (n + 1) ((total + k) % 2 ^ 64)) size,
        record {
          pkt = pkt;
          bytes = b;
          long = long;
          tailed = IsDraining-Passed pkt b long note got sim tt r q;
        },
        q.counted ∙ next-later (length (beats pkt)) sim.cycles ∙ ap (λ k. later k sim.cycles) same,
      )

  mixed_rounds :
      (left p : ℕ) (sim : Sim) (n total : ℕ)
      → IsTailed sim
      → total < 2 ^ 64
      → (sim' : Sim) × (mixed_each s l left p sim n total
          ≡ some (sim', n + left, (total + bytes_of left p) % 2 ^ 64))
        × IsTailed sim'
        × (sim'.cycles ≡ later (cost left p) sim.cycles)
  unfolding mixed_each
  mixed_rounds zero p sim n total v small =
      (sim, ap₂ (λ a b. some (sim, a, b)) {x = n} {u = total} (omega arith) (omega arith), v, refl)
  mixed_rounds (suc left) p sim n total v small =
      let (s1, e1, v1, c1) = mixed_round left p sim n total v.tailed.running in
      let here = size_at p in
      let (s2, e2, v2, c2) =
        mixed_rounds left (p + 1) s1 (n + 1) ((total + here) % 2 ^ 64) v1 (omega arith) in
      (
        s2,
        e1
            ∙ e2
            ∙ ap₂ (λ a b. some (s2, a, b)) {x = n + 1 + left}
                {u = ((total + here) % 2 ^ 64 + bytes_of left (p + 1)) % 2 ^ 64} (omega arith)
                (omega arith),
        v2,
        c2
            ∙ ap (later (cost left (p + 1))) c1
            ∙ later_add (beats_of here + 1) (cost left (p + 1)) sim.cycles,
      )

  -- All the rounds.
  pub mixed_all :
      (left : ℕ) (sim : Sim)
      → IsRunning sim.bus
      → (sim' : Sim) × (mixed_each s l (suc left) 0 sim 0 0
          ≡ some (sim', suc left, bytes_of (suc left) 0 % 2 ^ 64))
        × IsTailed sim'
        × (sim'.cycles ≡ later (cost (suc left) 0) sim.cycles)
  mixed_all left sim v =
      let (s1, e1, v1, c1) = mixed_round left 0 sim 0 0 v in
      let (s2, e2, v2, c2) = mixed_rounds left 1 s1 1 (64 % 2 ^ 64) v1 (omega arith) in
      (
        s2,
        e1
            ∙ e2
            ∙ ap₂ (λ a b. some (s2, a, b)) {x = 1 + left}
                {u = (64 % 2 ^ 64 + bytes_of left 1) % 2 ^ 64} (omega arith) (omega arith),
        v2,
        c2 ∙ ap (later (cost left 1)) c1 ∙ later_add 9 (cost left 1) sim.cycles,
      )
