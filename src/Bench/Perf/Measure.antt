-- ===== src/Bench/Perf/Measure.antt =====
-- A run of tb_perf.cpp.
use fpga_network_processing.Base.{
  List, Option, ap, ap₂, arith, false, length, none, refl, some, suc, sym, ℕ, ◌%◌, ◌*◌, ◌+◌, ◌<◌,
  ◌^◌, ◌∙◌, ◌≡◌,
}
use mathlib.Core.Path.{subst}
use fpga_network_processing.Generator.Carries.{AllBytes}
use fpga_network_processing.Bench.PipelineDriver.{to_drain}
use fpga_network_processing.Bench.PipelineDriver.Drain.{nones}
use fpga_network_processing.Bench.PipelineDriver.Session.{
  beats, IsIdle, IsRunning-to_drain, IsIdle-drained,
}
use fpga_network_processing.Bench.Perf.{
  Sim, Counts, Cycles, minus, push_each, drain_rest, drain_fuel, measure_cycles, no_counts,
}
use fpga_network_processing.Bench.Perf.Push.{later}
use fpga_network_processing.Bench.Perf.Count.{
  later_add, minus-later, later-lt, count_packets, count_packets_lem,
}
use fpga_network_processing.Bench.Perf.Preheat.{preheat_lem, drain-tail}
use fpga_network_processing.Bench.Perf.Latency.{firsts, each_lem}

-- What a run of `n` packets of `b` beats and `size` bytes gives.
abbrev pub counts_of : ℕ → ℕ → ℕ → Counts
counts_of b size n = record (firsts b n) { packets = n % 2 ^ 64; total_bytes = n * size % 2 ^ 64 }

abbrev pub cycles_of : ℕ → ℕ → ℕ → Cycles
cycles_of b size n = record {
  counts = counts_of b size n;
  push_cycles = n * (b + 1) % 2 ^ 64;
  drain_cycles = 7;
  total_cycles = (2 * (b + 8) + n * (b + 1) + 3) % 2 ^ 64;
}

counts_lem :
    (b n : ℕ) (pkt : List ℕ) → count_packets n pkt (firsts b n) ≡ counts_of b (length pkt) n
counts_lem b n pkt =
    count_packets_lem n pkt (firsts b n) (omega arith) (omega arith)
    ∙ ap₂ (λ p t. record (firsts b n) { packets = p; total_bytes = t }) (omega arith) (omega arith)

abbrev cycles_at : Sim → Sim → Sim → Counts → Sim → Cycles
cycles_at sim s s' r s'' = record {
  counts = r;
  push_cycles = minus s'.cycles s.cycles;
  drain_cycles = minus s''.cycles s'.cycles;
  total_cycles = minus (minus s''.cycles sim.cycles) 4;
}

abbrev drain_case : Sim → Sim → Sim → Counts → Option Sim → Option (Sim × Cycles)
drain_case sim s s' r o = elim o [ none ↦ none | some s'' ↦ some (s'', cycles_at sim s s' r s'') ]

abbrev push_case : Sim → Sim → Option (Sim × Counts) → Option (Sim × Cycles)
push_case sim s o = elim o [
  | none ↦ none
  | some (s', r) ↦ drain_case sim s s' r (drain_rest drain_fuel s')
]

abbrev heat_case : Sim → List ℕ → ℕ → Option Sim → Option (Sim × Cycles)
heat_case sim pkt n o = elim o [
  | none ↦ none
  | some s ↦ push_case sim s (push_each s.cycles n pkt 8 s no_counts)
]

-- Counts of a run with `heat`, `push` and then seven cycles.
cycles_lem :
    (heat push : ℕ) (sim s s' s'' : Sim) (r r' : Counts)
    → sim.cycles < 2 ^ 64
    → s.cycles ≡ later heat sim.cycles
    → s'.cycles ≡ later push s.cycles
    → s''.cycles ≡ later 7 s'.cycles
    → r ≡ r'
    → cycles_at sim s s' r s'' ≡ record {
      counts = r';
      push_cycles = push % 2 ^ 64;
      drain_cycles = 7;
      total_cycles = (heat + push + 3) % 2 ^ 64;
    }
cycles_lem heat push sim s s' s'' r r' small c1 c2 c3 same =
    let small1 : s.cycles < 2 ^ 64 =
      subst (λ k. k < 2 ^ 64) (sym c1) (later-lt heat sim.cycles small) in
    let small2 : s'.cycles < 2 ^ 64 =
      subst (λ k. k < 2 ^ 64) (sym c2) (later-lt push s.cycles small1) in
    let all : s''.cycles ≡ later (heat + (push + 7)) sim.cycles =
      c3
      ∙ ap (later 7) c2
      ∙ later_add push 7 s.cycles
      ∙ ap (later (push + 7)) c1
      ∙ later_add heat (push + 7) sim.cycles in
    let a = ap (λ k. minus k s.cycles) c2 ∙ minus-later push s.cycles small1 in
    let b = ap (λ k. minus k s'.cycles) c3 ∙ minus-later 7 s'.cycles small2 in
    let c : minus (minus s''.cycles sim.cycles) 4 ≡ (heat + push + 3) % 2 ^ 64 =
      ap (λ k. minus (minus k sim.cycles) 4) all
      ∙ ap (λ k. minus k 4) (minus-later (heat + (push + 7)) sim.cycles small)
      ∙ omega arith in
    let make : Counts → ℕ → ℕ → ℕ → Cycles =
      λ x p d t. record { counts = x; push_cycles = p; drain_cycles = d; total_cycles = t } in
    ap₂ (λ x p. make x p (minus s''.cycles s'.cycles) (minus (minus s''.cycles sim.cycles) 4)) same
      a
    ∙ ap₂ (make r' (push % 2 ^ 64)) b c

-- From an idle bus, a run of one packet or more, each of `b` beats and more than 56 bytes, ends on
-- an idle bus with the sums of packets and bytes, `n * (b + 1)` cycles for the pushes of `n`
-- packets, 7 for the drain, and `2 * (b + 8) + n * (b + 1) + 3` in all, modulo 2 ^ 64; the latency
-- is 8 if the packets have more than 8 beats, 9 if they have 8 and there are several, and 0 for
-- one such packet.
pub measure_cycles_lem :
    (s : Sim) (pkt : List ℕ) (left : ℕ)
    → AllBytes pkt
    → IsIdle s.bus
    → s.cycles < 2 ^ 64
    → 56 < length pkt
    → (s' : Sim) × (measure_cycles s pkt 8 (suc left)
        ≡ some (s', cycles_of (length (beats pkt)) (length pkt) (suc left)))
      × IsIdle s'.bus
      × (s'.bus.ports.s_tvalid ≡ false)
      × (s'.cycles < 2 ^ 64)
unfolding measure_cycles drain_rest
measure_cycles_lem s pkt left b v small long =
    let n = length (beats pkt) in
    let c = s.cycles in
    let t : Sim = record s { bus = to_drain s.bus } in
    let (s1, e1, v1, c1) = preheat_lem pkt b long t (IsRunning-to_drain s.bus v) in
    let small1 : s1.cycles < 2 ^ 64 =
      subst (λ k. k < 2 ^ 64) (sym c1) (later-lt (2 * (n + 8)) c small) in
    let (s2, e2, v2, c2) = each_lem pkt b long left s1 v1 small1 in
    let small2 : s2.cycles < 2 ^ 64 =
      subst (λ k. k < 2 ^ 64) (sym c2) (later-lt (suc left * (n + 1)) s1.cycles small1) in
    let (s3, e3, v3, c3) = drain-tail pkt b long some (λ t. none) drain_fuel s2 v2 (omega arith) in
    let same = counts_lem n (suc left) pkt in
    (
      s3,
      ap (heat_case s pkt (suc left)) e1
          ∙ ap (push_case s s1) e2
          ∙ ap (drain_case s s1 s2 (count_packets (suc left) pkt (firsts n (suc left)))) e3
          ∙ ap (λ (x : Cycles). some (s3, x))
              (cycles_lem (2 * (n + 8)) (suc left * (n + 1)) s s1 s2 s3
                (count_packets (suc left) pkt (firsts n (suc left)))
                (counts_of n (length pkt) (suc left)) small c1 c2 c3 same),
      IsIdle-drained s3.bus (nones 8) v3 refl,
      v3.quiet,
      subst (λ k. k < 2 ^ 64) (sym c3) (later-lt 7 s2.cycles small2),
    )
