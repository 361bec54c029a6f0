-- ===== src/Bench/Perf/Reported.antt =====
-- What `main` of tb_perf.cpp reports.
use fpga_network_processing.Base.{
  List, Option, [], ap, ap₂, arith, none, refl, some, sym, ℕ, ◌%◌, ◌<◌, ◌^◌, ◌∙◌, ◌∷◌, ◌≡◌, ◌≤◌,
}
use Prim.{tt}
use mathlib.Core.List.{map}
use mathlib.Core.Path.{subst}
use fpga_network_processing.Generator.Build.{PacketGen}
use fpga_network_processing.Pipeline.{Pipeline}
use fpga_network_processing.FlowTable.{Past}
use fpga_network_processing.Bench.PipelineDriver.{to_drain}
use fpga_network_processing.Bench.PipelineDriver.Drain.{nones}
use fpga_network_processing.Bench.PipelineDriver.Session.{IsRunning-to_drain, IsIdle-drained}
use fpga_network_processing.Bench.Perf.{Sim, minus, reset, drain_rest, drain_fuel}
use fpga_network_processing.Bench.Perf.Push.{later}
use fpga_network_processing.Bench.Perf.Count.{later_add, minus-later, later-lt}
use fpga_network_processing.Bench.Perf.Preheat.{drain-tail}
use fpga_network_processing.Bench.Perf.Report.{
  Double, Row, Mixed, Report, mixed_result, run_mixed, runs, udp, tcp, num, main, table_makers,
  csv_makers, new_sim,
}
use fpga_network_processing.Bench.Perf.Runs.{
  AreMakers, IsQuiet, IsQuiet-idle, reset_lem, row_of, runs_lem, udp-IsMaker, tcp-IsMaker,
}
use fpga_network_processing.Bench.Perf.Alternate.{bytes_of, cost, mixed_all}

cost_all : cost 1000 0 ≡ 101000
cost_all = refl

bytes_all : bytes_of 1000 0 ≡ 797000
bytes_all = refl

enough : 7 ≤ drain_fuel
enough = omega arith

table_lem : AreMakers table_makers (64 ∷ 256 ∷ 512 ∷ 1518 ∷ 76 ∷ [])
table_lem = (
  udp-IsMaker 22,
  omega arith,
  (
    udp-IsMaker 214,
    omega arith,
    (
      udp-IsMaker 470,
      omega arith,
      (udp-IsMaker 1476, omega arith, (tcp-IsMaker 22, omega arith, tt)),
    ),
  ),
)

csv_lem : AreMakers csv_makers (64 ∷ 256 ∷ 512 ∷ 1518 ∷ 64 ∷ [])
csv_lem = (
  udp-IsMaker 22,
  omega arith,
  (
    udp-IsMaker 214,
    omega arith,
    (
      udp-IsMaker 470,
      omega arith,
      (udp-IsMaker 1476, omega arith, (tcp-IsMaker 10, omega arith, tt)),
    ),
  ),
)

module _ {W : Type 0} ⦃d : Double W⦄ where
  abbrev rest_case : Sim → PacketGen → ℕ → ℕ → Option Sim → Option (Sim × PacketGen × Mixed W)
  rest_case low g n total o = elim o [
    | none ↦ none
    | some s ↦ some (s, g, mixed_result (minus s.cycles low.cycles) n total)
  ]

  abbrev each_case : Sim → PacketGen → Option (Sim × ℕ × ℕ) → Option (Sim × PacketGen × Mixed W)
  each_case low g o = elim o [
    | none ↦ none
    | some (s, n, total) ↦ rest_case low g n total (drain_rest drain_fuel s)
  ]

  run_mixed_lem :
      (s : Sim) (g : PacketGen)
      → IsQuiet s
      → (s' : Sim) × (g' : PacketGen) × (run_mixed {W = W} s g
          ≡ some (s', g', mixed_result 101007 num 797000))
        × IsQuiet s'
  unfolding run_mixed drain_rest
  run_mixed_lem s g q =
      let (small, g1) = udp 22 g in
      let (large, g2) = tcp 1476 g1 in
      let (idle, count) = reset_lem s q in
      let low = reset 4 s in
      let u = udp-IsMaker 22 in
      let t = tcp-IsMaker 1476 in
      let (s1, e1, v1, c1) =
        mixed_all small large (u.bytes g) (t.bytes g1) (u.sized g) (t.sized g1) 999
          (record low { bus = to_drain low.bus }) (IsRunning-to_drain low.bus idle) in
      let (s2, e2, v2, c2) =
        drain-tail v1.pkt v1.bytes v1.long some (λ t. none) drain_fuel s1 v1.tailed enough in
      let spent : s2.cycles ≡ later 101007 low.cycles =
        c2
        ∙ ap (later 7) (c1 ∙ ap (λ k. later k low.cycles) cost_all)
        ∙ later_add 101000 7 low.cycles in
      let cycles : minus s2.cycles low.cycles ≡ 101007 =
        ap (λ k. minus k low.cycles) spent ∙ minus-later 101007 low.cycles count in
      let total : bytes_of 1000 0 % 2 ^ 64 ≡ 797000 = ap (λ k. k % 2 ^ 64) bytes_all in
      (
        s2,
        g2,
        ap (each_case low g2) e1
            ∙ ap (rest_case low g2 1000 (bytes_of 1000 0 % 2 ^ 64)) e2
            ∙ ap₂ (λ a b. some (s2, g2, mixed_result a 1000 b)) cycles total,
        IsQuiet-idle s2 (IsIdle-drained s2.bus (nones 8) v2 refl) v2.quiet
            (subst (λ k. k < 2 ^ 64) (sym spent) (later-lt 101007 low.cycles count)),
      )

  abbrev csv_case :
      List (Row W) → Mixed W → Option (Sim × PacketGen × List (Row W)) → Option (Report W)
  csv_case table mixed o = elim o [
    | none ↦ none
    | some (s, g, csv) ↦ some (record { table = table; mixed = mixed; csv = csv })
  ]

  abbrev mixed_case : List (Row W) → Option (Sim × PacketGen × Mixed W) → Option (Report W)
  mixed_case table o = elim o [
    | none ↦ none
    | some (s, g, mixed) ↦ csv_case table mixed (runs csv_makers s g)
  ]

  abbrev table_case : Option (Sim × PacketGen × List (Row W)) → Option (Report W)
  table_case o = elim o [ none ↦ none | some (s, g, table) ↦ mixed_case table (run_mixed s g) ]

  -- Whatever the device's registers held, and whatever the generator's counter, the performance
  -- testbench ends, and its report is: for packets of 64, 256, 512, 1518 and 76 bytes, and again
  -- of 64, 256, 512, 1518 and 64 bytes, the metrics of 1000 packets of (size + 7) / 8 beats; and
  -- for the mixed run 1000 packets and 797000 bytes in 101007 cycles.
  pub main_reports :
      (dev : Pipeline) (past : Past) (g : PacketGen)
      → main {W = W} (new_sim dev past) g
        ≡ some (record {
          table = map row_of (64 ∷ 256 ∷ 512 ∷ 1518 ∷ 76 ∷ []);
          mixed = mixed_result 101007 1000 797000;
          csv = map row_of (64 ∷ 256 ∷ 512 ∷ 1518 ∷ 64 ∷ []);
        })
  unfolding main
  main_reports dev past g =
      let s = new_sim dev past in
      let fresh : IsQuiet s = record {
        off = refl;
        lanes = refl;
        small = omega arith;
        count = omega arith;
      } in
      let table : List (Row W) = map row_of (64 ∷ 256 ∷ 512 ∷ 1518 ∷ 76 ∷ []) in
      let (s1, g1, e1, q1) =
        runs_lem table_makers (64 ∷ 256 ∷ 512 ∷ 1518 ∷ 76 ∷ []) s g table_lem fresh in
      let (s2, g2, e2, q2) = run_mixed_lem s1 g1 q1 in
      let (s3, g3, e3, q3) =
        runs_lem csv_makers (64 ∷ 256 ∷ 512 ∷ 1518 ∷ 64 ∷ []) s2 g2 csv_lem q2 in
      ap table_case e1
      ∙ ap (mixed_case table) e2
      ∙ ap (csv_case table (mixed_result 101007 1000 797000)) e3
