-- ===== src/Bench/Perf/Runs.antt =====
-- The runs of `main` of tb_perf.cpp.
use fpga_network_processing.Base.{
  List, Option, [], ap, ap₂, arith, false, length, length-replicate, none, refl, replicate, some,
  suc, ℕ, ◌+◌, ◌-◌, ◌/◌, ◌<◌, ◌^◌, ◌∙◌, ◌∷◌, ◌≡◌,
}
use mathlib.Core.List.{map}
use fpga_network_processing.Generator.Carries.{AllBytes}
use fpga_network_processing.Generator.Build.{PacketGen}
use fpga_network_processing.Generator.Bytes.{AllBytes-make_udp_packet, AllBytes-make_tcp_packet}
use fpga_network_processing.Bench.Clock
use fpga_network_processing.Bench.Stress.Passes.{AllBytes-replicate, smac_bytes, dmac_bytes}
use fpga_network_processing.Bench.FifoTest.{smac, dmac}
use fpga_network_processing.Bench.FifoDriver.Chunks.{few_chunks}
use fpga_network_processing.Bench.PipelineDriver
use fpga_network_processing.Bench.PipelineDriver.{Bus}
use fpga_network_processing.Bench.PipelineDriver.Wide.{AllWords}
use fpga_network_processing.Bench.PipelineDriver.Packet.{many_chunks}
use fpga_network_processing.Bench.PipelineDriver.Session.{beats, IsIdle}
use fpga_network_processing.Bench.PipelineDriver.Deliver.{reset_any}
use fpga_network_processing.Bench.Perf.{Sim, Cycles, tick, ticks, reset}
use fpga_network_processing.Bench.Perf.Measure.{cycles_of, measure_cycles_lem}
use fpga_network_processing.Bench.Perf.Report.{
  Double, PerfResult, Row, Maker, udp, tcp, num, metrics, measure, runs,
}

-- The beats of a packet of `size` bytes.
abbrev pub beats_of : ℕ → ℕ
beats_of size = (size + 7) / 8

pub length-beats : (pkt : List ℕ) → 0 < length pkt → length (beats pkt) ≡ beats_of (length pkt)
length-beats pkt h =
    let n = (length pkt - 1) / 8 in
    omega (
      arith,
      many_chunks n (suc (length pkt)) pkt 0 (omega arith) (omega arith),
      few_chunks (suc n) (suc (length pkt)) pkt 0 (omega arith),
    )

-- A maker of packets of a size.
pub record IsMaker (make : Maker) (size : ℕ) : Type 0 where
  pub bytes : (g : PacketGen) → AllBytes (make g).0
  pub sized : (g : PacketGen) → length (make g).0 ≡ size

pub udp-IsMaker : (n : ℕ) → IsMaker (udp n) (42 + n)
udp-IsMaker n =
    let payload : List ℕ = replicate n 120 in
    let made = λ (g : PacketGen).
      AllBytes-make_udp_packet g smac dmac 0xc0a80001 0xc0a80002 1234 80 payload smac_bytes
        dmac_bytes (AllBytes-replicate n 120 (omega arith)) in
    record {
      bytes = λ g. (made g).0;
      sized = λ g. (made g).1 ∙ ap (λ k. 42 + k) (length-replicate n 120);
    }

pub tcp-IsMaker : (n : ℕ) → IsMaker (tcp n) (54 + n)
tcp-IsMaker n =
    let payload : List ℕ = replicate n 120 in
    let made = λ (g : PacketGen).
      AllBytes-make_tcp_packet g smac dmac 0xc0a80001 0xc0a80002 4321 443 payload 0x02 smac_bytes
        dmac_bytes (AllBytes-replicate n 120 (omega arith)) (omega arith) in
    record {
      bytes = λ g. (made g).0;
      sized = λ g. (made g).1 ∙ ap (λ k. 54 + k) (length-replicate n 120);
    }

-- What a reset starts from: nothing is offered.
pub record IsQuiet (s : Sim) : Type 0 where
  pub off : s.bus.ports.s_tvalid ≡ false
  pub lanes : length s.bus.ports.s_beat.tdata ≡ 16
  pub small : AllWords s.bus.ports.s_beat.tdata
  pub count : s.cycles < 2 ^ 64

pub reset_lem : (s : Sim) → IsQuiet s → IsIdle (reset 4 s).bus × ((reset 4 s).cycles < 2 ^ 64)
unfolding reset ticks tick PipelineDriver.reset Clock.ticks
reset_lem s q = (reset_any 3 s.bus q.off q.lanes q.small, omega arith)

pub IsQuiet-idle :
    (s : Sim) → IsIdle s.bus → s.bus.ports.s_tvalid ≡ false → s.cycles < 2 ^ 64 → IsQuiet s
IsQuiet-idle s v off count = record { off = off; lanes = v.lanes; small = v.small; count = count }

-- Makers of packets of these sizes, more than 56 bytes each.
abbrev pub AreMakers : List Maker → List ℕ → Type 0
AreMakers [] [] = Unit {0}
AreMakers (m ∷ ms) (n ∷ ns) = IsMaker m n × (56 < n) × AreMakers ms ns
AreMakers _ _ = ⊥

module _ {W : Type 0} ⦃d : Double W⦄ where
  -- The row of a run with packets of `size` bytes.
  abbrev pub row_of : ℕ → Row W
  row_of size = record { result = metrics (cycles_of (beats_of size) size num); size = size }

  abbrev measure_case : Option (Sim × Cycles) → Option (Sim × PerfResult W)
  measure_case o = elim o [ none ↦ none | some (s, c) ↦ some (s, metrics c) ]

  measured :
      (make : Maker) (size : ℕ) (s : Sim) (g : PacketGen)
      → IsMaker make size
      → 56 < size
      → IsQuiet s
      → (s' : Sim) × (measure (reset 4 s) (make g).0 8 num ≡ some (s', (row_of size).result))
        × IsQuiet s'
  unfolding measure
  measured make size s g m long q =
      let pkt = (make g).0 in
      let (idle, small) = reset_lem s q in
      let sized = m.sized g in
      let some_bytes : 56 < length pkt = omega (arith, sized, long) in
      let (s', e, idle', off, small') =
        measure_cycles_lem (reset 4 s) pkt 999 (m.bytes g) idle small some_bytes in
      let same : length (beats pkt) ≡ beats_of size =
        length-beats pkt (omega (arith, some_bytes)) ∙ ap beats_of sized in
      (
        s',
        ap measure_case e ∙ ap₂ (λ b n. some (s', metrics (cycles_of b n num))) same sized,
        IsQuiet-idle s' idle' off small',
      )

  abbrev rest_case :
      Row W → Option (Sim × PacketGen × List (Row W)) → Option (Sim × PacketGen × List (Row W))
  rest_case row o = elim o [ none ↦ none | some (s, g, rows) ↦ some (s, g, row ∷ rows) ]

  abbrev run_case :
      List Maker
      → PacketGen
      → ℕ
      → Option (Sim × PerfResult W)
      → Option (Sim × PacketGen × List (Row W))
  run_case ms g size o = elim o [
    | none ↦ none
    | some (s, r) ↦ rest_case (record { result = r; size = size }) (runs ms s g)
  ]

  pub runs_lem :
      (ms : List Maker) (ns : List ℕ) (s : Sim) (g : PacketGen)
      → AreMakers ms ns
      → IsQuiet s
      → (s' : Sim) × (g' : PacketGen) × (runs ms s g ≡ some (s', g', map row_of ns)) × IsQuiet s'
  unfolding runs
  runs_lem [] [] s g all q = (s, g, refl, q)
  runs_lem [] (n ∷ ns) s g all q = absurd all
  runs_lem (m ∷ ms) [] s g all q = absurd all
  runs_lem (m ∷ ms) (n ∷ ns) s g (made, long, all) q =
      let (pkt, g1) = m g in
      let (s1, e1, q1) = measured m n s g made long q in
      let (s2, g2, e2, q2) = runs_lem ms ns s1 g1 all q1 in
      (
        s2,
        g2,
        ap (run_case ms g1 (length pkt)) e1
            ∙ ap (λ k. rest_case (record { result = (row_of n).result; size = k }) (runs ms s1 g1))
                (made.sized g)
            ∙ ap (rest_case (row_of n)) e2,
        q2,
      )
