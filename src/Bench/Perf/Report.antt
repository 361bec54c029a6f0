-- ===== src/Bench/Perf/Report.antt =====
-- What tb_perf.cpp reports: `PerfResult`, `measure`, and the runs of `main`.
use fpga_network_processing.Base.{
  Bool, List, Option, [], if◌then◌else◌, length, none, replicate, some, suc, zero, ℕ, ◌%◌, ◌+◌, ◌-◌,
  ◌==◌, ◌^◌, ◌∷◌,
}
use Prim.{tt}
use fpga_network_processing.Generator.Build.{Packet, PacketGen, make_udp_packet, make_tcp_packet}
use fpga_network_processing.FlowTable.{Past}
use fpga_network_processing.Pipeline.{Pipeline}
use fpga_network_processing.Bench.FifoTest.{smac, dmac}
use fpga_network_processing.Bench.PipelineDriver
use fpga_network_processing.Bench.PipelineDriver.{to_drain}
use fpga_network_processing.Bench.Perf.{
  Sim, Cycles, minus, reset, push_packet, drain_rest, drain_fuel, measure_cycles,
}

-- What the code does with a `double`.
pub record Double (W : Type 0) : Type 0 where
  pub of_uint : ℕ → W
  pub times : W → W → W
  pub over : W → W → W
  pub gt : W → W → Bool
  pub nought : W
  pub eight : W
  pub clock_rate : W
  pub mega : W
  pub giga : W

pub record PerfResult (W : Type 0) : Type 0 where
  pub cycles : Cycles
  pub latency_cycles : W
  pub cycles_per_packet : W
  pub cycles_per_byte : W
  pub throughput_gbps : W
  pub throughput_mpps : W

-- A table row: the result and the size of its packets.
pub record Row (W : Type 0) : Type 0 where
  pub result : PerfResult W
  pub size : ℕ

-- The run with packets of two kinds.
pub record Mixed (W : Type 0) : Type 0 where
  pub pkt_count : ℕ
  pub gbps : W
  pub mpps : W
  pub cycles_per_packet : W

pub record Report (W : Type 0) : Type 0 where
  pub table : List (Row W)
  pub mixed : Mixed W
  pub csv : List (Row W)

-- Packets per run: `num`.
abbrev pub num : ℕ
num = 1000

abbrev pub Maker : Type 0
Maker = PacketGen → Packet × PacketGen

-- `std::vector<uint8_t>(n, 'x')`
abbrev pub udp : ℕ → Maker
udp n g = make_udp_packet g smac dmac 0xc0a80001 0xc0a80002 1234 80 (replicate n 120)

-- The flags are those of the default argument.
abbrev pub tcp : ℕ → Maker
tcp n g = make_tcp_packet g smac dmac 0xc0a80001 0xc0a80002 4321 443 (replicate n 120) 0x02

-- The runs of the table, and those of the list at the end. That prints the sizes it asks for, which
-- the packets have.
abbrev pub table_makers : List Maker
table_makers = udp 22 ∷ udp 214 ∷ udp 470 ∷ udp 1476 ∷ tcp 22 ∷ []

abbrev pub csv_makers : List Maker
csv_makers = udp (64 - 42) ∷ udp (256 - 42) ∷ udp (512 - 42) ∷ udp (1518 - 42) ∷ tcp (64 - 54) ∷ []

-- The packets of the mixed run, by the round.
abbrev pub either : Packet → Packet → ℕ → Packet
either s l p = if p % 2 == 0 then s else l

-- The loop of the mixed run, `left` rounds of it.
unfoldable pub mixed_each : Packet → Packet → ℕ → ℕ → Sim → ℕ → ℕ → Option (Sim × ℕ × ℕ)
unfolding push_packet
mixed_each s l zero p sim pkt_count total_bytes = some (sim, pkt_count, total_bytes)
mixed_each s l (suc left) p sim pkt_count total_bytes =
    elim (push_packet (λ t u. u) (either s l p) 8 sim tt) [
      | none ↦ none
      | some (sim', u) ↦
          mixed_each s l left (p + 1) sim' (pkt_count + 1)
            ((total_bytes + length (either s l p)) % 2 ^ 64)
    ]

module _ {W : Type 0} ⦃d : Double W⦄ where
  -- "Compute metrics"
  unfoldable pub metrics : Cycles → PerfResult W
  metrics c =
      let r = c.counts in
      let seconds = d.over (d.of_uint c.total_cycles) d.clock_rate in
      record {
        cycles = c;
        latency_cycles = d.of_uint r.first_out;
        cycles_per_packet = d.over (d.of_uint c.push_cycles) (d.of_uint r.packets);
        cycles_per_byte = d.over (d.of_uint c.push_cycles) (d.of_uint r.total_bytes);
        throughput_gbps =
            if d.gt seconds d.nought
            then d.over (d.over (d.times (d.of_uint r.total_bytes) d.eight) seconds) d.giga
            else d.nought;
        throughput_mpps = d.over (d.over (d.of_uint r.packets) seconds) d.mega;
      }

  unfoldable pub measure : Sim → List ℕ → ℕ → ℕ → Option (Sim × PerfResult W)
  unfolding measure_cycles metrics
  measure sim pkt dw num_packets = elim (measure_cycles sim pkt dw num_packets) [
    | none ↦ none
    | some (s, c) ↦ some (s, metrics c)
  ]

  -- Runs, each after a reset.
  unfoldable pub runs : List Maker → Sim → PacketGen → Option (Sim × PacketGen × List (Row W))
  unfolding measure reset
  runs [] sim gen = some (sim, gen, [])
  runs (make ∷ makers) sim gen =
      let (pkt, gen') = make gen in
      elim (measure (reset 4 sim) pkt 8 num) [
        | none ↦ none
        | some (sim', r) ↦ elim (runs makers sim' gen') [
          | none ↦ none
          | some (sim'', gen'', rows) ↦
              some (sim'', gen'', record { result = r; size = length pkt } ∷ rows)
        ]
      ]

  unfoldable pub mixed_result : ℕ → ℕ → ℕ → Mixed W
  mixed_result cycles pkt_count total_bytes =
      let sec = d.over (d.of_uint cycles) d.clock_rate in
      let rate = λ (x : W). if d.gt sec d.nought then x else d.nought in
      record {
        pkt_count = pkt_count;
        gbps = rate (d.over (d.over (d.times (d.of_uint total_bytes) d.eight) sec) d.giga);
        mpps = rate (d.over (d.over (d.of_uint pkt_count) sec) d.mega);
        cycles_per_packet = d.over (d.of_uint cycles) (d.of_uint pkt_count);
      }

  unfoldable pub run_mixed : Sim → PacketGen → Option (Sim × PacketGen × Mixed W)
  unfolding mixed_each drain_rest reset mixed_result
  run_mixed sim gen =
      let (s, gen') = udp 22 gen in
      let (l, gen'') = tcp 1476 gen' in
      let low = reset 4 sim in
      elim (mixed_each s l num 0 (record low { bus = to_drain low.bus }) 0 0) [
        | none ↦ none
        | some (sim', pkt_count, total_bytes) ↦ elim (drain_rest drain_fuel sim') [
          | none ↦ none
          | some sim'' ↦
              some
                (sim'', gen'', mixed_result (minus sim''.cycles low.cycles) pkt_count total_bytes)
        ]
      ]

  unfoldable pub main : Sim → PacketGen → Option (Report W)
  unfolding runs run_mixed
  main sim gen = elim (runs table_makers sim gen) [
    | none ↦ none
    | some (s1, g1, table) ↦ elim (run_mixed s1 g1) [
      | none ↦ none
      | some (s2, g2, mixed) ↦ elim (runs csv_makers s2 g2) [
        | none ↦ none
        | some (s3, g3, csv) ↦ some (record { table = table; mixed = mixed; csv = csv })
      ]
    ]
  ]

-- `Sim sim;`
abbrev pub new_sim : Pipeline → Past → Sim
new_sim d past = record { bus = PipelineDriver.new_sim d past; cycles = 0 }
