-- ===== src/Bench/Perf.antt =====
-- sim/testbenches/tb_perf.cpp. A `double` is a value of any type that has the operations which the
-- code uses. What goes to the terminal is left out.
pub mod Push
pub mod Rounds
pub mod Count
pub mod Preheat
pub mod Track
pub mod Latency
pub mod Measure
pub mod Report
pub mod Runs
pub mod Alternate
pub mod Reported
mod Tests
use fpga_network_processing.Base.{
  Bool, List, Option, false, if◌then◌else◌, length, ltb, none, not, some, suc, true, zero, ℕ, ◌%◌,
  ◌&&◌, ◌+◌, ◌-◌, ◌^◌,
}
use fpga_network_processing.Pipeline.{m_tvalid, m_beat}
use fpga_network_processing.Bench.Clock
use fpga_network_processing.Bench.FifoDriver.{chunk_size}
use fpga_network_processing.Generator.Build.{Packet, PacketGen, make_udp_packet, make_tcp_packet}
use fpga_network_processing.Bench.FifoTest.{smac, dmac}
use fpga_network_processing.FlowTable.{Past}
use fpga_network_processing.Pipeline.{Pipeline, s_tready}
use fpga_network_processing.Bench.PipelineDriver.{
  Ports, Bus, edge, with_chunk, quiet, to_drain, is_shown, ready_fuel,
}

pub record Sim : Type 0 where
  pub bus : Bus
  pub cycles : ℕ

-- `cycles++` and the difference of two counts, in 64 bits.
abbrev pub next : ℕ → ℕ
next c = (c + 1) % 2 ^ 64

abbrev pub minus : ℕ → ℕ → ℕ
minus a b = (a + (2 ^ 64 - b)) % 2 ^ 64

-- `pre(); post();`
unfoldable pub tick : Sim → Sim
unfolding edge
tick s = record { bus = Clock.tick edge s.bus; cycles = next s.cycles }

unfoldable pub ticks : ℕ → Sim → Sim
unfolding tick
ticks zero s = s
ticks (suc n) s = ticks n (tick s)

-- `pre()`, assignments to the ports, `post()`.
unfoldable pub drive : (Ports → Ports) → Sim → Sim
unfolding edge
drive assign s = record { bus = Clock.drive edge assign s.bus; cycles = next s.cycles }

abbrev pub with_reset : Bool → Sim → Sim
with_reset on s = record s { bus = record s.bus { ports = record s.bus.ports { rst_n = on } } }

unfoldable pub reset : ℕ → Sim → Sim
unfolding ticks
reset n s = tick (with_reset true (ticks n (with_reset false s)))

-- `while (!s_tready) { pre(); post(); }`, on fuel.
unfoldable pub wait_ready : ℕ → Sim → Option Sim
unfolding tick
wait_ready zero s = none
wait_ready (suc fuel) s = elim (s_tready s.bus.ports.m_tready s.bus.dut) [
  | true ↦ some s
  | false ↦ wait_ready fuel (tick s)
]

-- `while (pos < pkt.size())`, on fuel. What a loop does before the edge of a beat, `note`, differs.
module _ {Acc : Type 0} (note : Sim → Acc → Acc) where
  unfoldable pub push_from : ℕ → ℕ → List ℕ → ℕ → Sim → Acc → Option (Sim × Acc)
  unfolding drive wait_ready
  push_from zero dw pkt pos s acc = none
  push_from (suc fuel) dw pkt pos s acc = elim (ltb pos (length pkt)) [
    | false ↦ some (s, acc)
    | true ↦ elim (wait_ready ready_fuel (drive (with_chunk dw pkt pos) s)) [
      | none ↦ none
      | some s' ↦ push_from fuel dw pkt (pos + chunk_size dw pkt pos) s' (note s acc)
    ]
  ]

  -- A packet and the idle cycle behind it.
  unfoldable pub push_packet : List ℕ → ℕ → Sim → Acc → Option (Sim × Acc)
  push_packet pkt dw s acc = elim (push_from (suc (length pkt)) dw pkt 0 s acc) [
    | none ↦ none
    | some (s', acc') ↦ some (drive quiet s', acc')
  ]

-- A loop that reads to the end of a packet or to a cycle without a beat; `out` is for its rounds
-- used up.
module _ {R : Type 0} (done out : Sim → R) where
  unfoldable pub drain : ℕ → Sim → R
  unfolding tick
  drain zero s = out s
  drain (suc left) s = elim (is_shown s.bus) [
    | true ↦ elim (m_beat s.bus.dut).tlast [ true ↦ done (tick s) | false ↦ drain left (tick s) ]
    | false ↦ done (tick s)
  ]

-- `while (timeout--)`
abbrev pub timeout : ℕ
timeout = 10000

unfoldable pub drain_preheat : Sim → Sim
drain_preheat s = drain (λ t. t) (λ t. t) timeout s

-- `while (true)`, on fuel.
unfoldable pub drain_rest : ℕ → Sim → Option Sim
drain_rest fuel s = drain some (λ t. none) fuel s

-- The device holds eight beats.
abbrev pub drain_fuel : ℕ
drain_fuel = 9

-- The rounds of the first loop.
unfoldable pub preheat : ℕ → List ℕ → ℕ → Sim → Option Sim
unfolding push_packet drain_preheat
preheat zero pkt dw s = some s
preheat (suc left) pkt dw s = elim (push_packet (λ t u. u) pkt dw s tt) [
  | none ↦ none
  | some (s', u) ↦ preheat left pkt dw (drain_preheat s')
]

-- What the second loop keeps.
pub record Counts : Type 0 where
  pub packets : ℕ
  pub total_bytes : ℕ
  pub first_out : ℕ
  pub first_beat_seen : Bool

abbrev pub no_counts : Counts
no_counts = record { packets = 0; total_bytes = 0; first_out = 0; first_beat_seen = false }

-- "Track first output beat"
unfoldable pub track : ℕ → Sim → Counts → Counts
track start_push s r =
    if is_shown s.bus && not r.first_beat_seen
    then record r { first_out = minus s.cycles start_push; first_beat_seen = true }
    else r

abbrev pub count_packet : List ℕ → Counts → Counts
count_packet pkt r = record r {
  packets = (r.packets + 1) % 2 ^ 64;
  total_bytes = (r.total_bytes + length pkt) % 2 ^ 64;
}

-- The rounds of the second loop.
unfoldable pub push_each : ℕ → ℕ → List ℕ → ℕ → Sim → Counts → Option (Sim × Counts)
unfolding push_packet track
push_each start_push zero pkt dw s r = some (s, r)
push_each start_push (suc left) pkt dw s r = elim (push_packet (track start_push) pkt dw s r) [
  | none ↦ none
  | some (s', r') ↦ push_each start_push left pkt dw s' (count_packet pkt r')
]

-- The counts of a run.
pub record Cycles : Type 0 where
  pub counts : Counts
  pub push_cycles : ℕ
  pub drain_cycles : ℕ
  pub total_cycles : ℕ

-- `measure` up to "Compute metrics".
unfoldable pub measure_cycles : Sim → List ℕ → ℕ → ℕ → Option (Sim × Cycles)
unfolding preheat push_each drain_rest
measure_cycles sim pkt dw num_packets =
    elim (preheat 2 pkt dw (record sim { bus = to_drain sim.bus })) [
      | none ↦ none
      | some s ↦ elim (push_each s.cycles num_packets pkt dw s no_counts) [
        | none ↦ none
        | some (s', r) ↦ elim (drain_rest drain_fuel s') [
          | none ↦ none
          | some s'' ↦ some (
            s'',
            record {
              counts = r;
              push_cycles = minus s'.cycles s.cycles;
              drain_cycles = minus s''.cycles s'.cycles;
              total_cycles = minus (minus s''.cycles sim.cycles) 4;
            },
          )
        ]
      ]
    ]
