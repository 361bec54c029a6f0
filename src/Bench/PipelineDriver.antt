-- ===== src/Bench/PipelineDriver.antt =====
-- The drivers of sim/testbenches/tb_match_action.cpp, tb_flow.cpp, tb_stress.cpp, tb_random.cpp and
-- tb_pipeline.cpp, with the circuit of rtl/top/parser_pipeline.sv as the device under test. What a
-- driver does with a beat that it reads, `put`, differs: it appends the bytes to a vector, hands
-- them to the monitor, or drops them.
pub mod Wide
pub mod Edges
pub mod Push
pub mod Drain
pub mod Packet
pub mod Session
pub mod Deliver
mod Tests
use fpga_network_processing.Base.{
  Bool, List, Option, [], false, if◌then◌else◌, length, ltb, none, replicate, some, suc, true, zero,
  ℕ, ◌&&◌, ◌*◌, ◌++◌, ◌+◌, ◌==◌, ◌^◌, ◌∷◌,
}
use fpga_network_processing.Ipv4Parser.{Beat}
use fpga_network_processing.FlowTable.{Past}
use fpga_network_processing.Pipeline
use fpga_network_processing.Pipeline.{Pipeline, s_tready, m_tvalid, m_beat}
use fpga_network_processing.Pipeline.Sight.{words}
use fpga_network_processing.Bench.Clock.{Sim, pre, tick, ticks, drive}
use fpga_network_processing.Bench.FifoDriver.{AxisBeat, read_beat, beat_at, chunk_size}

-- The input ports, and what flow_table.sv reads past its vectors.
pub record Ports : Type 0 where
  pub rst_n : Bool
  pub s_beat : AxisBeat
  pub s_tvalid : Bool
  pub m_tready : Bool
  pub past : Past

abbrev pub Bus : Type 0
Bus = Sim Pipeline Ports

-- The number in a wide port.
unfoldable pub wide : List ℕ → ℕ
wide [] = 0
wide (w ∷ ws) = w + 2 ^ 32 * wide ws

abbrev pub pins : Ports → Pipeline.Inputs
pins q = record {
  axis = record {
    rst_n = q.rst_n;
    s_data = record { tdata = wide q.s_beat.tdata; tkeep = q.s_beat.tkeep; tlast = q.s_beat.tlast };
    s_tvalid = q.s_tvalid;
    m_tready = q.m_tready;
  };
  past = q.past;
}

unfoldable pub edge : Ports → Pipeline → Pipeline
edge q d = Pipeline.posedge (pins q) d

-- The ports that show a beat.
abbrev pub port_beat : Beat → AxisBeat
port_beat b = record { tdata = words 16 b.tdata; tkeep = b.tkeep; tlast = b.tlast }

-- `for (i = 0; i < cycles; i++) { pre(); post(); }` under reset, and one cycle out of it.
unfoldable pub reset : ℕ → Bus → Bus
unfolding edge
reset cycles s =
    let low = ticks edge cycles (record s { ports = record s.ports { rst_n = false } }) in
    tick edge (record low { ports = record low.ports { rst_n = true } })

abbrev pub with_chunk : ℕ → List ℕ → ℕ → Ports → Ports
with_chunk dw pkt pos q = record q { s_beat = beat_at dw pkt pos q.s_beat.tdata; s_tvalid = true }

abbrev pub quiet : Ports → Ports
quiet q = record q { s_tvalid = false }

abbrev pub to_drain : Bus → Bus
to_drain s = record s { ports = record s.ports { m_tready = true } }

-- `while (!s_tready) { pre(); post(); }`, on fuel.
unfoldable pub wait_ready : ℕ → Bus → Option Bus
unfolding edge
wait_ready zero s = none
wait_ready (suc fuel) s = elim (s_tready s.ports.m_tready s.dut) [
  | true ↦ some s
  | false ↦ wait_ready fuel (tick edge s)
]

-- Tests of `s_tready` that are enough while `m_tready` is set.
abbrev pub ready_fuel : ℕ
ready_fuel = 1

abbrev pub drain_timeout : ℕ
drain_timeout = 100000

-- A beat is there and wanted.
abbrev pub is_shown : Bus → Bool
is_shown s = m_tvalid s.dut && s.ports.m_tready

module _ {Acc : Type 0} (put : List ℕ → Bool → Acc → Acc) where
  abbrev pub put_beat : ℕ → Bus → Acc → Acc
  put_beat dw s acc = let b = read_beat dw (port_beat (m_beat s.dut)) in put b.0 b.1 acc

  unfoldable pub capture : ℕ → Bus → Acc → Acc
  capture dw s acc = if is_shown s then put_beat dw s acc else acc

  -- `while (pos < pkt.size())`, on fuel.
  unfoldable pub push_from : ℕ → ℕ → List ℕ → ℕ → Bus → Acc → Option (Bus × Acc)
  unfolding capture edge
  push_from zero dw pkt pos s acc = none
  push_from (suc fuel) dw pkt pos s acc =
      let acc' = capture dw (pre edge s) acc in
      elim (ltb pos (length pkt)) [
        | false ↦ some (s, acc)
        | true ↦ elim (wait_ready ready_fuel (drive edge (with_chunk dw pkt pos) s)) [
          | none ↦ none
          | some s' ↦ push_from fuel dw pkt (pos + chunk_size dw pkt pos) s' acc'
        ]
      ]

  -- `while (timeout--)`; the rounds left are the timeout.
  unfoldable pub drain_rounds : ℕ → ℕ → Bus → Acc → Bus × Acc
  unfolding edge
  drain_rounds zero dw s acc = (s, acc)
  drain_rounds (suc timeout) dw s acc =
      let low = pre edge s in
      let high = tick edge s in
      let acc' = put_beat dw low acc in
      elim (is_shown low) [
        | true ↦ elim (m_beat low.dut).tlast [
          | true ↦ (high, acc')
          | false ↦ drain_rounds timeout dw high acc'
        ]
        | false ↦ elim (m_tvalid high.dut) [
          | true ↦ drain_rounds timeout dw high acc
          | false ↦ (high, acc)
        ]
      ]

  unfoldable pub push_and_drain : Bus → Acc → List ℕ → ℕ → Option (Bus × Acc)
  unfolding edge capture
  push_and_drain s acc pkt dw = elim (push_from (suc (length pkt)) dw pkt 0 (to_drain s) acc) [
    | none ↦ none
    | some (s', acc') ↦
        some (drain_rounds drain_timeout dw (drive edge quiet s') (capture dw (pre edge s') acc'))
  ]

-- `Sim sim;`: Verilator starts the ports at 0; the registers may hold anything.
abbrev pub new_sim : Pipeline → Past → Bus
new_sim d past = record {
  dut = d;
  ports = record {
    rst_n = false;
    s_beat = record { tdata = replicate 16 0; tkeep = 0; tlast = false };
    s_tvalid = false;
    m_tready = false;
    past = past;
  };
  clk = false;
}

-- `rx.push_back` for each byte of a beat.
abbrev pub append_bytes : List ℕ → Bool → List ℕ → List ℕ
append_bytes bs last rx = rx ++ bs

-- `push_and_drain` of tb_match_action.cpp, `push_and_capture` of tb_stress.cpp, and the body of
-- `test_data_integrity` of tb_flow.cpp: the bytes that are read.
unfoldable pub push_and_capture : Bus → List ℕ → ℕ → Option (Bus × List ℕ)
push_and_capture s pkt dw = push_and_drain append_bytes s [] pkt dw

-- `rx.size() == pkt.size()`
abbrev pub same_size : List ℕ → List ℕ → Bool
same_size rx pkt = length rx == length pkt
