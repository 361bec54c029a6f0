-- ===== src/Bench/SchedulerTest.antt =====
-- sim/testbenches/tb_scheduler.cpp, over packet_scheduler.sv with its default `SCHED_MODE`, 0. The
-- ports of the weights are never written. What goes to the terminal is left out.
pub mod Cases
pub mod Edges
pub mod Push
pub mod Fits
pub mod Drain
pub mod Start
pub mod Hangs
mod Tests
use fpga_network_processing.Base.{
  Bool, List, Option, [], false, get_or, length, ltb, none, replicate, set, some, suc, true, zero,
  ℕ, ◌%◌, ◌&&◌, ◌*◌, ◌++◌, ◌+◌, ◌/◌, ◌^◌,
}
use fpga_network_processing.Generator.Build.{Packet, PacketGen, make_udp_packet, make_tcp_packet}
use fpga_network_processing.Scheduler
use fpga_network_processing.Scheduler.{Scheduler, s_tready, m_tvalid, m_beat}
use fpga_network_processing.Bench.Clock.{Sim, pre, tick, ticks, drive}
use fpga_network_processing.Bench.FifoTest.{smac, dmac}
use fpga_network_processing.Bench.FifoDriver.{AxisBeat, chunk_size, beat_at, read_beat}

-- The input ports; `s_meta` is the array of 32-bit words of the port.
pub record Ports : Type 0 where
  pub rst_n : Bool
  pub s_beat : AxisBeat
  pub s_tvalid : Bool
  pub s_meta : List ℕ
  pub m_tready : Bool

abbrev pub Bus : Type 0
Bus = Sim (Scheduler AxisBeat) Ports

-- `s_meta.class_id`: the fields behind it in `packet_metadata_t` have 19 bits.
unfoldable pub class_of : List ℕ → ℕ
class_of meta = get_or meta 0 0 / 2 ^ 19 % 2 ^ 8

abbrev pub pins : Ports → Scheduler.Inputs AxisBeat
pins q = record {
  axis = record {
    rst_n = q.rst_n;
    s_data = q.s_beat;
    s_tvalid = q.s_tvalid;
    m_tready = q.m_tready;
  };
  class_id = class_of q.s_meta;
  wrr_weight = λ n. 0;
}

unfoldable pub edge : Ports → Scheduler AxisBeat → Scheduler AxisBeat
edge q d = Scheduler.posedge 0 (pins q) d

unfoldable pub reset : Bus → Bus
unfolding edge
reset s =
    let low = ticks edge 4 (record s { ports = record s.ports { rst_n = false } }) in
    tick edge (record low { ports = record low.ports { rst_n = true } })

-- The ports with a piece of a packet, and `s_meta.at(10) = class_id << 13`.
abbrev pub with_chunk : ℕ → List ℕ → ℕ → ℕ → Ports → Ports
with_chunk dw pkt class_id pos q = record q {
  s_beat = beat_at dw pkt pos q.s_beat.tdata;
  s_tvalid = true;
  s_meta = set q.s_meta 10 (class_id * 2 ^ 13 % 2 ^ 32);
}

abbrev pub quiet : Ports → Ports
quiet q = record q { s_tvalid = false }

abbrev pub with_tready : Bool → Bus → Bus
with_tready m s = record s { ports = record s.ports { m_tready = m } }

-- `while (!s_tready) { pre(); post(); }`, on fuel.
unfoldable pub wait_ready : ℕ → Bus → Option Bus
unfolding edge
wait_ready zero s = none
wait_ready (suc fuel) s = elim (s_tready (class_of s.ports.s_meta) s.dut) [
  | true ↦ some s
  | false ↦ wait_ready fuel (tick edge s)
]

-- `while (pos < pkt.size())`, on fuel; `wait` is the fuel of the loop inside.
unfoldable pub push_from : ℕ → ℕ → ℕ → List ℕ → ℕ → ℕ → Bus → Option Bus
unfolding edge
push_from wait zero dw pkt class_id pos s = none
push_from wait (suc fuel) dw pkt class_id pos s = elim (ltb pos (length pkt)) [
  | false ↦ some s
  | true ↦ elim (wait_ready wait (drive edge (with_chunk dw pkt class_id pos) s)) [
    | none ↦ none
    | some s' ↦ push_from wait fuel dw pkt class_id (pos + chunk_size dw pkt pos) s'
  ]
]

unfoldable pub push_packet : ℕ → Bus → List ℕ → ℕ → ℕ → Option Bus
unfolding edge
push_packet wait s pkt dw class_id =
    elim (push_from wait (suc (length pkt)) dw pkt class_id 0 (with_tready false s)) [
      | none ↦ none
      | some s' ↦ some (drive edge quiet s')
    ]

-- A beat is there and wanted.
abbrev pub is_shown : Bus → Bool
is_shown s = m_tvalid s.dut && s.ports.m_tready

-- `while (timeout--)` of `drain_one`, to the end of a packet.
unfoldable pub read_packet : ℕ → ℕ → Bus → List ℕ → Bus × List ℕ
unfolding edge
read_packet zero dw s out = (s, out)
read_packet (suc timeout) dw s out =
    let low = pre edge s in
    let high = tick edge s in
    let b = m_beat low.dut in
    let out' = out ++ (read_beat dw b).0 in
    elim (is_shown low) [
      | true ↦ elim b.tlast [ true ↦ (high, out') | false ↦ read_packet timeout dw high out' ]
      | false ↦ read_packet timeout dw high out
    ]

-- `while (timeout--)` of `drain_all`, to an empty output.
unfoldable pub read_all : ℕ → ℕ → Bus → List ℕ → Bus × List ℕ
unfolding edge
read_all zero dw s out = (s, out)
read_all (suc timeout) dw s out =
    let low = pre edge s in
    let high = tick edge s in
    let out' = out ++ (read_beat dw (m_beat low.dut)).0 in
    elim (is_shown low) [
      | true ↦ read_all timeout dw high out'
      | false ↦ elim (m_tvalid high.dut) [
        | true ↦ read_all timeout dw high out
        | false ↦ (high, out)
      ]
    ]

abbrev pub drain_timeout : ℕ
drain_timeout = 100000

unfoldable pub drain_one : Bus → ℕ → Bus × List ℕ
drain_one s dw = read_packet drain_timeout dw (with_tready true s) []

unfoldable pub drain_all : Bus → ℕ → List ℕ → Bus × List ℕ
drain_all s dw out = read_all drain_timeout dw (with_tready true s) out

-- `Sim sim; sim.reset();`: Verilator starts the ports at 0; the registers may hold anything.
abbrev pub new_sim : Scheduler AxisBeat → Bus
new_sim d = record {
  dut = d;
  ports = record {
    rst_n = false;
    s_beat = record { tdata = replicate 16 0; tkeep = 0; tlast = false };
    s_tvalid = false;
    s_meta = replicate 12 0;
    m_tready = false;
  };
  clk = false;
}

unfoldable pub start : Scheduler AxisBeat → Bus
start d = reset (new_sim d)
