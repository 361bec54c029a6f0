-- ===== src/Bench/FifoDriver.antt =====
-- The driver of sim/testbenches/tb_axis_fifo.cpp: `SimContext`, `push_packet` and `drain_all`, with
-- the circuit of rtl/interfaces/axis_fifo.sv as the device under test. The outputs of that circuit
-- depend on its registers alone, so a port read after an evaluation is a function of them.
pub mod Moves
pub mod Edges
pub mod Beats
pub mod Chunks
pub mod Push
pub mod Drain
use fpga_network_processing.Base.{
  Bool, List, Option, drop, false, if◌then◌else◌, leb, length, ltb, min, none, not, some, suc, take,
  true, zero, ℕ, ◌%◌, ◌&&◌, ◌+◌, ◌-◌, ◌^◌,
}
use fpga_network_processing.Fifo.{Fifo, empty, s_tready, m_data, posedge}
use fpga_network_processing.Monitor.Scoreboard.{PacketMon, push_beat}
use fpga_network_processing.Bench.Words.{vlwide_set_bytes, vlwide_get_bytes, count_keep, keep_mask}

-- The data ports of a beat; `tdata` is the array of 32-bit words of the port.
pub record AxisBeat : Type 0 where
  pub tdata : List ℕ
  pub tkeep : ℕ
  pub tlast : Bool

-- The device, its input ports, the clock, and the count of cycles.
pub record SimContext : Type 0 where
  pub dut : Fifo AxisBeat
  pub rst_n : Bool
  pub s_beat : AxisBeat
  pub s_tvalid : Bool
  pub m_tready : Bool
  pub clk : Bool
  pub sim_cycles : ℕ

-- The registers move when the clock rises.
unfoldable pub set_clk : Bool → SimContext → SimContext
set_clk val s = record s {
  dut =
      if not s.clk && val
      then posedge
          (record {
            rst_n = s.rst_n;
            s_data = s.s_beat;
            s_tvalid = s.s_tvalid;
            m_tready = s.m_tready;
          })
          s.dut
      else s.dut;
  clk = val;
}

abbrev pub count_cycle : SimContext → SimContext
count_cycle s = record s { sim_cycles = (s.sim_cycles + 1) % 2 ^ 64 }

unfoldable pub eval_pre : SimContext → SimContext
unfolding set_clk
eval_pre s = set_clk false s

unfoldable pub eval_post : SimContext → SimContext
unfolding set_clk
eval_post s = count_cycle (set_clk true s)

unfoldable pub ticks : ℕ → SimContext → SimContext
unfolding eval_pre eval_post
ticks zero s = s
ticks (suc n) s = ticks n (eval_post (eval_pre s))

unfoldable pub reset : ℕ → SimContext → SimContext
unfolding ticks
reset cycles s =
    let low = ticks cycles (record s { rst_n = false }) in ticks 1 (record low { rst_n = true })

-- The beat at the output, as bytes.
unfoldable pub read_beat : ℕ → AxisBeat → List ℕ × Bool
read_beat dw b = (vlwide_get_bytes b.tdata (count_keep dw 0 b.tkeep 0), b.tlast)

-- One round of `while (!s_tready)`: take a beat out of the full FIFO.
unfoldable pub drain_one : ℕ → SimContext → PacketMon → SimContext × PacketMon
unfolding eval_pre eval_post
drain_one dw s m =
    let low = record (eval_pre s) { s_tvalid = false } in
    let wanted = count_cycle (eval_post (record low { m_tready = true })) in
    if low.dut.m_tvalid
    then (wanted, push_beat (read_beat dw (m_data low.dut)).0 (read_beat dw (m_data low.dut)).1 m)
    else (wanted, m)

-- `while (!s_tready)`, on fuel; `none` means that the fuel ran out.
unfoldable pub make_room : ℕ → ℕ → SimContext → PacketMon → Option (SimContext × PacketMon)
make_room zero dw s m = none
make_room (suc fuel) dw s m = elim (s_tready s.dut) [
  | true ↦ some (s, m)
  | false ↦ make_room fuel dw (drain_one dw s m).0 (drain_one dw s m).1
]

abbrev pub chunk_size : ℕ → List ℕ → ℕ → ℕ
chunk_size dw pkt pos = min dw (length pkt - pos)

-- The beat of a packet at `pos`, over the words that the port holds.
unfoldable pub beat_at : ℕ → List ℕ → ℕ → List ℕ → AxisBeat
beat_at dw pkt pos words =
    let nb = chunk_size dw pkt pos in
    record {
      tdata = vlwide_set_bytes words (take nb (drop pos pkt));
      tkeep = keep_mask nb;
      tlast = leb (length pkt) (pos + nb);
    }

unfoldable pub offer : ℕ → List ℕ → ℕ → SimContext → SimContext
unfolding eval_pre eval_post
offer dw pkt pos s =
    let low = eval_pre s in
    count_cycle
      (eval_post (record low { s_beat = beat_at dw pkt pos low.s_beat.tdata; s_tvalid = true }))

-- Rounds of `while (!s_tready)` that are enough: one, and the last test.
abbrev pub room_fuel : ℕ
room_fuel = 2

-- `while (pos < pkt.size())`, on fuel.
unfoldable pub push_from :
    ℕ → ℕ → List ℕ → ℕ → SimContext → PacketMon → Option (SimContext × PacketMon)
push_from zero dw pkt pos s m = none
push_from (suc fuel) dw pkt pos s m = elim (ltb pos (length pkt)) [
  | false ↦ some (s, m)
  | true ↦ elim (make_room room_fuel dw (offer dw pkt pos s) m) [
    | none ↦ none
    | some (s', m') ↦
        push_from fuel dw pkt (pos + chunk_size dw pkt pos) (record s' { m_tready = false }) m'
  ]
]

unfoldable pub push_packet : SimContext → PacketMon → List ℕ → ℕ → Option (SimContext × PacketMon)
unfolding eval_pre eval_post
push_packet s m pkt dw = elim (push_from (suc (length pkt)) dw pkt 0 s m) [
  | none ↦ none
  | some (s', m') ↦
      some
        (count_cycle (eval_post (record (eval_pre s') { s_tvalid = false; m_tready = false })), m')
]

-- `while (timeout-- > 0)`; the rounds left are the timeout.
unfoldable pub drain_rounds : ℕ → ℕ → SimContext → PacketMon → SimContext × PacketMon
unfolding eval_pre eval_post
drain_rounds zero dw s m = (s, m)
drain_rounds (suc timeout) dw s m =
    let low = eval_pre s in
    let high = count_cycle (eval_post low) in
    elim (low.dut.m_tvalid && low.m_tready) [
      | true ↦
          drain_rounds timeout dw high
            (push_beat (read_beat dw (m_data low.dut)).0 (read_beat dw (m_data low.dut)).1 m)
      | false ↦ elim (empty high.dut && not high.dut.m_tvalid) [
        | true ↦ (high, m)
        | false ↦ drain_rounds timeout dw high m
      ]
    ]

abbrev pub drain_timeout : ℕ
drain_timeout = 10000

unfoldable pub drain_all : SimContext → PacketMon → ℕ → SimContext × PacketMon
drain_all s m dw = drain_rounds drain_timeout dw (record s { m_tready = true }) m
