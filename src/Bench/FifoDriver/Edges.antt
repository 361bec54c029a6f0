-- ===== src/Bench/FifoDriver/Edges.antt =====
-- The clock edges of the driver of tb_axis_fifo.cpp, and what each does to the queue in the FIFO.
use mathlib.Core.List.{map}
use fpga_network_processing.Base.{
  Bool, List, [], ap, append-nil, arith, drop, false, if◌then◌else◌, length, refl, suc, true, ℕ,
  ◌++◌, ◌<◌, ◌∙◌, ◌∷◌, ◌≡◌,
}
use fpga_network_processing.Fifo.{Inputs, depth, m_data, posedge}
use fpga_network_processing.Fifo.Queue
use fpga_network_processing.Fifo.Invariant.{IsValid, posedge-IsValid}
use fpga_network_processing.Fifo.Refine.{contents}
use fpga_network_processing.Monitor.Scoreboard.{PacketMon, push_beat}
use fpga_network_processing.Monitor.Verdict.{Beat, receive}
use fpga_network_processing.Bench.Words.{vlwide_set_bytes}
use fpga_network_processing.Bench.FifoDriver.{
  AxisBeat, SimContext, eval_pre, eval_post, read_beat, drain_one, beat_at, offer, count_cycle,
}

-- The beats in the FIFO, oldest first, as bytes.
abbrev pub held : SimContext → List Beat
held s = map (read_beat 8) (contents s.dut)

-- What the monitor will have received when the FIFO has been emptied into it.
abbrev pub settled : SimContext → PacketMon → PacketMon
settled s m = receive (held s) m

-- A running device, whose data port has its 16 words.
pub record IsLive (s : SimContext) : Type 0 where
  pub valid : IsValid s.dut
  pub on : s.rst_n ≡ true
  pub lanes : length s.s_beat.tdata ≡ 16

-- The inputs that an edge sees.
abbrev pub pins : SimContext → Inputs AxisBeat
pins s = record { rst_n = s.rst_n; s_data = s.s_beat; s_tvalid = s.s_tvalid; m_tready = s.m_tready }

pub eval_pre_lem : (s : SimContext) → eval_pre s ≡ record s { clk = false }
unfolding eval_pre
eval_pre_lem s = ground arith

-- What an edge does to the contents when nothing is wanted, and when nothing is offered.
pub step_in :
    (i : Inputs AxisBeat) (q : List AxisBeat)
    → i.s_tvalid ≡ true
    → i.m_tready ≡ false
    → length q < depth
    → Queue.step i q ≡ q ++ i.s_data ∷ []
unfolding Queue.step Queue.takes
step_in i [] offered kept small = ground arith
step_in i (b ∷ q) offered kept small = ground arith

pub step_out :
    (i : Inputs AxisBeat) (b : AxisBeat) (q : List AxisBeat)
    → i.s_tvalid ≡ false
    → i.m_tready ≡ true
    → Queue.step i (b ∷ q) ≡ q
unfolding Queue.step Queue.takes
step_out i b q kept wanted = ground (arith, append-nil q)

pub step_none : (i : Inputs AxisBeat) → i.s_tvalid ≡ false → Queue.step i [] ≡ []
unfolding Queue.step Queue.takes
step_none i kept = ground arith

pub length-set_bytes : (dst src : List ℕ) → length (vlwide_set_bytes dst src) ≡ length dst
unfolding vlwide_set_bytes
length-set_bytes [] src = refl
length-set_bytes (d ∷ dst) [] = refl
length-set_bytes (d ∷ dst) (b ∷ src) = ap suc (length-set_bytes dst (drop 3 src))

-- The edge of `offer`, and that of `drain_one`.
abbrev pub offered : List ℕ → ℕ → SimContext → SimContext
offered pkt pos s = record s {
  s_beat = beat_at 8 pkt pos s.s_beat.tdata;
  s_tvalid = true;
  clk = false;
}

abbrev pub wanted : SimContext → SimContext
wanted s = record s { s_tvalid = false; m_tready = true; clk = false }

abbrev pub after_edge : SimContext → SimContext
after_edge s = count_cycle (count_cycle (record s { dut = posedge (pins s) s.dut; clk = true }))

pub offer_edge :
    (pkt : List ℕ) (pos : ℕ) (s : SimContext) → offer 8 pkt pos s ≡ after_edge (offered pkt pos s)
unfolding offer eval_post
offer_edge pkt pos s =
    ap
      (λ (low : SimContext).
        count_cycle
          (eval_post (record low { s_beat = beat_at 8 pkt pos low.s_beat.tdata; s_tvalid = true })))
      (eval_pre_lem s)

pub drain_one_edge :
    (s : SimContext) (m : PacketMon)
    → s.dut.m_tvalid ≡ true
    → drain_one 8 s m ≡ (
      after_edge (wanted s),
      push_beat (read_beat 8 (m_data s.dut)).0 (read_beat 8 (m_data s.dut)).1 m,
    )
unfolding drain_one eval_post
drain_one_edge s m h =
    ap
      (λ (low : SimContext).
        let out = count_cycle (eval_post (record low { s_tvalid = false; m_tready = true })) in
        if low.dut.m_tvalid
        then (out, push_beat (read_beat 8 (m_data low.dut)).0 (read_beat 8 (m_data low.dut)).1 m)
        else (out, m))
      (eval_pre_lem s)
    ∙ ap
        (λ (c : Bool).
          if c
          then (
            after_edge (wanted s),
            push_beat (read_beat 8 (m_data s.dut)).0 (read_beat 8 (m_data s.dut)).1 m,
          )
          else (after_edge (wanted s), m))
        h

pub IsLive-after_edge : (s : SimContext) → IsLive s → IsLive (after_edge s)
IsLive-after_edge s v = record {
  valid = posedge-IsValid (pins s) v.valid;
  on = v.on;
  lanes = v.lanes;
}
