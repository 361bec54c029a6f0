-- ===== src/Bench/FifoDriver/Drain.antt =====
-- The rounds of `drain_all` of tb_axis_fifo.cpp.
use mathlib.Core.List.{map}
use mathlib.Core.Path.{subst}
use fpga_network_processing.Base.{
  Bool, List, [], ap, ap₂, arith, false, length, not, refl, suc, sym, true, zero, ℕ, ◌&&◌, ◌<◌, ◌∙◌,
  ◌∷◌, ◌≡◌,
}
use fpga_network_processing.Fifo.{empty, m_data}
use fpga_network_processing.Fifo.Queue
use fpga_network_processing.Fifo.Refine.{contents, posedge_refines}
use fpga_network_processing.Fifo.Trace.{oldest_lem, nothing_lem}
use fpga_network_processing.Monitor.Scoreboard.{PacketMon, push_beat}
use fpga_network_processing.Monitor.Verdict.{receive}
use fpga_network_processing.Bench.FifoDriver.{
  AxisBeat, SimContext, read_beat, eval_post, count_cycle, drain_rounds, drain_timeout, drain_all,
}
use fpga_network_processing.Bench.FifoDriver.Edges.{
  settled, IsLive, after_edge, pins, eval_pre_lem, IsLive-after_edge, step_out, step_none,
}
use fpga_network_processing.Bench.FifoDriver.Beats.{length-contents}

abbrev low : SimContext → SimContext
low s = record s { clk = false }

abbrev round_case : ℕ → SimContext → SimContext → PacketMon → Bool → Bool → SimContext × PacketMon
round_case timeout low high m c d = elim c [
  | true ↦
      drain_rounds timeout 8 high
        (push_beat (read_beat 8 (m_data low.dut)).0 (read_beat 8 (m_data low.dut)).1 m)
  | false ↦ elim d [ true ↦ (high, m) | false ↦ drain_rounds timeout 8 high m ]
]

-- A round, by what it tests.
round_lem :
    (timeout : ℕ) (s : SimContext) (m : PacketMon)
    → let high = after_edge (low s) in
      drain_rounds (suc timeout) 8 s m
      ≡ round_case timeout
          (low s)
          high
          m
          (s.dut.m_tvalid && s.m_tready)
          (empty high.dut && not high.dut.m_tvalid)
unfolding drain_rounds eval_post
round_lem timeout s m =
    ap
      (λ (l : SimContext).
        let high = count_cycle (eval_post l) in
        round_case timeout l high m (l.dut.m_tvalid && l.m_tready)
          (empty high.dut && not high.dut.m_tvalid))
      (eval_pre_lem s)

-- A driver that reads and offers nothing.
pub record IsDraining (s : SimContext) : Type 0 where
  pub live : IsLive s
  pub wanted : s.m_tready ≡ true
  pub quiet : s.s_tvalid ≡ false

IsDraining-after_edge : (s : SimContext) → IsDraining s → IsDraining (after_edge (low s))
IsDraining-after_edge s v = record {
  live =
      IsLive-after_edge (low s)
        (record { valid = v.live.valid; on = v.live.on; lanes = v.live.lanes });
  wanted = v.wanted;
  quiet = v.quiet;
}

round_beat :
    (timeout : ℕ) (s : SimContext) (m : PacketMon) (b : AxisBeat) (q : List AxisBeat)
    → IsDraining s
    → contents s.dut ≡ b ∷ q
    → drain_rounds (suc timeout) 8 s m
      ≡ drain_rounds timeout 8
          (after_edge (low s))
          (push_beat (read_beat 8 b).0 (read_beat 8 b).1 m)
round_beat timeout s m b q v e =
    let high = after_edge (low s) in
    let (there, data_is) = oldest_lem b q v.live.valid e in
    round_lem timeout s m
    ∙ ap (λ c. round_case timeout (low s) high m c (empty high.dut && not high.dut.m_tvalid))
        (ap₂ ◌&&◌ there v.wanted)
    ∙ ap
        (λ (x : AxisBeat).
          drain_rounds timeout 8 high (push_beat (read_beat 8 x).0 (read_beat 8 x).1 m))
        data_is

round_end :
    (timeout : ℕ) (s : SimContext) (m : PacketMon)
    → IsDraining s
    → contents s.dut ≡ []
    → contents (after_edge (low s)).dut ≡ []
    → drain_rounds (suc timeout) 8 s m ≡ (after_edge (low s), m)
round_end timeout s m v e e' =
    let high = after_edge (low s) in
    let (none_there, empty_now) = nothing_lem v.live.valid e in
    let (none_then, empty_then) = nothing_lem (IsDraining-after_edge s v).live.valid e' in
    round_lem timeout s m
    ∙ ap₂ (λ c d. round_case timeout (low s) high m (c && s.m_tready) d) none_there
        (ap₂ (λ c d. c && not d) empty_then none_then)

-- Enough rounds empty the FIFO, and the monitor gets every beat in order.
pub drain_rounds_lem :
    (timeout : ℕ) (q : List AxisBeat) (s : SimContext) (m : PacketMon)
    → IsDraining s
    → contents s.dut ≡ q
    → length q < timeout
    → let r = drain_rounds timeout 8 s m in
      IsDraining r.0 × (contents r.0.dut ≡ []) × (r.1 ≡ receive (map (read_beat 8) q) m)
unfolding receive
drain_rounds_lem zero q s m v e enough = absurd (omega arith)
drain_rounds_lem (suc timeout) [] s m v e enough =
    let e' : contents (after_edge (low s)).dut ≡ [] =
      posedge_refines (pins (low s)) v.live.valid v.live.on
      ∙ ap (Queue.step (pins (low s))) e
      ∙ step_none (pins (low s)) v.quiet in
    subst (λ (r : SimContext × PacketMon). IsDraining r.0 × (contents r.0.dut ≡ []) × (r.1 ≡ m))
      (sym (round_end timeout s m v e e')) (IsDraining-after_edge s v, e', refl)
drain_rounds_lem (suc timeout) (b ∷ q) s m v e enough =
    let m' = push_beat (read_beat 8 b).0 (read_beat 8 b).1 m in
    let e' : contents (after_edge (low s)).dut ≡ q =
      posedge_refines (pins (low s)) v.live.valid v.live.on
      ∙ ap (Queue.step (pins (low s))) e
      ∙ step_out (pins (low s)) b q v.quiet v.wanted in
    subst
      (λ (r : SimContext × PacketMon).
        IsDraining r.0 × (contents r.0.dut ≡ []) × (r.1 ≡ receive (map (read_beat 8) q) m'))
      (sym (round_beat timeout s m b q v e))
      (drain_rounds_lem timeout q (after_edge (low s)) m' (IsDraining-after_edge s v) e'
        (omega arith))

abbrev to_drain : SimContext → SimContext
to_drain s = record s { m_tready = true }

-- When nothing is offered, `drain_all` leaves the FIFO empty and the monitor with all that was in
-- it: 10000 rounds are enough for 16 beats.
pub drain_all_lem :
    (s : SimContext) (m : PacketMon)
    → IsLive s
    → s.s_tvalid ≡ false
    → let r = drain_all s m 8 in IsLive r.0 × (contents r.0.dut ≡ []) × (r.1 ≡ settled s m)
unfolding drain_all
drain_all_lem s m v quiet =
    let (v', e, got) =
      drain_rounds_lem drain_timeout (contents s.dut) (to_drain s) m
        (record {
          live = record { valid = v.valid; on = v.on; lanes = v.lanes };
          wanted = refl;
          quiet = quiet;
        })
        refl (omega (arith, length-contents s v)) in
    (v'.live, e, got)
