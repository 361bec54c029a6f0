-- ===== src/Bench/FifoDriver/Beats.antt =====
-- One round of the driver of tb_axis_fifo.cpp: a beat put into the FIFO, and one taken out.
use mathlib.Core.List.{map}
use mathlib.Core.Path.{subst}
use fpga_network_processing.Base.{
  Bool, Bool-cases, List, Option, [], ap, ap₂, arith, false, inl, inr, length, not, refl, some, suc,
  sym, true, ℕ, ◌++◌, ◌<◌, ◌==◌, ◌∙◌, ◌∷◌, ◌≡◌, ◌≤◌,
}
use fpga_network_processing.Fifo.{depth, ptr_diff, s_tready}
use fpga_network_processing.Fifo.Queue
use fpga_network_processing.Fifo.Refine.{contents, posedge_refines, ready_lem, length-window}
use fpga_network_processing.Fifo.Trace.{oldest_lem}
use fpga_network_processing.Monitor.Scoreboard.{PacketMon, push_beat}
use fpga_network_processing.Monitor.Verdict.{receive}
use fpga_network_processing.Bench.FifoDriver.Moves.{Moves, Moves-none, Moves-out}
use fpga_network_processing.Bench.FifoDriver.{
  AxisBeat, SimContext, read_beat, drain_one, make_room, room_fuel, beat_at, offer,
}
use fpga_network_processing.Bench.FifoDriver.Edges.{
  IsLive, pins, step_in, step_out, length-set_bytes, offered, wanted, offer_edge, drain_one_edge,
  IsLive-after_edge, held,
}

-- `offer` puts the beat in a FIFO that has room.
pub offer_lem :
    (pkt : List ℕ) (pos : ℕ) (s : SimContext)
    → IsLive s
    → s.m_tready ≡ false
    → length (contents s.dut) < depth
    → let t = offer 8 pkt pos s in
      IsLive t × (contents t.dut ≡ contents s.dut ++ beat_at 8 pkt pos s.s_beat.tdata ∷ [])
unfolding beat_at
offer_lem pkt pos s v kept room =
    subst
      (λ (t : SimContext).
        IsLive t × (contents t.dut ≡ contents s.dut ++ beat_at 8 pkt pos s.s_beat.tdata ∷ []))
      (sym (offer_edge pkt pos s))
      (
        IsLive-after_edge (offered pkt pos s) (record {
          valid = v.valid;
          on = v.on;
          lanes = length-set_bytes s.s_beat.tdata _ ∙ v.lanes;
        }),
        posedge_refines (pins (offered pkt pos s)) v.valid v.on
            ∙ step_in (pins (offered pkt pos s)) (contents s.dut) refl kept room,
      )

-- `drain_one` hands the oldest beat to the monitor.
pub drain_one_lem :
    (s : SimContext) (m : PacketMon) (b : AxisBeat) (q : List AxisBeat)
    → IsLive s
    → contents s.dut ≡ b ∷ q
    → let r = drain_one 8 s m in
      IsLive r.0 × (contents r.0.dut ≡ q) × (r.1 ≡ push_beat (read_beat 8 b).0 (read_beat 8 b).1 m)
drain_one_lem s m b q v e =
    let (there, data_is) = oldest_lem b q v.valid e in
    subst
      (λ (r : SimContext × PacketMon).
        IsLive r.0
        × (contents r.0.dut ≡ q)
        × (r.1 ≡ push_beat (read_beat 8 b).0 (read_beat 8 b).1 m))
      (sym (drain_one_edge s m there))
      (
        IsLive-after_edge (wanted s) (record { valid = v.valid; on = v.on; lanes = v.lanes }),
        posedge_refines (pins (wanted s)) v.valid v.on
            ∙ ap (Queue.step (pins (wanted s))) e
            ∙ step_out (pins (wanted s)) b q refl refl,
        ap (λ (x : AxisBeat). push_beat (read_beat 8 x).0 (read_beat 8 x).1 m) data_is,
      )

pub length-contents : (s : SimContext) → IsLive s → length (contents s.dut) ≤ depth
length-contents s v =
    omega (arith, v.valid.fits, length-window s.dut.ram s.dut.rd_ptr (ptr_diff s.dut))

not_full : (n : ℕ) → n < depth → not (n == depth) ≡ true
not_full n h = ground arith

not_full_lt : (n : ℕ) → n ≤ depth → not (n == depth) ≡ true → n < depth
not_full_lt n h e = ground arith

room_ready : (s : SimContext) → IsLive s → length (contents s.dut) < depth → s_tready s.dut ≡ true
room_ready s v h = ready_lem v.valid ∙ not_full (length (contents s.dut)) h

ready_room : (s : SimContext) → IsLive s → s_tready s.dut ≡ true → length (contents s.dut) < depth
ready_room s v h =
    not_full_lt (length (contents s.dut)) (length-contents s v) (sym (ready_lem v.valid) ∙ h)

abbrev room_case : ℕ → SimContext → PacketMon → Bool → Option (SimContext × PacketMon)
room_case n s m c = elim c [
  | true ↦ some (s, m)
  | false ↦ make_room n 8 (drain_one 8 s m).0 (drain_one 8 s m).1
]

ready_after :
    (n : ℕ) (s : SimContext) (m : PacketMon)
    → s_tready s.dut ≡ true
    → make_room (suc n) 8 s m ≡ some (s, m)
unfolding make_room
ready_after n s m h = ap (λ c. room_case n s m c) h

not_ready :
    (n : ℕ) (s : SimContext) (m : PacketMon)
    → s_tready s.dut ≡ false
    → make_room (suc n) 8 s m ≡ make_room n 8 (drain_one 8 s m).0 (drain_one 8 s m).1
unfolding make_room
not_ready n s m h = ap (λ c. room_case n s m c) h

-- One beat out of a full FIFO is enough.
pub make_room_lem :
    (q : List AxisBeat) (s : SimContext) (m : PacketMon)
    → IsLive s
    → contents s.dut ≡ q
    → (r : SimContext × PacketMon) × (make_room room_fuel 8 s m ≡ some r)
      × IsLive r.0
      × (length (contents r.0.dut) < depth)
      × Moves (held s) m (held r.0) r.1 []
unfolding receive
make_room_lem [] s m v e =
    let room : length (contents s.dut) < depth = omega (arith, ap length e) in
    ((s, m), ready_after 1 s m (room_ready s v room), v, room, Moves-none)
make_room_lem (b ∷ q) s m v e = elim (Bool-cases (s_tready s.dut)) [
  | inl h ↦ ((s, m), ready_after 1 s m h, v, ready_room s v h, Moves-none)
  | inr h ↦
      let r = drain_one 8 s m in
      let (v', e', m') = drain_one_lem s m b q v e in
      let room : length (contents r.0.dut) < depth =
        omega (arith, ap length e, ap length e', length-contents s v) in
      (
        r,
        not_ready 1 s m h ∙ ready_after 0 r.0 r.1 (room_ready r.0 v' room),
        v',
        room,
        subst
            (λ (k : List AxisBeat × List AxisBeat).
              Moves (map (read_beat 8) k.0) m (map (read_beat 8) k.1) r.1 [])
            (sym (ap₂ (λ x y. (x, y)) e e'))
            (Moves-out (read_beat 8 b) (map (read_beat 8) q) m r.1 m'),
      )
]
