-- ===== src/Bench/SchedulerTest/Edges.antt =====
-- The clock edges of the driver of tb_scheduler.cpp. Its write to word 10 of `s_meta` does not reach
-- `class_id`, which word 0 holds, so all goes to the queue of the lowest priority.
use fpga_network_processing.Base.{
  List, [], ap, append-nil, arith, false, length, ltb, not, refl, true, ℕ, ◌&&◌, ◌++◌, ◌<◌, ◌==◌,
  ◌∙◌, ◌∷◌, ◌≡◌,
}
use fpga_network_processing.Fifo
use fpga_network_processing.Fifo.{Fifo, depth, full, empty, m_data}
use fpga_network_processing.Fifo.Queue
use fpga_network_processing.Fifo.Refine.{posedge_refines}
use fpga_network_processing.Fifo.Trace.{flags_lem, nothing_lem, oldest_lem}
use fpga_network_processing.Scheduler
use fpga_network_processing.Scheduler.{
  Scheduler, dest_queue, s_tready, fifo_inputs, strict_next, arb_next, arb_ready, m_tvalid, m_beat,
}
use fpga_network_processing.Scheduler.Order.{queue}
use fpga_network_processing.Scheduler.Arbiter.{IsSound, posedge-IsSound}
use fpga_network_processing.Bench.FifoDriver.{AxisBeat}
use fpga_network_processing.Bench.FifoDriver.Edges.{step_in, step_out, step_none}
use fpga_network_processing.Bench.SchedulerTest.{Ports, class_of, pins, edge}

-- Ports in use: `class_id` is 0.
pub record IsDriven (q : Ports) : Type 0 where
  pub on : q.rst_n ≡ true
  pub class_0 : class_of q.s_meta ≡ 0

-- A device with beats in the low queue alone.
pub record IsLow (d : Scheduler AxisBeat) : Type 0 where
  pub sound : IsSound d
  pub no_high : queue d 0 ≡ []
  pub no_med : queue d 1 ≡ []

abbrev pub low : Scheduler AxisBeat → List AxisBeat
low d = queue d 2

still :
    (i : Fifo.Inputs AxisBeat) (l : List AxisBeat)
    → i.m_tready ≡ false
    → Queue.takes i l ≡ false
    → Queue.step i l ≡ l
unfolding Queue.step
still i [] h k = ground arith
still i (b ∷ l) h k = ground (arith, append-nil (b ∷ l))

-- What a device with beats in the low queue shows, when that queue is served.
pub shows_low :
    (d : Scheduler AxisBeat) (b : AxisBeat) (l : List AxisBeat)
    → IsLow d
    → d.arb_state ≡ 2
    → low d ≡ b ∷ l
    → (m_tvalid d ≡ true) × (m_beat d ≡ b)
unfolding m_tvalid m_beat
shows_low d b l v st e =
    let (there, data_is) = oldest_lem b l (v.sound.valid 2) e in
    (
      ap (λ n. ltb n 3 && (d.gen_fifos n).m_tvalid) st ∙ there,
      ap (λ n. m_data (d.gen_fifos n)) st ∙ data_is,
    )

module _ (q : Ports) (v : IsDriven q) (d : Scheduler AxisBeat) where
  -- Where a beat goes.
  to_low : dest_queue (class_of q.s_meta) ≡ 2
  unfolding dest_queue
  to_low = ap dest_queue v.class_0

  queue-edge :
      IsSound d → (n : ℕ) → queue (edge q d) n ≡ Queue.step (fifo_inputs (pins q) d n) (queue d n)
  unfolding edge Scheduler.posedge fifo_inputs
  queue-edge s n = posedge_refines (fifo_inputs (pins q) d n) (s.valid n) v.on

  other_idle : (n : ℕ) → (2 == n) ≡ false → (fifo_inputs (pins q) d n).s_tvalid ≡ false
  unfolding fifo_inputs
  other_idle n h = ground (arith, to_low)

  stays_empty : IsSound d → (n : ℕ) → (2 == n) ≡ false → queue d n ≡ [] → queue (edge q d) n ≡ []
  stays_empty s n h e =
      queue-edge s n
      ∙ ap (Queue.step (fifo_inputs (pins q) d n)) e
      ∙ step_none (fifo_inputs (pins q) d n) (other_idle n h)

  pub IsLow-edge : IsLow d → IsLow (edge q d)
  unfolding edge
  IsLow-edge l = record {
    sound = posedge-IsSound 0 (pins q) d l.sound;
    no_high = stays_empty l.sound 0 refl l.no_high;
    no_med = stays_empty l.sound 1 refl l.no_med;
  }

  -- Is there room?
  pub ready_lem : IsLow d → s_tready (class_of q.s_meta) d ≡ not (length (low d) == depth)
  unfolding s_tready
  ready_lem l = ap (λ n. not (full (d.gen_fifos n))) to_low ∙ ap not (flags_lem (l.sound.valid 2)).3

  -- An edge that puts a beat in.
  pub in_edge :
      IsLow d
      → q.s_tvalid ≡ true
      → q.m_tready ≡ false
      → length (low d) < depth
      → low (edge q d) ≡ low d ++ q.s_beat ∷ []
  unfolding fifo_inputs
  in_edge l there kept room =
      let ready : s_tready (class_of q.s_meta) d ≡ true = ready_lem l ∙ ground arith in
      let offered : (fifo_inputs (pins q) d 2).s_tvalid ≡ true = ground (arith, to_low) in
      let unread : (fifo_inputs (pins q) d 2).m_tready ≡ false = ground arith in
      queue-edge l.sound 2 ∙ step_in (fifo_inputs (pins q) d 2) (low d) offered unread room

  -- An edge at which the output is not wanted and nothing is offered or there is no room.
  pub still_edge :
      IsLow d
      → q.m_tready ≡ false
      → (q.s_tvalid && not (length (low d) == depth)) ≡ false
      → low (edge q d) ≡ low d
  unfolding fifo_inputs
  still_edge l kept h =
      let unread : (fifo_inputs (pins q) d 2).m_tready ≡ false = ground arith in
      let refused : Queue.takes (fifo_inputs (pins q) d 2) (low d) ≡ false =
        unfold Queue.takes in ground arith in
      queue-edge l.sound 2 ∙ still (fifo_inputs (pins q) d 2) (low d) unread refused

  -- An edge that takes the first beat out.
  pub out_edge :
      (b : AxisBeat) (l : List AxisBeat)
      → IsLow d
      → q.s_tvalid ≡ false
      → q.m_tready ≡ true
      → d.arb_state ≡ 2
      → low d ≡ b ∷ l
      → low (edge q d) ≡ l
  unfolding fifo_inputs
  out_edge b l v kept wanted st e =
      let idle : (fifo_inputs (pins q) d 2).s_tvalid ≡ false = ground arith in
      let read : (fifo_inputs (pins q) d 2).m_tready ≡ true = ground arith in
      queue-edge v.sound 2
      ∙ ap (Queue.step (fifo_inputs (pins q) d 2)) e
      ∙ step_out (fifo_inputs (pins q) d 2) b l idle read

  -- The low queue is served after an edge at which it has beats.
  pub serves_low :
      (b : AxisBeat) (l : List AxisBeat) → IsLow d → low d ≡ b ∷ l → (edge q d).arb_state ≡ 2
  unfolding edge Scheduler.posedge arb_next strict_next arb_ready
  serves_low b l low_d e =
      let none0 = (nothing_lem (low_d.sound.valid 0) low_d.no_high).1 in
      let none1 = (nothing_lem (low_d.sound.valid 1) low_d.no_med).1 in
      let some2 = (flags_lem (low_d.sound.valid 2)).2 ∙ ap (λ k. length k == 0) e in
      ground (arith, v.on, none0, none1, some2)
