-- ===== src/Scheduler.antt =====
-- rtl/schedulers/packet_scheduler.sv at its default `FIFO_DEPTH`, 16, for each `SCHED_MODE`. An entry
-- `{s_tlast, s_tkeep, s_tdata}` is a value of any type: the circuit only moves it. A queue is known
-- by its number, 0, 1 or 2; the functions of it mean nothing at another.

pub mod Order
pub mod Arbiter
pub mod Priority
mod Tests
use fpga_network_processing.Base.{
  Bool, if◌then◌else◌, leb, ltb, not, ℕ, ◌%◌, ◌&&◌, ◌+◌, ◌==◌, ◌^◌, ◌||◌,
}
use fpga_network_processing.Fifo
use fpga_network_processing.Fifo.{Fifo, full, empty, m_data}

pub record Scheduler (A : Type 0) : Type 0 where
  pub gen_fifos : ℕ → Fifo A
  pub arb_state : ℕ
  pub wrr_count : ℕ → ℕ

-- The inputs at an edge: of `s_meta` the circuit reads `class_id`.
pub record Inputs (A : Type 0) : Type 0 where
  pub axis : Fifo.Inputs A
  pub class_id : ℕ
  pub wrr_weight : ℕ → ℕ

abbrev pub q_high : ℕ
q_high = 0

abbrev pub q_med : ℕ
q_med = 1

abbrev pub q_low : ℕ
q_low = 2

unfoldable pub dest_queue : ℕ → ℕ
dest_queue class_id =
    if class_id == 0
    then q_low
    else if class_id == 1 || class_id == 2
    then q_med
    else if class_id == 3 || class_id == 4
    then q_high
    else q_med

module _ {A : Type 0} where
  unfoldable pub s_tready : ℕ → Scheduler A → Bool
  s_tready class_id s = not (full (s.gen_fifos (dest_queue class_id)))

  -- What the FIFO of queue `q` is given: `fifo_vin` and `fifo_rin`.
  unfoldable pub fifo_inputs : Inputs A → Scheduler A → ℕ → Fifo.Inputs A
  unfolding s_tready
  fifo_inputs i s q = record i.axis {
    s_tvalid = i.axis.s_tvalid && s_tready i.class_id s && dest_queue i.class_id == q;
    m_tready = s.arb_state == q && i.axis.m_tready;
  }

  unfoldable pub arb_ready : Scheduler A → ℕ → Bool
  arb_ready s q = not (empty (s.gen_fifos q))

  -- `arb_next` with `SCHED_MODE` 0.
  unfoldable pub strict_next : Scheduler A → ℕ
  unfolding arb_ready
  strict_next s =
      if arb_ready s 0
      then 0
      else if arb_ready s 1
      then 1
      else if arb_ready s 2
      then 2
      else s.arb_state

  -- The first of three queues that has data and a weight.
  unfoldable pub next_of : Inputs A → Scheduler A → ℕ → ℕ → ℕ → ℕ
  unfolding arb_ready
  next_of i s a b c =
      if arb_ready s a && not (i.wrr_weight a == 0)
      then a
      else if arb_ready s b && not (i.wrr_weight b == 0)
      then b
      else if arb_ready s c && not (i.wrr_weight c == 0)
      then c
      else s.arb_state

  -- `arb_next` with another `SCHED_MODE`.
  unfoldable pub wrr_next : Inputs A → Scheduler A → ℕ
  unfolding arb_ready next_of
  wrr_next i s =
      let st = s.arb_state in
      if arb_ready s st && ltb (s.wrr_count st) (i.wrr_weight st)
      then st
      else if st == 0
      then next_of i s 1 2 0
      else if st == 1
      then next_of i s 2 0 1
      else next_of i s 0 1 2

  unfoldable pub arb_next : ℕ → Inputs A → Scheduler A → ℕ
  unfolding strict_next wrr_next
  arb_next sched_mode i s = if sched_mode == 0 then strict_next s else wrr_next i s

  -- `wrr_count[q]` after an edge without reset.
  unfoldable pub next_count : ℕ → Inputs A → Scheduler A → ℕ → ℕ
  unfolding arb_ready
  next_count sched_mode i s q =
      if sched_mode == 1 && s.arb_state == q && (s.gen_fifos q).m_tvalid && i.axis.m_tready
      then if leb (i.wrr_weight q) (s.wrr_count q + 1) || not (arb_ready s q)
        then 0
        else (s.wrr_count q + 1) % 2 ^ 8
      else s.wrr_count q

  unfoldable pub posedge : ℕ → Inputs A → Scheduler A → Scheduler A
  unfolding fifo_inputs arb_next next_count
  posedge sched_mode i s = record {
    gen_fifos = λ q. Fifo.posedge (fifo_inputs i s q) (s.gen_fifos q);
    arb_state = if i.axis.rst_n then arb_next sched_mode i s else 0;
    wrr_count = λ q. if i.axis.rst_n then next_count sched_mode i s q else 0;
  }

  -- The outputs; the data mean nothing without `m_tvalid`.
  unfoldable pub m_tvalid : Scheduler A → Bool
  m_tvalid s = ltb s.arb_state 3 && (s.gen_fifos s.arb_state).m_tvalid

  unfoldable pub m_beat : Scheduler A → A
  m_beat s = m_data (s.gen_fifos s.arb_state)
