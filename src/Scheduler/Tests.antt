-- ===== src/Scheduler/Tests.antt =====
-- Runs of packet_scheduler.sv that can be followed by hand.
use fpga_network_processing.Base.{
  Bool, [], arith, false, if◌then◌else◌, not, refl, true, ℕ, ◌++◌, ◌+◌, ◌==◌, ◌∷◌, ◌≡◌,
}
use Prim.{tt}
use fpga_network_processing.Fifo
use fpga_network_processing.Fifo.{Fifo, empty, ptr_diff}
use fpga_network_processing.Fifo.Invariant.{IsValid}
use fpga_network_processing.Scheduler.{
  Scheduler, Inputs, arb_ready, posedge, arb_next, wrr_next, next_count, dest_queue, m_tvalid,
  m_beat,
}
use fpga_network_processing.Scheduler.Order.{queue, taken, left, after, queue_balance}
use fpga_network_processing.Scheduler.Priority.{circuit_run, run, queues_of, circuit_refines}
use fpga_network_processing.Scheduler.Arbiter.{IsSound, posedge-IsSound, wrr_starves}

-- A queue with entries `a`, `a + 1`, ...
abbrev filled : ℕ → ℕ → Fifo ℕ
filled a n = record { ram = λ k. a + k; wr_ptr = n; rd_ptr = 0; m_tvalid = not (n == 0) }

-- Two entries in the first queue and three in the last, which is served.
abbrev busy : Scheduler ℕ
busy = record {
  gen_fifos = λ q. if q == 0 then filled 100 2 else if q == 2 then filled 300 3 else filled 0 0;
  arb_state = 2;
  wrr_count = λ q. 0;
}

-- An entry of class 3, for the first queue.
abbrev offer : ℕ → Inputs ℕ
offer x = record {
  axis = record { rst_n = true; s_data = x; s_tvalid = true; m_tready = true };
  class_id = 3;
  wrr_weight = λ q. 2;
}

filled-IsValid : (a : ℕ) → IsValid (filled a 0) × IsValid (filled a 2) × IsValid (filled a 3)
unfolding ptr_diff
filled-IsValid a = (
  record { wr_in = omega arith; rd_in = omega arith; fits = omega arith; shown = refl },
  record { wr_in = omega arith; rd_in = omega arith; fits = omega arith; shown = refl },
  record { wr_in = omega arith; rd_in = omega arith; fits = omega arith; shown = refl },
)

busy-IsSound : IsSound busy
busy-IsSound = record { valid = λ q. of (q == 0) (q == 2); state_in = omega arith }
  where
    of : (c d : Bool) → IsValid (if c then filled 100 2 else if d then filled 300 3 else filled 0 0)
    of true d = (filled-IsValid 100).1
    of false true = (filled-IsValid 300).2
    of false false = (filled-IsValid 0).0

-- In strict mode one entry of the last queue leaves, then the first queue is served.
left_strict :
    (left 0 (offer 7 ∷ offer 8 ∷ offer 9 ∷ []) busy 2 ≡ 300 ∷ [])
    × (left 0 (offer 7 ∷ offer 8 ∷ offer 9 ∷ []) busy 0 ≡ 100 ∷ 101 ∷ [])
unfolding left posedge arb_next m_tvalid m_beat Fifo.posedge Fifo.m_data ptr_diff dest_queue
left_strict = (refl, refl)

queue_balance_example :
    queue busy 0 ++ taken 0 (offer 7 ∷ offer 8 ∷ []) busy 0
    ≡ left 0 (offer 7 ∷ offer 8 ∷ []) busy 0 ++ queue (after 0 (offer 7 ∷ offer 8 ∷ []) busy) 0
queue_balance_example =
    queue_balance 0 (offer 7 ∷ offer 8 ∷ []) busy 0 (omega arith) (busy-IsSound.valid 0)
      (refl, (refl, tt))

posedge-IsSound_example : IsSound (posedge 1 (offer 7) busy)
posedge-IsSound_example = posedge-IsSound 1 (offer 7) busy busy-IsSound

low_ready : arb_ready busy 2 ≡ true
unfolding arb_ready empty ptr_diff
low_ready = refl

still_ready : arb_ready (posedge 1 (offer 7) busy) 2 ≡ true
unfolding arb_ready empty ptr_diff posedge arb_next wrr_next next_count Fifo.posedge dest_queue
still_ready = refl

wrr_starves_example : left 1 (offer 7 ∷ offer 8 ∷ []) busy 0 ≡ []
wrr_starves_example =
    wrr_starves (λ q. 2) (offer 7 ∷ offer 8 ∷ []) busy 0 (omega arith) (omega arith)
      (refl, refl, low_ready, (refl, refl, still_ready, tt)) (λ e. absurd (omega (arith, e)))

circuit_refines_example :
    circuit_run (offer 7 ∷ offer 8 ∷ []) busy ≡ run (offer 7 ∷ offer 8 ∷ []) (queues_of busy)
circuit_refines_example =
    circuit_refines (offer 7 ∷ offer 8 ∷ []) busy (refl, (refl, tt)) busy-IsSound
