-- ===== src/Scheduler/Priority.antt =====
-- What packet_scheduler.sv promises in strict mode: three queues of at most 16 entries, of which one
-- is served, at each edge anew: the first that is not empty, or the same as before.
use fpga_network_processing.Base.{
  Bool, List, [], ap, ap₂, arith, if◌then◌else◌, length, lt→ltb, none, not, refl, some, true, ℕ,
  ◌&&◌, ◌==◌, ◌∙◌, ◌∷◌, ◌≡◌,
}
use fpga_network_processing.Fifo
use fpga_network_processing.Fifo.{Fifo, depth, empty}
use fpga_network_processing.Fifo.Queue
use fpga_network_processing.Fifo.Queue.{View}
use fpga_network_processing.Fifo.Refine.{posedge_refines}
use fpga_network_processing.Fifo.Trace
use fpga_network_processing.Fifo.Trace.{view_refines, flags_lem}
use fpga_network_processing.Scheduler.{
  Scheduler, Inputs, dest_queue, s_tready, fifo_inputs, arb_ready, strict_next, arb_next, posedge,
  m_tvalid, m_beat,
}
use fpga_network_processing.Scheduler.Order.{AllOn, queue}
use fpga_network_processing.Scheduler.Arbiter.{first, IsSound, posedge-IsSound}

pub record Queues (A : Type 0) : Type 0 where
  pub queues : ℕ → List A
  pub served : ℕ

module _ {A : Type 0} where
  abbrev pub has_room : Inputs A → Queues A → Bool
  has_room i v = not (length (v.queues (dest_queue i.class_id)) == depth)

  -- What queue `q` is given.
  abbrev pub given : Inputs A → Queues A → ℕ → Fifo.Inputs A
  given i v q = record i.axis {
    s_tvalid = i.axis.s_tvalid && has_room i v && dest_queue i.class_id == q;
    m_tready = v.served == q && i.axis.m_tready;
  }

  unfoldable pub step : Inputs A → Queues A → Queues A
  step i v = record {
    queues = λ q. Queue.step (given i v q) (v.queues q);
    served = first (λ q. Queue.shows (v.queues q)) v.served;
  }

  abbrev pub view : Inputs A → Queues A → View A
  view i v = record { ready = has_room i v; shown = Queue.head? (v.queues v.served) }

  unfoldable pub run : List (Inputs A) → Queues A → List (View A)
  run [] v = []
  run (i ∷ is) v = view i v ∷ run is (step i v)

  -- The circuit as its neighbours see it before each edge.
  abbrev pub circuit_view : Inputs A → Scheduler A → View A
  circuit_view i s = record {
    ready = s_tready i.class_id s;
    shown = if m_tvalid s then some (m_beat s) else none;
  }

  unfoldable pub circuit_run : List (Inputs A) → Scheduler A → List (View A)
  circuit_run [] s = []
  circuit_run (i ∷ is) s = circuit_view i s ∷ circuit_run is (posedge 0 i s)

  abbrev pub queues_of : Scheduler A → Queues A
  queues_of s = record { queues = queue s; served = s.arb_state }

  room_lem :
      (i : Inputs A) (s : Scheduler A)
      → IsSound s
      → s_tready i.class_id s ≡ has_room i (queues_of s)
  unfolding s_tready
  room_lem i s v = ap not (flags_lem (v.valid (dest_queue i.class_id))).3

  given_lem :
      (i : Inputs A) (s : Scheduler A) (q : ℕ)
      → IsSound s
      → fifo_inputs i s q ≡ given i (queues_of s) q
  unfolding fifo_inputs
  given_lem i s q v =
      ap
        (λ c. record i.axis {
          s_tvalid = i.axis.s_tvalid && c && dest_queue i.class_id == q;
          m_tready = s.arb_state == q && i.axis.m_tready;
        })
        (room_lem i s v)

  ready_shows : (s : Scheduler A) (q : ℕ) → IsSound s → arb_ready s q ≡ Queue.shows (queue s q)
  unfolding arb_ready
  ready_shows s q v = ap not (flags_lem (v.valid q)).2 ∙ by_queue (queue s q)
    where
      by_queue : (l : List A) → not (length l == 0) ≡ Queue.shows l
      by_queue [] = refl
      by_queue (x ∷ l) = ground arith

  step_refines :
      (i : Inputs A) (s : Scheduler A)
      → IsSound s
      → i.axis.rst_n ≡ true
      → queues_of (posedge 0 i s) ≡ step i (queues_of s)
  unfolding step posedge arb_next strict_next fifo_inputs
  step_refines i s v on =
      let held : (q : ℕ)
          → queue (posedge 0 i s) q ≡ Queue.step (given i (queues_of s) q) (queue s q) =
        λ q.
          posedge_refines (fifo_inputs i s q) (v.valid q) on
          ∙ ap (λ x. Queue.step x (queue s q)) (given_lem i s q v) in
      let next : (posedge 0 i s).arb_state ≡ first (λ q. Queue.shows (queue s q)) s.arb_state =
        ap (λ (c : Bool). if c then first (arb_ready s) s.arb_state else 0) on
        ∙ (λ j. first (λ q. ready_shows s q v j) s.arb_state) in
      λ j. record { queues = λ q. held q j; served = next j }

  view_lem : (i : Inputs A) (s : Scheduler A) → IsSound s → circuit_view i s ≡ view i (queues_of s)
  unfolding m_tvalid m_beat Trace.view
  view_lem i s v =
      let shown = ap (λ (w : View A). w.shown) (view_refines (v.valid s.arb_state)) in
      ap₂ (λ r o. record { ready = r; shown = o }) (room_lem i s v)
        (ap
            (λ (c : Bool).
              if c && (s.gen_fifos s.arb_state).m_tvalid then some (m_beat s) else none)
            (lt→ltb s.arb_state 3 v.state_in)
          ∙ shown)

  -- In strict mode, from valid queues of which one of the three is served, and with no reset, what
  -- the neighbours see of the scheduler before every edge, whether there is room for the entry
  -- offered and the entry shown, is what they see of three queues of at most 16 entries, of which
  -- at each edge the first that is not empty, or else the same as before, becomes the one served.
  pub circuit_refines :
      (is : List (Inputs A)) (s : Scheduler A)
      → AllOn is
      → IsSound s
      → circuit_run is s ≡ run is (queues_of s)
  unfolding circuit_run run
  circuit_refines [] s on v = refl
  circuit_refines (i ∷ is) s on v = ap₂ ◌∷◌ (view_lem i s v) (
      circuit_refines is (posedge 0 i s) on.1 (posedge-IsSound 0 i s v)
      ∙ ap (run is) (step_refines i s v on.0))
