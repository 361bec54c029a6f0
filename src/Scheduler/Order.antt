-- ===== src/Scheduler/Order.antt =====
-- The entries that go through each queue of packet_scheduler.sv.
use fpga_network_processing.Base.{
  ==_iff, Bool, Bool-cases, List, [], ap, append-nil, append_assoc, arith, if◌then◌else◌, inl, inr,
  ltb, lt→ltb, not, sym, true, ℕ, ◌&&◌, ◌++◌, ◌<◌, ◌==◌, ◌∙◌, ◌∷◌, ◌≡◌,
}
use fpga_network_processing.Fifo
use fpga_network_processing.Fifo.{Fifo, full, m_data, wren, rden}
use fpga_network_processing.Fifo.Invariant.{IsValid, posedge-IsValid}
use fpga_network_processing.Fifo.Refine.{contents}
use fpga_network_processing.Fifo.Trace.{step_balance}
use fpga_network_processing.Scheduler.{
  Scheduler, Inputs, dest_queue, s_tready, fifo_inputs, posedge, m_tvalid, m_beat,
}

module _ {A : Type 0} where
  -- What an edge puts in queue `q`, and what it takes out of it.
  abbrev pub enters : Inputs A → Scheduler A → ℕ → Bool
  enters i s q = i.axis.s_tvalid && s_tready i.class_id s && dest_queue i.class_id == q

  abbrev pub exits : Inputs A → Scheduler A → ℕ → Bool
  exits i s q = m_tvalid s && i.axis.m_tready && s.arb_state == q

  abbrev pub moves : Bool → A → List A
  moves c x = if c then x ∷ [] else []

  abbrev pub queue : Scheduler A → ℕ → List A
  queue s q = contents (s.gen_fifos q)

  wren_lem :
      (i : Inputs A) (s : Scheduler A) (q : ℕ)
      → wren (fifo_inputs i s q) (s.gen_fifos q) ≡ enters i s q
  unfolding wren fifo_inputs s_tready Fifo.s_tready
  wren_lem i s q =
      let dest = dest_queue i.class_id in
      elim (Bool-cases (dest == q)) [
        | inl h ↦
            let e : dest ≡ q = (==_iff dest q).0 h in
            let f = full (s.gen_fifos q) in
            ap (λ n. (i.axis.s_tvalid && not (full (s.gen_fifos n)) && dest == q) && not f) e
            ∙ same i.axis.s_tvalid (not f) (dest == q)
            ∙ ap (λ n. i.axis.s_tvalid && not (full (s.gen_fifos n)) && dest == q) (sym e)
        | inr h ↦ ground arith
      ]
    where
      same : (a b c : Bool) → ((a && b && c) && b) ≡ (a && b && c)
      same a b c = ground arith

  rden_lem :
      (i : Inputs A) (s : Scheduler A) (q : ℕ)
      → q < 3
      → moves (rden (fifo_inputs i s q) (s.gen_fifos q)) (m_data (s.gen_fifos q))
        ≡ moves (exits i s q) (m_beat s)
  unfolding rden fifo_inputs m_tvalid m_beat
  rden_lem i s q small =
      let st = s.arb_state in
      elim (Bool-cases (st == q)) [
        | inl h ↦
            let e : st ≡ q = (==_iff st q).0 h in
            let there = λ (n : ℕ). (s.gen_fifos n).m_tvalid in
            let m = i.axis.m_tready in
            same (there q) m (st == q) (ltb q 3) (m_data (s.gen_fifos q)) h (lt→ltb q 3 small)
            ∙ ap (λ n. moves ((ltb n 3 && there n) && m && st == q) (m_data (s.gen_fifos n)))
                (sym e)
        | inr h ↦ ground arith
      ]
    where
      same :
          (a b c d : Bool) (x : A)
          → c ≡ true
          → d ≡ true
          → moves (a && (c && b)) x ≡ moves ((d && a) && b && c) x
      same a b c d x p q = ground arith

  edge_balance :
      (mode : ℕ) (i : Inputs A) (s : Scheduler A) (q : ℕ)
      → q < 3
      → IsValid (s.gen_fifos q)
      → i.axis.rst_n ≡ true
      → queue s q ++ moves (enters i s q) i.axis.s_data
        ≡ moves (exits i s q) (m_beat s) ++ queue (posedge mode i s) q
  unfolding posedge fifo_inputs
  edge_balance mode i s q small v on =
      ap (λ c. queue s q ++ moves c i.axis.s_data) (sym (wren_lem i s q))
      ∙ step_balance (fifo_inputs i s q) v on
      ∙ ap (λ l. l ++ queue (posedge mode i s) q) (rden_lem i s q small)

  -- The state after some edges, and what entered and left a queue at them.
  unfoldable pub after : ℕ → List (Inputs A) → Scheduler A → Scheduler A
  after mode [] s = s
  after mode (i ∷ is) s = after mode is (posedge mode i s)

  unfoldable pub taken : ℕ → List (Inputs A) → Scheduler A → ℕ → List A
  taken mode [] s q = []
  taken mode (i ∷ is) s q = moves (enters i s q) i.axis.s_data ++ taken mode is (posedge mode i s) q

  unfoldable pub left : ℕ → List (Inputs A) → Scheduler A → ℕ → List A
  left mode [] s q = []
  left mode (i ∷ is) s q = moves (exits i s q) (m_beat s) ++ left mode is (posedge mode i s) q

  abbrev pub AllOn : List (Inputs A) → Type 0
  AllOn [] = Unit {0}
  AllOn (i ∷ is) = (i.axis.rst_n ≡ true) × AllOn is

  -- Over any edges without reset, in either mode, no queue of the scheduler loses, doubles or
  -- reorders an entry: what a valid queue holds, followed by the entries for it that the input
  -- offered while ready, is the entries that left the output while the queue was served, followed
  -- by what it holds at the end.
  pub queue_balance :
      (mode : ℕ) (is : List (Inputs A)) (s : Scheduler A) (q : ℕ)
      → q < 3
      → IsValid (s.gen_fifos q)
      → AllOn is
      → queue s q ++ taken mode is s q ≡ left mode is s q ++ queue (after mode is s) q
  unfolding taken left after posedge
  queue_balance mode [] s q small v on = append-nil (queue s q)
  queue_balance mode (i ∷ is) s q small v on =
      let s' = posedge mode i s in
      let t = moves (enters i s q) i.axis.s_data in
      let l = moves (exits i s q) (m_beat s) in
      sym (append_assoc (queue s q) t (taken mode is s' q))
      ∙ ap (λ c. c ++ taken mode is s' q) (edge_balance mode i s q small v on.0)
      ∙ append_assoc l (queue s' q) (taken mode is s' q)
      ∙ ap (◌++◌ l) (queue_balance mode is s' q small (posedge-IsValid (fifo_inputs i s q) v) on.1)
      ∙ sym (append_assoc l (left mode is s' q) (queue (after mode is s') q))
