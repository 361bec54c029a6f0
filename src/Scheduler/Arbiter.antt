-- ===== src/Scheduler/Arbiter.antt =====
-- Which queue packet_scheduler.sv serves.
use mathlib.Core.Path.{subst}
use fpga_network_processing.Base.{
  Bool, List, [], ap, arith, if◌then◌else◌, refl, suc, sym, true, zero, ℕ, ◌++◌, ◌<◌, ◌^◌, ◌∙◌, ◌∷◌,
  ◌≡◌, ◌≢◌, ◌≤◌,
}
use fpga_network_processing.Fifo.Invariant.{IsValid, posedge-IsValid}
use fpga_network_processing.Scheduler.{
  Scheduler, Inputs, arb_ready, fifo_inputs, strict_next, posedge, arb_next, next_count, m_beat,
}
use fpga_network_processing.Scheduler.Order.{left, moves, exits}

-- The first of three.
abbrev pub first : (ℕ → Bool) → ℕ → ℕ
first r d = if r 0 then 0 else if r 1 then 1 else if r 2 then 2 else d

first_lem : (r : ℕ → Bool) (d q : ℕ) → q < 3 → r q ≡ true → (r (first r d) ≡ true) × (first r d ≤ q)
first_lem r d zero small h = ground arith
first_lem r d (suc zero) small h = ground arith
first_lem r d (suc (suc zero)) small h = ground arith
first_lem r d (suc (suc (suc q))) small h = absurd (omega arith)

module _ {A : Type 0} where
  -- Every queue is valid, and one of the three is served.
  pub record IsSound (s : Scheduler A) : Type 0 where
    pub valid : (q : ℕ) → IsValid (s.gen_fifos q)
    pub state_in : s.arb_state < 3

  pub state-lt :
      (mode : ℕ) (i : Inputs A) (s : Scheduler A)
      → s.arb_state < 3
      → (posedge mode i s).arb_state < 3
  unfolding posedge arb_next
  state-lt mode i s h = ground arith

  -- An edge, with reset or without, keeps the queues valid and one of the three served.
  pub posedge-IsSound :
      (mode : ℕ) (i : Inputs A) (s : Scheduler A) → IsSound s → IsSound (posedge mode i s)
  unfolding posedge
  posedge-IsSound mode i s v = record {
    valid = λ q. posedge-IsValid (fifo_inputs i s q) (v.valid q);
    state_in = state-lt mode i s v.state_in;
  }

  -- In strict mode, after an edge without reset at which one of the three queues is not empty, the
  -- queue that is served was not empty before the edge, and has that queue's priority or a higher
  -- one.
  pub strict_serves_first :
      (i : Inputs A) (s : Scheduler A) (q : ℕ)
      → i.axis.rst_n ≡ true
      → q < 3
      → arb_ready s q ≡ true
      → let st = (posedge 0 i s).arb_state in (arb_ready s st ≡ true) × (st ≤ q)
  unfolding posedge arb_next strict_next
  strict_serves_first i s q on small h =
      subst (λ n. (arb_ready s n ≡ true) × (n ≤ q))
        (sym (ap (λ (c : Bool). if c then first (arb_ready s) s.arb_state else 0) on))
        (first_lem (arb_ready s) s.arb_state q small h)

  -- The credits of the queue that is served are not used up.
  abbrev pub HasCredit : (ℕ → ℕ) → Scheduler A → Type 0
  HasCredit w s = s.wrr_count s.arb_state < w s.arb_state

  stays :
      (i : Inputs A) (s : Scheduler A)
      → i.axis.rst_n ≡ true
      → HasCredit i.wrr_weight s
      → i.wrr_weight s.arb_state < 2 ^ 8
      → arb_ready s s.arb_state ≡ true
      → let s' = posedge 1 i s in
        (s'.arb_state ≡ s.arb_state) × (s'.wrr_count s.arb_state < i.wrr_weight s.arb_state)
  unfolding posedge arb_next next_count
  stays i s on small byte h = ground arith

  -- Edges without reset, under weights `w`, at which queue `q` has data.
  abbrev pub AllReady : (ℕ → ℕ) → ℕ → List (Inputs A) → Scheduler A → Type 0
  AllReady w q [] s = Unit {0}
  AllReady w q (i ∷ is) s =
      (i.axis.rst_n ≡ true)
      × (i.wrr_weight ≡ w)
      × (arb_ready s q ≡ true)
      × AllReady w q is (posedge 1 i s)

  -- In round-robin mode, over edges without reset and with the same weights, at each of which the
  -- queue that is served at the start is not empty: if its count is below its weight at the start,
  -- and the weight has 8 bits, nothing leaves any other queue.
  pub wrr_starves :
      (w : ℕ → ℕ) (is : List (Inputs A)) (s : Scheduler A) (p : ℕ)
      → HasCredit w s
      → w s.arb_state < 2 ^ 8
      → AllReady w s.arb_state is s
      → p ≢ s.arb_state
      → left 1 is s p ≡ []
  unfolding left
  wrr_starves w [] s p small byte all other = refl
  wrr_starves w (i ∷ is) s p small byte (on, weights, ready, all) other =
      let s' = posedge 1 i s in
      let st = s.arb_state in
      let (same, credit) =
        stays i s on (subst (λ v. HasCredit v s) (sym weights) small)
          (subst (λ (v : ℕ → ℕ). v st < 2 ^ 8) (sym weights) byte) ready in
      let credit' : HasCredit w s' =
        subst (λ n. s'.wrr_count n < w n) (sym same)
          (subst (λ (v : ℕ → ℕ). s'.wrr_count st < v st) weights credit) in
      let byte' : w s'.arb_state < 2 ^ 8 = subst (λ n. w n < 2 ^ 8) (sym same) byte in
      let all' : AllReady w s'.arb_state is s' = subst (λ n. AllReady w n is s') (sym same) all in
      let out : moves (exits i s p) (m_beat s) ≡ [] = ground arith in
      ap (λ l. l ++ left 1 is s' p) out
      ∙ wrr_starves w is s' p credit' byte' all' (λ e. other (e ∙ same))
