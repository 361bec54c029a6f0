-- ===== src/Stage/Flow.antt =====
-- The beats that go through the register stage axis_register.sv.
use fpga_network_processing.Base.{
  List, [], ap, append-nil, append_assoc, arith, if◌then◌else◌, sym, true, ◌&&◌, ◌++◌, ◌∙◌, ◌∷◌,
  ◌≡◌,
}
use fpga_network_processing.Fifo.{Inputs}
use fpga_network_processing.Stage.{Stage, s_tready, posedge}

module _ {A : Type 0} where
  abbrev pub contents : Stage A → List A
  contents r = if r.pipe_valid then r.pipe ∷ [] else []

  -- What an edge takes in, and what leaves at it.
  abbrev pub takes : Inputs A → Stage A → List A
  takes i r = if i.s_tvalid && s_tready i r then i.s_data ∷ [] else []

  abbrev pub leaves : Inputs A → Stage A → List A
  leaves i r = if r.pipe_valid && i.m_tready then r.pipe ∷ [] else []

  unfoldable pub after : List (Inputs A) → Stage A → Stage A
  after [] r = r
  after (i ∷ is) r = after is (posedge i r)

  unfoldable pub taken : List (Inputs A) → Stage A → List A
  taken [] r = []
  taken (i ∷ is) r = takes i r ++ taken is (posedge i r)

  unfoldable pub left : List (Inputs A) → Stage A → List A
  left [] r = []
  left (i ∷ is) r = leaves i r ++ left is (posedge i r)

  abbrev pub AllOn : List (Inputs A) → Type 0
  AllOn [] = Unit {0}
  AllOn (i ∷ is) = (i.rst_n ≡ true) × AllOn is

  edge_balance :
      (i : Inputs A) (r : Stage A)
      → i.rst_n ≡ true
      → contents r ++ takes i r ≡ leaves i r ++ contents (posedge i r)
  unfolding s_tready posedge
  edge_balance i r on = ground arith

  -- Over a run with no reset, nothing is lost, doubled or reordered by the register stage: what it
  -- held, followed by what it took, is what left, followed by what it holds at the end.
  pub kept_lem :
      (is : List (Inputs A)) (r : Stage A)
      → AllOn is
      → contents r ++ taken is r ≡ left is r ++ contents (after is r)
  unfolding taken left after
  kept_lem [] r on = append-nil (contents r)
  kept_lem (i ∷ is) r on =
      let r' = posedge i r in
      sym (append_assoc (contents r) (takes i r) (taken is r'))
      ∙ ap (λ q. q ++ taken is r') (edge_balance i r on.0)
      ∙ append_assoc (leaves i r) (contents r') (taken is r')
      ∙ ap (◌++◌ (leaves i r)) (kept_lem is r' on.1)
      ∙ sym (append_assoc (leaves i r) (left is r') (contents (after is r')))
