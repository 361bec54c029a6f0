-- ===== src/Pipeline/Order.antt =====
-- The beats that go through parser_pipeline.sv over any edges, as its testbenches see them.
use fpga_network_processing.Base.{
  List, [], ap, append-nil, append_assoc, sym, true, ◌++◌, ◌∙◌, ◌∷◌, ◌≡◌,
}
use fpga_network_processing.Monitor.Verdict
use fpga_network_processing.Pipeline.{Pipeline, Inputs, posedge}
use fpga_network_processing.Pipeline.Tame.{IsTame, IsTame-posedge}
use fpga_network_processing.Pipeline.Balance.{contents, takes, leaves, edge_balance}

unfoldable pub after : List Inputs → Pipeline → Pipeline
after [] p = p
after (i ∷ is) p = after is (posedge i p)

unfoldable pub taken : List Inputs → Pipeline → List Verdict.Beat
taken [] p = []
taken (i ∷ is) p = takes i p ++ taken is (posedge i p)

unfoldable pub left : List Inputs → Pipeline → List Verdict.Beat
left [] p = []
left (i ∷ is) p = leaves i p ++ left is (posedge i p)

abbrev pub AllOn : List Inputs → Type 0
AllOn [] = Unit {0}
AllOn (i ∷ is) = (i.axis.rst_n ≡ true) × AllOn is

-- Over any edges without reset, with beats that come and an output that is wanted as they may,
-- nothing is lost, doubled or reordered by the eight stages: the beats in the pipeline, followed
-- by those it took, are those that left, followed by those it holds at the end. At the start the
-- UDP and the TCP parser are both full or both empty, and the modifier has no orders but those the
-- rules give, as after a reset. A beat is taken as the testbenches read it: of its low 8 bytes as
-- many as the low 8 bits of `tkeep` mark, and `tlast`.
pub beats_in_order :
    (is : List Inputs) (p : Pipeline)
    → IsTame p
    → AllOn is
    → contents p ++ taken is p ≡ left is p ++ contents (after is p)
unfolding taken left after
beats_in_order [] p v on = append-nil (contents p)
beats_in_order (i ∷ is) p v on =
    let p' = posedge i p in
    sym (append_assoc (contents p) (takes i p) (taken is p'))
    ∙ ap (λ q. q ++ taken is p') (edge_balance i p v on.0)
    ∙ append_assoc (leaves i p) (contents p') (taken is p')
    ∙ ap (◌++◌ (leaves i p)) (beats_in_order is p' (IsTame-posedge i p v) on.1)
    ∙ sym (append_assoc (leaves i p) (left is p') (contents (after is p')))
