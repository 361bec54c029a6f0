-- ===== src/Pipeline/Tame.antt =====
-- What parser_pipeline.sv keeps: the parsers of UDP and TCP in step, and orders for the modifier that
-- leave what a testbench reads of a beat.
use fpga_network_processing.Base.{
  Bool, Bool-cases, ap, arith, false, if◌then◌else◌, inl, inr, not, true, ◌||◌, ◌∙◌, ◌≡◌,
}
use fpga_network_processing.Fifo
use fpga_network_processing.Stage
use fpga_network_processing.Stage.{Stage}
use fpga_network_processing.Ipv4Parser
use fpga_network_processing.Ipv4Parser.{Beat}
use fpga_network_processing.Parsers.{posedge_with}
use fpga_network_processing.Parsers.Transport.{udp_posedge, tcp_posedge}
use fpga_network_processing.MatchTable
use fpga_network_processing.MatchTable.{MatchTable, latches, match_rules}
use fpga_network_processing.Pipeline.{Pipeline, Inputs, posedge, match_wires}
use fpga_network_processing.Pipeline.Sight.{is_mild, match_rules-mild}

-- The match table has orders for a packet of which it has taken a beat.
abbrev pub has_orders : MatchTable → Bool
has_orders t = t.stage.pipe_valid || not t.first_beat

-- The parsers of UDP and TCP are in step, and the modifier's orders, if any, are mild.
pub record IsTame (p : Pipeline) : Type 0 where
  pub paired : p.udp_inst.stage.pipe_valid ≡ p.tcp_inst.stage.pipe_valid
  pub mild : has_orders p.match_inst ≡ true → is_mild p.match_inst.pipe_mod_action ≡ true

valid_step :
    {A : Type 0} (i : Fifo.Inputs A) (r q : Stage A)
    → r.pipe_valid ≡ q.pipe_valid
    → (Stage.posedge i r).pipe_valid ≡ (Stage.posedge i q).pipe_valid
unfolding Stage.posedge
valid_step i r q e = ground arith

-- Without a first beat there are orders only where there were.
orders_kept :
    (i : Ipv4Parser.Inputs) (t : MatchTable)
    → latches i t ≡ false
    → has_orders (MatchTable.posedge i t) ≡ true
    → has_orders t ≡ true
unfolding MatchTable.posedge MatchTable.accepts Stage.posedge Stage.s_tready
orders_kept i t h k = ground arith

mild_step :
    (i : Ipv4Parser.Inputs) (t : MatchTable)
    → (has_orders t ≡ true → is_mild t.pipe_mod_action ≡ true)
    → has_orders (MatchTable.posedge i t) ≡ true
    → is_mild (MatchTable.posedge i t).pipe_mod_action ≡ true
unfolding MatchTable.posedge
mild_step i t v h =
    let pick =
      λ (c : Bool). is_mild (if c then (match_rules i.s_meta).mod_action else t.pipe_mod_action) in
    elim (Bool-cases (latches i t)) [
      | inl on ↦ ap pick on ∙ match_rules-mild i.s_meta
      | inr off ↦ ap pick off ∙ v (orders_kept i t off h)
    ]

pub IsTame-posedge : (i : Inputs) (p : Pipeline) → IsTame p → IsTame (posedge i p)
unfolding posedge udp_posedge tcp_posedge posedge_with MatchTable.posedge
IsTame-posedge i p v = record {
  paired = valid_step _ p.udp_inst.stage p.tcp_inst.stage v.paired;
  mild = mild_step (match_wires i p) p.match_inst v.mild;
}
