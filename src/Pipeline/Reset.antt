-- ===== src/Pipeline/Reset.antt =====
-- parser_pipeline.sv in reset, and with nothing in it.
use fpga_network_processing.Base.{
  Bool, [], ap, ap₂, arith, false, if◌then◌else◌, none, replicate, some, sym, true, ◌||◌, ◌∙◌, ◌∷◌,
  ◌≡◌,
}
use fpga_network_processing.Fifo
use fpga_network_processing.Stage
use fpga_network_processing.Stage.{Stage}
use fpga_network_processing.Stats
use fpga_network_processing.Ipv4Parser
use fpga_network_processing.Parsers.{posedge_with}
use fpga_network_processing.Parsers.Ethernet
use fpga_network_processing.Parsers.Vlan
use fpga_network_processing.Parsers.Transport.{udp_posedge, tcp_posedge}
use fpga_network_processing.MatchTable
use fpga_network_processing.MatchTable.{MatchTable}
use fpga_network_processing.Modifier
use fpga_network_processing.Monitor.Verdict
use fpga_network_processing.Pipeline.{Pipeline, Inputs, posedge, flow_wires, match_wires}
use fpga_network_processing.Pipeline.Sight.{see}
use fpga_network_processing.Pipeline.Tame.{IsTame, has_orders}
use fpga_network_processing.Pipeline.Balance.{see_stats, flow_stage}
use fpga_network_processing.Pipeline.Shift.{line, slot}

-- No stage holds a beat.
pub record IsEmpty (p : Pipeline) : Type 0 where
  pub eth : p.eth_inst.stage.pipe_valid ≡ false
  pub vlan : p.vlan_inst.stage.pipe_valid ≡ false
  pub ip : p.ip_inst.stage.pipe_valid ≡ false
  pub udp : p.udp_inst.stage.pipe_valid ≡ false
  pub tcp : p.tcp_inst.stage.pipe_valid ≡ false
  pub matched : p.match_inst.stage.pipe_valid ≡ false
  pub modified : p.mod_inst.stage.pipe_valid ≡ false
  pub counted : p.stats_inst.stage.pipe_valid ≡ false
  pub flow : p.flow_inst.stage.pipe_valid ≡ false

module _ {A : Type 0} where
  cleared :
      (i : Fifo.Inputs A) (r : Stage A) → i.rst_n ≡ false → (Stage.posedge i r).pipe_valid ≡ false
  unfolding Stage.posedge
  cleared i r off = ground arith

  stays_empty :
      (i : Fifo.Inputs A) (r : Stage A)
      → r.pipe_valid ≡ false
      → i.s_tvalid ≡ false
      → (Stage.posedge i r).pipe_valid ≡ false
  unfolding Stage.posedge
  stays_empty i r e h = ground arith

pub IsEmpty-reset : (i : Inputs) (p : Pipeline) → i.axis.rst_n ≡ false → IsEmpty (posedge i p)
unfolding posedge udp_posedge tcp_posedge posedge_with MatchTable.posedge Modifier.posedge
    Stats.posedge Ethernet.posedge Vlan.posedge Ipv4Parser.posedge
IsEmpty-reset i p off = record {
  eth = cleared _ p.eth_inst.stage off;
  vlan = cleared _ p.vlan_inst.stage off;
  ip = cleared _ p.ip_inst.stage off;
  udp = cleared _ p.udp_inst.stage off;
  tcp = cleared _ p.tcp_inst.stage off;
  matched = cleared _ p.match_inst.stage off;
  modified = cleared _ p.mod_inst.stage off;
  counted = cleared _ p.stats_inst.stage off;
  flow =
      ap (λ (r : Stage Ipv4Parser.Beat). r.pipe_valid) (flow_stage (flow_wires i p) p.flow_inst)
      ∙ cleared _ p.flow_inst.stage off;
}

pub IsEmpty-posedge :
    (i : Inputs) (p : Pipeline) → IsEmpty p → i.axis.s_tvalid ≡ false → IsEmpty (posedge i p)
unfolding posedge udp_posedge tcp_posedge posedge_with MatchTable.posedge Modifier.posedge
    Stats.posedge Ethernet.posedge Vlan.posedge Ipv4Parser.posedge
IsEmpty-posedge i p e h = record {
  eth = stays_empty _ p.eth_inst.stage e.eth h;
  vlan = stays_empty _ p.vlan_inst.stage e.vlan e.eth;
  ip = stays_empty _ p.ip_inst.stage e.ip e.vlan;
  udp = stays_empty _ p.udp_inst.stage e.udp e.ip;
  tcp = stays_empty _ p.tcp_inst.stage e.tcp e.ip;
  matched = stays_empty _ p.match_inst.stage e.matched (ap₂ ◌||◌ e.tcp e.udp);
  modified = stays_empty _ p.mod_inst.stage e.modified e.matched;
  counted = stays_empty _ p.stats_inst.stage e.counted e.modified;
  flow =
      ap (λ (r : Stage Ipv4Parser.Beat). r.pipe_valid) (flow_stage (flow_wires i p) p.flow_inst)
      ∙ stays_empty _ p.flow_inst.stage e.flow e.counted;
}

no_orders :
    (i : Ipv4Parser.Inputs) (t : MatchTable)
    → i.axis.rst_n ≡ false
    → has_orders (MatchTable.posedge i t) ≡ false
unfolding MatchTable.posedge Stage.posedge
no_orders i t off = ground arith

orderless : {P : Type 0} (c : Bool) → c ≡ false → c ≡ true → P
orderless c e h = absurd (cc)

pub IsTame-reset : (i : Inputs) (p : Pipeline) → i.axis.rst_n ≡ false → IsTame (posedge i p)
unfolding posedge
IsTame-reset i p off =
    let e = IsEmpty-reset i p off in
    record {
      paired = e.udp ∙ sym e.tcp;
      mild = orderless _ (no_orders (match_wires i p) p.match_inst off);
    }

slot_empty :
    {A : Type 0} (f : A → Verdict.Beat) (r : Stage A) → r.pipe_valid ≡ false → slot f r ≡ none
slot_empty f r h = ap (λ (c : Bool). if c then some (f r.pipe) else none) h

pub line-empty : (p : Pipeline) → IsEmpty p → line p ≡ replicate 8 none
line-empty p e = λ k.
    slot_empty see p.flow_inst.stage e.flow k
    ∷ slot_empty see_stats p.stats_inst.stage e.counted k
    ∷ slot_empty see p.mod_inst.stage e.modified k
    ∷ slot_empty see p.match_inst.stage e.matched k
    ∷ slot_empty see p.tcp_inst.stage e.tcp k
    ∷ slot_empty see p.ip_inst.stage e.ip k
    ∷ slot_empty see p.vlan_inst.stage e.vlan k
    ∷ slot_empty see p.eth_inst.stage e.eth k
    ∷ []
