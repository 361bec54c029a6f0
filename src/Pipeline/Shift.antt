-- ===== src/Pipeline/Shift.antt =====
-- parser_pipeline.sv while its output is wanted at every edge: the stages move on together.
use mathlib.Core.List.{map}
use fpga_network_processing.Base.{
  Bool, Bool-cases, List, Option, [], ap, append-nil, append_assoc, arith, drop, false,
  if◌then◌else◌, inl, inr, length, none, not, refl, some, suc, sym, true, ℕ, ◌++◌, ◌<◌, ◌||◌, ◌∙◌,
  ◌∷◌, ◌≡◌,
}
use fpga_network_processing.Fifo
use fpga_network_processing.Stage
use fpga_network_processing.Stage.{Stage}
use fpga_network_processing.Stats
use fpga_network_processing.Ipv4Parser
use fpga_network_processing.Ipv4Parser.{Beat}
use fpga_network_processing.Parsers.{posedge_with}
use fpga_network_processing.Parsers.Ethernet
use fpga_network_processing.Parsers.Vlan
use fpga_network_processing.Parsers.Transport.{udp_posedge, tcp_posedge}
use fpga_network_processing.MatchTable
use fpga_network_processing.Modifier
use fpga_network_processing.Modifier.{modified}
use fpga_network_processing.Monitor.Verdict
use fpga_network_processing.Pipeline.{
  Pipeline, Inputs, r_flow, r_stats, r_mod, r_match, r_ip, r_vlan, r_eth, l4, posedge, mod_wires,
  flow_wires, wires, d_stats, d_mod,
}
use fpga_network_processing.Pipeline.Sight.{see, see-modified}
use fpga_network_processing.Pipeline.Tame.{IsTame, IsTame-posedge}
use fpga_network_processing.Pipeline.Balance.{see_stats, flow_stage}
use fpga_network_processing.Pipeline.Order.{after}

module _ {A : Type 0} (f : A → Verdict.Beat) where
  abbrev pub when : Bool → A → Option Verdict.Beat
  when c b = if c then some (f b) else none

  abbrev pub slot : Stage A → Option Verdict.Beat
  slot r = when r.pipe_valid r.pipe

  slot_step :
      (i : Fifo.Inputs A) (r : Stage A)
      → i.rst_n ≡ true
      → i.m_tready ≡ true
      → slot (Stage.posedge i r) ≡ when i.s_tvalid i.s_data
  unfolding Stage.posedge
  slot_step i r on m = ground arith

-- The stages, the last first.
abbrev pub line : Pipeline → List (Option Verdict.Beat)
line p =
    slot see p.flow_inst.stage
    ∷ slot see_stats p.stats_inst.stage
    ∷ slot see p.mod_inst.stage
    ∷ slot see p.match_inst.stage
    ∷ slot see p.tcp_inst.stage
    ∷ slot see p.ip_inst.stage
    ∷ slot see p.vlan_inst.stage
    ∷ slot see p.eth_inst.stage
    ∷ []

-- What an edge takes in.
abbrev pub offered : Inputs → Option Verdict.Beat
offered i = when see i.axis.s_tvalid i.axis.s_data

-- An edge that goes on and wants the output.
pub record IsOpen (i : Inputs) : Type 0 where
  pub on : i.axis.rst_n ≡ true
  pub wanted : i.axis.m_tready ≡ true

slot-l4 : (p : Pipeline) → IsTame p → slot see (l4 p) ≡ slot see p.tcp_inst.stage
slot-l4 p v =
    let tcp = p.tcp_inst.stage in
    let udp = p.udp_inst.stage in
    ap (λ u. when see (tcp.pipe_valid || u) (if tcp.pipe_valid then tcp.pipe else udp.pipe))
      v.paired
    ∙ shown tcp.pipe_valid tcp.pipe udp.pipe
  where
    shown : (v : Bool) (t u : Beat) → when see (v || v) (if v then t else u) ≡ when see v t
    shown true t u = refl
    shown false t u = refl

mod_slot :
    (i : Inputs) (p : Pipeline)
    → IsTame p
    → when see p.match_inst.stage.pipe_valid (modified (mod_wires i p) p.mod_inst)
      ≡ slot see p.match_inst.stage
mod_slot i p v =
    let t = p.match_inst in
    let with : Bool → Verdict.Beat → Option Verdict.Beat = λ v b. if v then some b else none in
    elim (Bool-cases t.stage.pipe_valid) [
      | inl on ↦
          ap (with t.stage.pipe_valid)
            (see-modified (mod_wires i p) p.mod_inst (v.mild (ap (λ c. c || not t.first_beat) on)))
      | inr off ↦
          ap (λ c. with c (see (modified (mod_wires i p) p.mod_inst))) off
          ∙ sym (ap (λ c. with c (see t.stage.pipe)) off)
    ]

pub line-posedge :
    (i : Inputs) (p : Pipeline)
    → IsTame p
    → IsOpen i
    → line (posedge i p) ≡ drop 1 (line p) ++ offered i ∷ []
unfolding posedge udp_posedge tcp_posedge posedge_with MatchTable.posedge Modifier.posedge
    Stats.posedge Ethernet.posedge Vlan.posedge Ipv4Parser.posedge
line-posedge i p v o =
    let m = i.axis.m_tready in
    let rst = i.axis.rst_n in
    let go : (c : Bool → Bool) → c true ≡ true → c m ≡ true = λ c h. ap c o.wanted ∙ h in
    let w = mod_wires i p in
    let e1 =
      slot_step see (record i.axis { m_tready = r_eth m p }) p.eth_inst.stage o.on
        (go (λ m. r_eth m p) refl) in
    let e2 =
      slot_step see (wires rst p.eth_inst.stage (r_vlan m p)) p.vlan_inst.stage o.on
        (go (λ m. r_vlan m p) refl) in
    let e3 =
      slot_step see (wires rst p.vlan_inst.stage (r_ip m p)) p.ip_inst.stage o.on
        (go (λ m. r_ip m p) refl) in
    let e4 =
      slot_step see (wires rst p.ip_inst.stage (r_match m p)) p.tcp_inst.stage o.on
        (go (λ m. r_match m p) refl) in
    let e5 =
      slot_step see (wires rst (l4 p) (r_mod m p)) p.match_inst.stage o.on
        (go (λ m. r_mod m p) refl)
      ∙ slot-l4 p v in
    let e6 =
      slot_step see (record w.axis { s_data = modified w p.mod_inst }) p.mod_inst.stage o.on
        (go (λ m. r_stats m p) refl)
      ∙ mod_slot i p v in
    let e7 =
      slot_step see_stats (wires rst (d_mod p) (r_flow m p)) p.stats_inst.stage o.on
        (go (λ m. r_flow m p) refl) in
    let e8 =
      ap (slot see) (flow_stage (flow_wires i p) p.flow_inst)
      ∙ slot_step see (wires rst (d_stats p) m) p.flow_inst.stage o.on o.wanted in
    λ k. e8 k ∷ e7 k ∷ e6 k ∷ e5 k ∷ e4 k ∷ e3 k ∷ e2 k ∷ e1 k ∷ []

abbrev pub AllOpen : List Inputs → Type 0
AllOpen [] = Unit {0}
AllOpen (i ∷ is) = IsOpen i × AllOpen is

drop-one :
    {A : Type 0} (n : ℕ) (x : A) (l m : List A)
    → 0 < length l
    → drop n (drop 1 l ++ x ∷ m) ≡ drop (suc n) (l ++ x ∷ m)
drop-one n x [] m h = absurd (omega arith)
drop-one n x (a ∷ l) m h = refl

-- The stages after open edges: what was offered last, up to eight of it, behind what is left.
pub line-after :
    (is : List Inputs) (p : Pipeline)
    → IsTame p
    → AllOpen is
    → line (after is p) ≡ drop (length is) (line p ++ map offered is)
unfolding after
line-after [] p v o = sym (append-nil (line p))
line-after (i ∷ is) p v o =
    line-after is (posedge i p) (IsTame-posedge i p v) o.1
    ∙ ap (λ l. drop (length is) (l ++ map offered is)) (line-posedge i p v o.0)
    ∙ ap (drop (length is)) (append_assoc (drop 1 (line p)) (offered i ∷ []) (map offered is))
    ∙ drop-one (length is) (offered i) (line p) (map offered is) (omega arith)

-- Eight edges at which the output is wanted and there is no reset fill the pipeline, whatever
-- beats it held, with what its input offered at them, in order, each beat taken as the testbenches
-- read it. At the start the UDP and the TCP parser are both full or both empty, and the modifier
-- has no orders but those the rules give, as after a reset.
pub eight_edges :
    (is : List Inputs) (p : Pipeline)
    → IsTame p
    → AllOpen is
    → length is ≡ 8
    → line (after is p) ≡ map offered is
eight_edges is p v o h = line-after is p v o ∙ ap (λ n. drop n (line p ++ map offered is)) h
