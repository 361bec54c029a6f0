-- ===== src/Pipeline/Balance.antt =====
-- What an edge of parser_pipeline.sv takes and lets out, stage by stage.
use fpga_network_processing.Base.{
  Bool, Bool-cases, List, [], ap, append_assoc, arith, false, if◌then◌else◌, inl, inr, not, refl,
  sym, true, ℕ, ◌&&◌, ◌++◌, ◌||◌, ◌∙◌, ◌∷◌, ◌≡◌,
}
use fpga_network_processing.Fifo
use fpga_network_processing.Stage
use fpga_network_processing.Stage.{Stage}
use fpga_network_processing.Stats
use fpga_network_processing.Ipv4Parser
use fpga_network_processing.Ipv4Parser.{Beat}
use fpga_network_processing.Parsers.{posedge_with}
use fpga_network_processing.Parsers.Ethernet
use fpga_network_processing.Parsers.Vlan
use fpga_network_processing.Parsers.Transport.{udp_posedge, tcp_posedge}
use fpga_network_processing.MatchTable
use fpga_network_processing.MatchTable.{MatchTable, latches, match_rules}
use fpga_network_processing.Modifier
use fpga_network_processing.Modifier.{modified}
use fpga_network_processing.FlowTable
use fpga_network_processing.FlowTable.{FlowTable}
use fpga_network_processing.Monitor.Verdict
use fpga_network_processing.Pipeline.{
  Pipeline, Inputs, ready, r_flow, r_stats, r_mod, r_match, r_ip, r_vlan, r_eth, s_tready, l4,
  from_stats, posedge, m_tvalid, m_beat, mod_wires, flow_wires, wires, d_stats, d_mod,
}
use fpga_network_processing.Pipeline.Sight.{see, see-modified}
use fpga_network_processing.Pipeline.Tame.{IsTame}

module _ {A : Type 0} (f : A → Verdict.Beat) where
  -- A beat that moves, and one that is held.
  abbrev pub moves : Bool → A → List Verdict.Beat
  moves c b = if c then f b ∷ [] else []

  abbrev pub held : Stage A → List Verdict.Beat
  held r = moves r.pipe_valid r.pipe

  stage_balance :
      (i : Fifo.Inputs A) (r : Stage A)
      → i.rst_n ≡ true
      → held r ++ moves (i.s_tvalid && ready i.m_tready r) i.s_data
        ≡ moves (r.pipe_valid && i.m_tready) r.pipe ++ held (Stage.posedge i r)
  unfolding Stage.posedge
  stage_balance i r on = ground arith

abbrev pub see_stats : Stats.Beat (ℕ × ℕ) → Verdict.Beat
see_stats b = see (from_stats b)

-- The beats in the stages, the oldest first.
abbrev pub contents : Pipeline → List Verdict.Beat
contents p =
    held see p.flow_inst.stage
    ++ (held see_stats p.stats_inst.stage
        ++ (held see p.mod_inst.stage
            ++ (held see p.match_inst.stage
                ++ (held see p.tcp_inst.stage
                    ++ (held see p.ip_inst.stage
                        ++ (held see p.vlan_inst.stage ++ held see p.eth_inst.stage))))))

-- What an edge takes in, and what leaves at it.
abbrev pub takes : Inputs → Pipeline → List Verdict.Beat
takes i p = moves see (i.axis.s_tvalid && s_tready i.axis.m_tready p) i.axis.s_data

abbrev pub leaves : Inputs → Pipeline → List Verdict.Beat
leaves i p = moves see (m_tvalid p && i.axis.m_tready) (m_beat p)

-- A stage in front of others that balance.
chain :
    (c c' d d' t l o : List Verdict.Beat)
    → c ++ t ≡ l ++ c'
    → d ++ l ≡ o ++ d'
    → (d ++ c) ++ t ≡ o ++ (d' ++ c')
chain c c' d d' t l o e e' =
    append_assoc d c t
    ∙ ap (◌++◌ d) e
    ∙ sym (append_assoc d l c')
    ∙ ap (λ q. q ++ c') e'
    ∙ append_assoc o d' c'

pub flow_stage :
    (i : FlowTable.Inputs) (t : FlowTable)
    → (FlowTable.posedge i t).stage ≡ Stage.posedge i.axis t.stage
unfolding FlowTable.posedge
flow_stage i t = elim (Bool-cases i.axis.rst_n) [ inl on ↦ rw on refl | inr off ↦ rw off refl ]

both : (c : Bool) → (c && c) ≡ c
both true = refl
both false = refl

shown :
    (v m : Bool) (t u : Beat)
    → moves see ((v || v) && m) (if v then t else u) ≡ moves see (v && m) t
shown true m t u = refl
shown false m t u = refl

-- The parsers of UDP and TCP, in step, are one stage.
r_ip_lem :
    (i : Inputs) (p : Pipeline)
    → IsTame p
    → r_ip i.axis.m_tready p ≡ ready (r_match i.axis.m_tready p) p.tcp_inst.stage
r_ip_lem i p v =
    let c = r_match i.axis.m_tready p in
    ap (λ u. (c || not u) && (c || not p.tcp_inst.stage.pipe_valid)) v.paired
    ∙ both (c || not p.tcp_inst.stage.pipe_valid)

l4_lem :
    (i : Inputs) (p : Pipeline)
    → IsTame p
    → moves see ((l4 p).pipe_valid && r_match i.axis.m_tready p) (l4 p).pipe
      ≡ moves see (p.tcp_inst.stage.pipe_valid && r_match i.axis.m_tready p) p.tcp_inst.stage.pipe
l4_lem i p v =
    ap
      (λ u.
        moves see ((p.tcp_inst.stage.pipe_valid || u) && r_match i.axis.m_tready p)
          (if p.tcp_inst.stage.pipe_valid then p.tcp_inst.stage.pipe else p.udp_inst.stage.pipe))
      v.paired
    ∙ shown p.tcp_inst.stage.pipe_valid (r_match i.axis.m_tready p) p.tcp_inst.stage.pipe
        p.udp_inst.stage.pipe

-- What the modifier takes from the match table looks as it did.
orders_lem :
    (i : Inputs) (p : Pipeline)
    → IsTame p
    → let c = p.match_inst.stage.pipe_valid && r_mod i.axis.m_tready p in
      moves see c (modified (mod_wires i p) p.mod_inst) ≡ moves see c p.match_inst.stage.pipe
orders_lem i p v =
    let t = p.match_inst in
    let with : Bool → Verdict.Beat → List Verdict.Beat =
      λ v b. if v && r_mod i.axis.m_tready p then b ∷ [] else [] in
    elim (Bool-cases t.stage.pipe_valid) [
      | inl on ↦
          ap (with t.stage.pipe_valid)
            (see-modified (mod_wires i p) p.mod_inst (v.mild (ap (λ c. c || not t.first_beat) on)))
      | inr off ↦
          ap (λ c. with c (see (modified (mod_wires i p) p.mod_inst))) off
          ∙ sym (ap (λ c. with c (see t.stage.pipe)) off)
    ]

pub edge_balance :
    (i : Inputs) (p : Pipeline)
    → IsTame p
    → i.axis.rst_n ≡ true
    → contents p ++ takes i p ≡ leaves i p ++ contents (posedge i p)
unfolding posedge s_tready udp_posedge tcp_posedge posedge_with MatchTable.posedge Modifier.posedge
    Stats.posedge Ethernet.posedge Vlan.posedge Ipv4Parser.posedge
edge_balance i p v on =
    let m = i.axis.m_tready in
    let p' = posedge i p in
    let eth = p.eth_inst.stage in
    let vlan = p.vlan_inst.stage in
    let ip = p.ip_inst.stage in
    let tcp = p.tcp_inst.stage in
    let mat = p.match_inst.stage in
    let mod_ = p.mod_inst.stage in
    let stats = p.stats_inst.stage in
    let flow = p.flow_inst.stage in
    let rst = i.axis.rst_n in
    let w = mod_wires i p in
    let o1 = moves see (eth.pipe_valid && r_eth m p) eth.pipe in
    let o2 = moves see (vlan.pipe_valid && r_vlan m p) vlan.pipe in
    let o3 = moves see (ip.pipe_valid && ready (r_match m p) tcp) ip.pipe in
    let o4 = moves see (tcp.pipe_valid && r_match m p) tcp.pipe in
    let o5 = moves see (mat.pipe_valid && r_mod m p) mat.pipe in
    let o6 = moves see (mod_.pipe_valid && r_stats m p) mod_.pipe in
    let o7 = moves see_stats (stats.pipe_valid && r_flow m p) stats.pipe in
    let e1 : held see eth ++ takes i p ≡ o1 ++ held see p'.eth_inst.stage =
      stage_balance see (record i.axis { m_tready = r_eth m p }) eth on in
    let e2 : held see vlan ++ o1 ≡ o2 ++ held see p'.vlan_inst.stage =
      stage_balance see (wires rst eth (r_vlan m p)) vlan on in
    let e3 : held see ip ++ o2 ≡ o3 ++ held see p'.ip_inst.stage =
      stage_balance see (wires rst vlan (r_ip m p)) ip on
      ∙ ap (λ c. moves see (ip.pipe_valid && c) ip.pipe ++ held see p'.ip_inst.stage)
          (r_ip_lem i p v) in
    let e4 : held see tcp ++ o3 ≡ o4 ++ held see p'.tcp_inst.stage =
      stage_balance see (wires rst ip (r_match m p)) tcp on in
    let e5 : held see mat ++ o4 ≡ o5 ++ held see p'.match_inst.stage =
      ap (◌++◌ (held see mat)) (sym (l4_lem i p v))
      ∙ stage_balance see (wires rst (l4 p) (r_mod m p)) mat on in
    let e6 : held see mod_ ++ o5 ≡ o6 ++ held see p'.mod_inst.stage =
      ap (◌++◌ (held see mod_)) (sym (orders_lem i p v))
      ∙ stage_balance see (record w.axis { s_data = modified w p.mod_inst }) mod_ on in
    let e7 : held see_stats stats ++ o6 ≡ o7 ++ held see_stats p'.stats_inst.stage =
      stage_balance see_stats (wires rst (d_mod p) (r_flow m p)) stats on in
    let e8 : held see flow ++ o7 ≡ leaves i p ++ held see p'.flow_inst.stage =
      stage_balance see (wires rst (d_stats p) m) flow on
      ∙ ap (λ r. leaves i p ++ held see r) (sym (flow_stage (flow_wires i p) p.flow_inst)) in
    let u2 = held see vlan ++ held see eth in
    let u3 = held see ip ++ u2 in
    let u4 = held see tcp ++ u3 in
    let u5 = held see mat ++ u4 in
    let u6 = held see mod_ ++ u5 in
    let u7 = held see_stats stats ++ u6 in
    let t = takes i p in
    let c2 = chain (held see eth) _ (held see vlan) _ t o1 o2 e1 e2 in
    let c3 = chain u2 _ (held see ip) _ t o2 o3 c2 e3 in
    let c4 = chain u3 _ (held see tcp) _ t o3 o4 c3 e4 in
    let c5 = chain u4 _ (held see mat) _ t o4 o5 c4 e5 in
    let c6 = chain u5 _ (held see mod_) _ t o5 o6 c5 e6 in
    let c7 = chain u6 _ (held see_stats stats) _ t o6 o7 c6 e7 in
    chain u7 _ (held see flow) _ t o7 (leaves i p) c7 e8
