-- ===== src/Bench/Flow/Passes.antt =====
-- The tests of tb_flow.cpp.
use Prim.{tt}
use fpga_network_processing.Base.{
  Bool, List, Option, [], ap, arith, if◌then◌else◌, length, none, refl, replicate, some, suc, true,
  zero, ℕ, ◌%◌, ◌&&◌, ◌+◌, ◌==◌, ◌^◌, ◌∙◌, ◌∷◌, ◌≡◌,
}
use fpga_network_processing.Pipeline.{Pipeline}
use fpga_network_processing.FlowTable.{Past}
use fpga_network_processing.Generator.Build.{PacketGen}
use fpga_network_processing.Bench.PipelineDriver.{Bus, same_size}
use fpga_network_processing.Bench.PipelineDriver.Session.{IsIdle, push_and_drain_lem}
use fpga_network_processing.Bench.PipelineDriver.Deliver.{reset-IsIdle, push_and_capture_lem}
use fpga_network_processing.Bench.Stress.Passes.{IsLong, udp-IsLong, AllBytes-replicate}
use fpga_network_processing.Bench.Flow.{
  drop_beat, push_and_drain, start, flow_packet, push_flows, ends, test_basic, test_multi_flow,
  test_packet, test_data_integrity, main,
}

flow-IsLong : (sport dport : ℕ) (g : PacketGen) → IsLong (flow_packet sport dport g).0
flow-IsLong sport dport g =
    udp-IsLong g 0xc0a80001 0xc0a80002 sport dport (replicate 10 120)
      (AllBytes-replicate 10 120 (omega arith))

abbrev drain_case : Option (Bus × Unit {0}) → Option Bus
drain_case o = elim o [ none ↦ none | some (s', u) ↦ some s' ]

abbrev flows_case : ℕ → ℕ → ℕ → ℕ → PacketGen → Option Bus → Option Bus
flows_case left step sport dport g o = elim o [
  | none ↦ none
  | some s' ↦ push_flows left step ((sport + step) % 2 ^ 16) ((dport + step) % 2 ^ 16) g s'
]

push_flows_lem :
    (left step sport dport : ℕ) (g : PacketGen) (s : Bus)
    → IsIdle s
    → (s' : Bus) × (push_flows left step sport dport g s ≡ some s') × IsIdle s'
unfolding push_flows push_and_drain
push_flows_lem zero step sport dport g s v = (s, refl, v)
push_flows_lem (suc left) step sport dport g s v =
    let (pkt, g') = flow_packet sport dport g in
    let long = flow-IsLong sport dport g in
    let (r, e, (idle, _)) = push_and_drain_lem drop_beat pkt s tt long.bytes v long.long in
    let (s', e', v') =
      push_flows_lem left step ((sport + step) % 2 ^ 16) ((dport + step) % 2 ^ 16) g' r.0 idle in
    (s', ap (flows_case left step sport dport g') (ap drain_case e) ∙ e', v')

ends_lem :
    (n step sport dport : ℕ) (d : Pipeline) (past : Past)
    → ends (push_flows n step sport dport (record { ip_id_counter = 0 }) (start d past)) ≡ some true
unfolding start
ends_lem n step sport dport d past =
    let (s', e, _) =
      push_flows_lem n step sport dport (record { ip_id_counter = 0 }) (start d past)
        (reset-IsIdle 3 d past) in
    ap ends e

test_packet-IsLong : IsLong test_packet
unfolding test_packet
test_packet-IsLong =
    udp-IsLong (record { ip_id_counter = 0 }) 0xc0a80001 0xc0a80002 53 1234
      (84 ∷ 101 ∷ 115 ∷ 116 ∷ []) (omega arith)

integrity_lem : (d : Pipeline) (past : Past) → test_data_integrity d past ≡ some true
unfolding test_data_integrity start
integrity_lem d past =
    let long = test_packet-IsLong in
    let (s, e, _) =
      push_and_capture_lem test_packet (start d past) long.bytes (reset-IsIdle 3 d past)
        long.long in
    let verdict : Option (Bus × List ℕ) → Option Bool =
      λ o. elim o [ none ↦ none | some (s, rx) ↦ some (same_size rx test_packet) ] in
    let equal : (n : ℕ) → (n == n) ≡ true = λ n. ground arith in
    ap verdict e ∙ ap some (equal (length test_packet))

-- Whatever the registers of its devices held before their resets, the flow testbench ends and
-- returns 0.
pub flow_passes : (d1 d2 d3 : Pipeline) (past : Past) → main d1 d2 d3 past ≡ some 0
unfolding main test_basic test_multi_flow
flow_passes d1 d2 d3 past =
    let third : Bool → Bool → Option Bool → Option ℕ =
      λ a b o. elim o [ none ↦ none | some c ↦ some (if a && b && c then 0 else 1) ] in
    let second : Bool → Option Bool → Option ℕ =
      λ a o. elim o [ none ↦ none | some b ↦ third a b (test_multi_flow d3 past) ] in
    let first : Option Bool → Option ℕ =
      λ o. elim o [ none ↦ none | some a ↦ second a (test_basic d2 past) ] in
    ap first (integrity_lem d1 past)
    ∙ ap (second true) (ends_lem 5 0 53 1234 d2 past)
    ∙ ap (third true true) (ends_lem 20 1 100 200 d3 past)
