-- ===== src/Bench/MatchAction/Passes.antt =====
-- The tests of tb_match_action.cpp.
use fpga_network_processing.Base.{
  Bool, List, Option, [], ap, arith, if◌then◌else◌, length, none, some, true, ℕ, ◌==◌, ◌∙◌, ◌∷◌,
  ◌≡◌,
}
use fpga_network_processing.Pipeline.{Pipeline}
use fpga_network_processing.FlowTable.{Past}
use fpga_network_processing.Bench.PipelineDriver.{Bus, same_size}
use fpga_network_processing.Bench.PipelineDriver.Deliver.{reset-IsIdle, push_and_capture_lem}
use fpga_network_processing.Bench.Stress.Passes.{IsLong, udp-IsLong}
use fpga_network_processing.Bench.MatchAction.{start, test_packet, test_data_integrity, main}

test_packet-IsLong : IsLong test_packet
unfolding test_packet
test_packet-IsLong =
    udp-IsLong (record { ip_id_counter = 0 }) 0xc0a80001 0xc0a80002 1234 53
      (84 ∷ 101 ∷ 115 ∷ 116 ∷ []) (omega arith)

-- The match-action testbench ends and returns 0, whatever the registers held before the reset.
pub match_action_passes : (d : Pipeline) (past : Past) → main d past ≡ some 0
unfolding main test_data_integrity start
match_action_passes d past =
    let long = test_packet-IsLong in
    let (s, e, _) =
      push_and_capture_lem test_packet (start d past) long.bytes (reset-IsIdle 3 d past)
        long.long in
    let verdict : Option (Bus × List ℕ) → Option ℕ = λ o.
      let passed : Option Bool = elim o [
        | none ↦ none
        | some (s, rx) ↦ some (same_size rx test_packet)
      ] in
      elim passed [ none ↦ none | some pass ↦ some (if pass then 0 else 1) ] in
    let equal : (n : ℕ) → (n == n) ≡ true = λ n. ground arith in
    ap verdict e ∙ ap (λ (c : Bool). some (if c then 0 else 1)) (equal (length test_packet))
