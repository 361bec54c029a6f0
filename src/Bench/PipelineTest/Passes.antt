-- ===== src/Bench/PipelineTest/Passes.antt =====
-- The tests of tb_pipeline.cpp.
use fpga_network_processing.Base.{
  Bool, List, [], ap, ap₂, arith, if◌then◌else◌, length, true, ℕ, ◌&&◌, ◌==◌, ◌∙◌, ◌∷◌, ◌≡◌,
}
use fpga_network_processing.Generator.Build.{PacketGen}
use fpga_network_processing.Generator.Carries.{AllBytes}
use fpga_network_processing.Pipeline.{Pipeline}
use fpga_network_processing.FlowTable.{Past}
use fpga_network_processing.Bench.Stress.Passes.{IsLong, udp-IsLong, tcp-IsLong, arp-IsLong}
use fpga_network_processing.Bench.PipelineDriver.Deliver.{reset-IsIdle}
use fpga_network_processing.Bench.PipelineTest.{
  start, goes_through, new_gen, src_ip, dst_ip, udp, tcp, arp, test_udp, test_tcp, test_arp,
  test_dns, test_http, test_multi, main,
}
use fpga_network_processing.Bench.PipelineTest.Capture.{push_one_lem}

goes_through_lem :
    (d : Pipeline) (past : Past) (pkt : List ℕ) → IsLong pkt → goes_through d past pkt ≡ true
unfolding goes_through start
goes_through_lem d past pkt v =
    ap (λ rx. length rx == length pkt)
      (push_one_lem pkt (start d past) v.bytes (reset-IsIdle 3 d past) (omega (arith, v.long)))
    ∙ equal (length pkt)
  where
    equal : (n : ℕ) → (n == n) ≡ true
    equal n = ground arith

udp_lem :
    (d : Pipeline) (past : Past) (g : PacketGen) (sport dport : ℕ) (payload : List ℕ)
    → AllBytes payload
    → goes_through d past (udp g sport dport payload).0 ≡ true
udp_lem d past g sport dport payload h =
    goes_through_lem d past (udp g sport dport payload).0
      (udp-IsLong g src_ip dst_ip sport dport payload h)

tcp_lem :
    (d : Pipeline) (past : Past) (g : PacketGen) (sport dport : ℕ) (payload : List ℕ)
    → AllBytes payload
    → goes_through d past (tcp g sport dport payload).0 ≡ true
tcp_lem d past g sport dport payload h =
    goes_through_lem d past (tcp g sport dport payload).0
      (tcp-IsLong g src_ip dst_ip sport dport payload h)

arp_lem : (d : Pipeline) (past : Past) → goes_through d past arp ≡ true
arp_lem d past = goes_through_lem d past arp (arp-IsLong src_ip dst_ip)

test_multi_lem : (du dt da : Pipeline) (past : Past) → test_multi du dt da past ≡ true
unfolding test_multi
test_multi_lem du dt da past =
    let dns : List ℕ = 68 ∷ 78 ∷ 83 ∷ [] in
    let http : List ℕ = 72 ∷ 84 ∷ 84 ∷ 80 ∷ [] in
    ap₂ ◌&&◌
      (ap₂ ◌&&◌ (udp_lem du past new_gen 53 1234 dns (omega arith))
        (tcp_lem dt past (udp new_gen 53 1234 dns).1 80 55555 http (omega arith)))
      (arp_lem da past)

-- Whatever the registers of its devices held before their resets, the pipeline testbench returns
-- 0.
pub pipeline_passes : (d : ℕ → Pipeline) (past : Past) → main d past ≡ 0
unfolding main test_udp test_tcp test_arp test_dns test_http
pipeline_passes d past =
    let exit_code : Bool → ℕ = λ c. if c then 0 else 1 in
    let http = tcp_lem (d 4) past new_gen 55555 80 (72 ∷ 84 ∷ 84 ∷ 80 ∷ []) (omega arith) in
    let dns = udp_lem (d 3) past new_gen 1234 53 (68 ∷ 78 ∷ 83 ∷ []) (omega arith) in
    let hi = udp_lem (d 1) past new_gen 1234 80 (72 ∷ 105 ∷ []) (omega arith) in
    let data_ = tcp_lem (d 0) past new_gen 4321 443 (100 ∷ 97 ∷ 116 ∷ 97 ∷ []) (omega arith) in
    let multi = test_multi_lem (d 5) (d 6) (d 7) past in
    ap exit_code (
      ap₂ ◌&&◌ (ap₂ ◌&&◌ (ap₂ ◌&&◌ (ap₂ ◌&&◌ (ap₂ ◌&&◌ data_ hi) (arp_lem (d 2) past)) dns) http)
        multi)
