-- ===== src/Bench/RateLimiter/Tests.antt =====
-- The tests of tb_rate_limiter.cpp, from any registers.
use fpga_network_processing.Base.{ap₂, if◌then◌else◌, refl, some, true, ◌&&◌, ◌≡◌}
use fpga_network_processing.TokenBucket
use fpga_network_processing.TokenBucket.{TokenBucket, pkt_allow}
use fpga_network_processing.Bench.Clock.{tick, ticks, drive}
use fpga_network_processing.Bench.RateLimiter.{test_basic, test_drop_on_empty, main}

basic_passes : (dut : TokenBucket) → test_basic dut ≡ true
unfolding test_basic TokenBucket.posedge ticks drive tick pkt_allow
basic_passes dut = refl

-- The second packet is the one dropped.
drop_on_empty_run : (dut : TokenBucket) → test_drop_on_empty dut ≡ (some 1, true)
unfolding test_drop_on_empty TokenBucket.posedge ticks drive tick pkt_allow
drop_on_empty_run dut = refl

rate_limiter_passes : (d1 d2 : TokenBucket) → main d1 d2 ≡ 0
unfolding main
rate_limiter_passes d1 d2 =
    ap₂ (λ a r. if a && r.1 then 0 else 1) (basic_passes d1) (drop_on_empty_run d2)
