-- ===== src/Bench/RateLimiter.antt =====
-- sim/testbenches/tb_rate_limiter.cpp: its `Sim` and its two tests. What goes to `std::cout` is left
-- out. `pkt_allow` is read after the edge, so it is a function of the registers after it.
mod Tests
use fpga_network_processing.Base.{
  Bool, Option, false, if◌then◌else◌, none, some, suc, true, zero, ℕ, ◌&&◌, ◌+◌,
}
use fpga_network_processing.TokenBucket
use fpga_network_processing.TokenBucket.{TokenBucket, Config, Inputs, pkt_allow}
use fpga_network_processing.Bench.Clock.{Sim, pre, post, tick, ticks, drive}

abbrev pub Limiter : Type 0
Limiter = Sim TokenBucket Inputs

-- `Sim sim;` and the configuration that a test sets before the reset.
abbrev pub new_limiter : TokenBucket → ℕ → ℕ → ℕ → Limiter
new_limiter dut rate burst interval = record {
  dut = dut;
  ports = record {
    rst_n = false;
    pkt_valid = false;
    pkt_length = 0;
    cfg = record { cfg_rate = rate; cfg_burst = burst; cfg_interval = interval };
  };
  clk = false;
}

unfoldable pub reset : Limiter → Limiter
reset s =
    let low = ticks TokenBucket.posedge 4 (record s { ports = record s.ports { rst_n = false } }) in
    tick TokenBucket.posedge (record low { ports = record low.ports { rst_n = true } })

-- A cycle in which a packet arrives, and one without.
unfoldable pub send : ℕ → Limiter → Limiter
send len s = drive TokenBucket.posedge (λ p. record p { pkt_valid = true; pkt_length = len }) s

unfoldable pub rest : Limiter → Limiter
rest s = drive TokenBucket.posedge (λ p. record p { pkt_valid = false }) s

unfoldable pub rest_for : ℕ → Limiter → Limiter
unfolding rest
rest_for zero s = s
rest_for (suc n) s = rest_for n (rest s)

abbrev pub allowed : Limiter → Bool
allowed s = pkt_allow s.ports s.dut

unfoldable pub test_basic : TokenBucket → Bool
unfolding reset send rest_for
test_basic dut =
    let first = send 5000 (reset (new_limiter dut 1000 10000 1)) in
    let second = send 500 (rest_for 5 first) in allowed first && allowed second

-- The loop of `test_drop_on_empty` from round `i` on: the packet that was dropped, if any.
unfoldable pub first_drop : ℕ → ℕ → Limiter → Option ℕ
unfolding send rest
first_drop zero i s = none
first_drop (suc left) i s =
    let sent = send 5 s in
    elim (allowed sent) [ false ↦ some i | true ↦ first_drop left (i + 1) (rest sent) ]

unfoldable pub test_drop_on_empty : TokenBucket → Option ℕ × Bool
unfolding reset first_drop
test_drop_on_empty dut = (first_drop 20 0 (reset (new_limiter dut 1 10 1)), true)

-- The exit code; each test has a new device.
unfoldable pub main : TokenBucket → TokenBucket → ℕ
unfolding test_basic test_drop_on_empty
main d1 d2 = if test_basic d1 && (test_drop_on_empty d2).1 then 0 else 1
