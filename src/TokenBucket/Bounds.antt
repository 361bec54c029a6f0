-- ===== src/TokenBucket/Bounds.antt =====
-- The registers of token_bucket.sv against the configuration.
use fpga_network_processing.Base.{arith, ◌≤◌}
use fpga_network_processing.TokenBucket.{TokenBucket, Config, Inputs, posedge}

pub record IsBounded (cfg : Config) (b : TokenBucket) : Type 0 where
  pub tokens_in : b.tokens ≤ cfg.cfg_burst
  pub timer_in : b.timer ≤ cfg.cfg_interval

-- Under a configuration that does not change, every edge, with reset or without, with a packet or
-- without, keeps the tokens at most the burst and the timer at most the interval.
pub posedge-IsBounded :
    (i : Inputs) (b : TokenBucket) → IsBounded i.cfg b → IsBounded i.cfg (posedge i b)
unfolding posedge
posedge-IsBounded i b v = ground arith
