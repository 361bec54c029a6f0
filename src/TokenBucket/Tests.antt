-- ===== src/TokenBucket/Tests.antt =====
-- The theorems on token_bucket.sv at concrete inputs.
use fpga_network_processing.Base.{List, [], arith, false, true, ◌+◌, ◌∷◌, ◌≤◌}
use fpga_network_processing.TokenBucket.{TokenBucket, Config, posedge}
use fpga_network_processing.TokenBucket.Bounds.{IsBounded, posedge-IsBounded}
use fpga_network_processing.TokenBucket.Rate.{Arrival, arrives, run, accepted, accepted-le}

abbrev cfg : Config
cfg = record { cfg_rate = 10; cfg_burst = 100; cfg_interval = 1 }

abbrev bucket : TokenBucket
bucket = record { tokens = 100; timer = 0 }

bucket-IsBounded : IsBounded cfg bucket
bucket-IsBounded = record { tokens_in = omega arith; timer_in = omega arith }

abbrev arrivals : List Arrival
arrivals = (true, 60) ∷ (true, 60) ∷ (false, 0) ∷ (true, 45) ∷ []

posedge-IsBounded_example : IsBounded cfg (posedge (arrives cfg (true, 60)) bucket)
posedge-IsBounded_example = posedge-IsBounded (arrives cfg (true, 60)) bucket bucket-IsBounded

-- Four edges are two periods.
accepted-le_example : accepted cfg arrivals bucket + (run cfg arrivals bucket).tokens ≤ 120
accepted-le_example = accepted-le cfg arrivals bucket 2 bucket-IsBounded (omega arith) (omega arith)
