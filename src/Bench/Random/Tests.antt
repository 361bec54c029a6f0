-- ===== src/Bench/Random/Tests.antt =====
-- tb_random.cpp on two packets.
use fpga_network_processing.Base.{[], some, ℕ, ◌∷◌, ◌≡◌}
use fpga_network_processing.Pipeline.Blank.{blank, no_past}
use fpga_network_processing.Bench.Random.{Draws, main}
use fpga_network_processing.Bench.Random.Passes.{random_passes}

abbrev drawn : ℕ → Draws
drawn kind = record {
  type = kind;
  len = 10;
  byte = λ i. i;
  ip1 = 0xc0a80001;
  ip2 = 0xc0a800ff;
  port1 = 1024;
  port2 = 65535;
}

random_passes_example : main blank no_past (drawn 1 ∷ drawn 2 ∷ []) ≡ some 0
random_passes_example = random_passes blank no_past (drawn 1 ∷ drawn 2 ∷ [])
