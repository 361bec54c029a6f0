-- ===== src/Bench/Stress/Tests.antt =====
-- tb_stress.cpp on devices with all registers 0.
use fpga_network_processing.Base.{some, ◌≡◌}
use fpga_network_processing.Pipeline.Blank.{blank, no_past}
use fpga_network_processing.Bench.Stress.{main}
use fpga_network_processing.Bench.Stress.Passes.{stress_passes}

stress_passes_example : main blank blank blank blank no_past ≡ some 0
stress_passes_example = stress_passes blank blank blank blank no_past
