-- ===== src/Bench/PipelineDriver/Tests.antt =====
-- A packet through parser_pipeline.sv.
use fpga_network_processing.Base.{List, arith, replicate, some, ℕ, ◌≡◌}
use fpga_network_processing.Pipeline.Blank.{blank, no_past}
use fpga_network_processing.Bench.PipelineDriver.{Bus, reset, new_sim, push_and_capture}
use fpga_network_processing.Bench.PipelineDriver.Session.{IsIdle}
use fpga_network_processing.Bench.PipelineDriver.Deliver.{reset-IsIdle, push_and_capture_lem}

-- 41 bytes: the fewest that the loop waits for.
abbrev packet : List ℕ
packet = replicate 41 7

push_and_capture_lem_example :
    (s' : Bus) × (push_and_capture (reset 4 (new_sim blank no_past)) packet 8 ≡ some (s', packet))
    × IsIdle s'
push_and_capture_lem_example =
    push_and_capture_lem packet (reset 4 (new_sim blank no_past)) (omega arith)
      (reset-IsIdle 3 blank no_past) (omega arith)
