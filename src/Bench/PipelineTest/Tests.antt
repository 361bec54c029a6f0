-- ===== src/Bench/PipelineTest/Tests.antt =====
-- tb_pipeline.cpp on devices with all registers 0.
use fpga_network_processing.Base.{[], arith, ◌∷◌, ◌≡◌}
use fpga_network_processing.Pipeline.Blank.{blank, no_past}
use fpga_network_processing.Bench.PipelineDriver.Deliver.{reset-IsIdle}
use fpga_network_processing.Bench.PipelineDriver.{reset, new_sim}
use fpga_network_processing.Bench.PipelineTest.{push_one}
use fpga_network_processing.Bench.PipelineTest.Capture.{push_one_lem}

push_one_lem_example : (push_one (reset 4 (new_sim blank no_past)) (7 ∷ []) 8).1 ≡ 7 ∷ []
push_one_lem_example =
    push_one_lem (7 ∷ []) (reset 4 (new_sim blank no_past)) (omega arith)
      (reset-IsIdle 3 blank no_past) (omega arith)
