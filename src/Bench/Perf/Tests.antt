-- ===== src/Bench/Perf/Tests.antt =====
-- tb_perf.cpp on a device with all registers 0, with a number type for the `double`s.
use fpga_network_processing.Base.{
  List, [], arith, false, if◌then◌else◌, length, ltb, replicate, some, ℕ, ◌*◌, ◌/◌, ◌<◌, ◌==◌, ◌^◌,
  ◌∷◌, ◌≡◌,
}
use mathlib.Core.List.{map}
use fpga_network_processing.Pipeline.Blank.{blank, no_past}
use fpga_network_processing.Bench.PipelineDriver
use fpga_network_processing.Bench.PipelineDriver.Session.{beats, IsIdle}
use fpga_network_processing.Bench.PipelineDriver.Deliver.{reset-IsIdle}
use fpga_network_processing.Bench.Perf.{Sim, measure_cycles}
use fpga_network_processing.Bench.Perf.Measure.{cycles_of, measure_cycles_lem}
use fpga_network_processing.Bench.Perf.Report.{Double, main, mixed_result, new_sim}
use fpga_network_processing.Bench.Perf.Runs.{row_of}
use fpga_network_processing.Bench.Perf.Reported.{main_reports}

-- Whole numbers, rounded down.
instance abbrev whole : Double ℕ
whole = record {
  of_uint = λ n. n;
  times = ◌*◌;
  over = λ a b. if b == 0 then 0 else a / b;
  gt = λ a b. ltb b a;
  nought = 0;
  eight = 8;
  clock_rate = 156250000;
  mega = 1000000;
  giga = 1000000000;
}

-- 64 bytes: as many beats as the pipeline has stages.
abbrev packet : List ℕ
packet = replicate 64 7

abbrev idle : Sim
idle = record { bus = PipelineDriver.reset 4 (PipelineDriver.new_sim blank no_past); cycles = 5 }

measure_cycles_lem_example :
    (s' : Sim) × (measure_cycles idle packet 8 3
      ≡ some (s', cycles_of (length (beats packet)) 64 3))
    × IsIdle s'.bus
    × (s'.bus.ports.s_tvalid ≡ false)
    × (s'.cycles < 2 ^ 64)
measure_cycles_lem_example =
    measure_cycles_lem idle packet 2 (omega arith) (reset-IsIdle 3 blank no_past) (omega arith)
      (omega arith)

main_reports_example :
    main {W = ℕ} (new_sim blank no_past) (record { ip_id_counter = 9 })
    ≡ some (record {
      table = map row_of (64 ∷ 256 ∷ 512 ∷ 1518 ∷ 76 ∷ []);
      mixed = mixed_result 101007 1000 797000;
      csv = map row_of (64 ∷ 256 ∷ 512 ∷ 1518 ∷ 64 ∷ []);
    })
main_reports_example = main_reports blank no_past (record { ip_id_counter = 9 })
