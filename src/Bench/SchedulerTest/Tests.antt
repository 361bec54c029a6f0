-- ===== src/Bench/SchedulerTest/Tests.antt =====
-- tb_scheduler.cpp on a device with empty registers.
use fpga_network_processing.Base.{List, arith, false, none, replicate, some, true, ℕ, ◌≡◌}
use fpga_network_processing.Scheduler.{Scheduler}
use fpga_network_processing.Bench.FifoDriver.{AxisBeat}
use fpga_network_processing.Bench.SchedulerTest.{Bus, start, push_packet, drain_one}
use fpga_network_processing.Bench.SchedulerTest.Cases.{
  test_strict_priority, test_wrr_order, test_multi_queue,
}
use fpga_network_processing.Bench.SchedulerTest.Drain.{drain_one-push_packet}
use fpga_network_processing.Bench.SchedulerTest.Start.{IsPushing-start}
use fpga_network_processing.Bench.SchedulerTest.Hangs.{tests_outcome}

abbrev blank : Scheduler AxisBeat
blank = record {
  gen_fifos = λ q. record {
    ram = λ a. record { tdata = replicate 16 0; tkeep = 0; tlast = false };
    wr_ptr = 0;
    rd_ptr = 0;
    m_tvalid = false;
  };
  arb_state = 0;
  wrr_count = λ q. 0;
}

abbrev packet : List ℕ
packet = replicate 20 5

drain_one-push_packet_example :
    (s' : Bus) × (push_packet 1 (start blank) packet 8 3 ≡ some s') × ((drain_one s' 8).1 ≡ packet)
drain_one-push_packet_example =
    drain_one-push_packet 0 (start blank) packet 3 (omega arith) (IsPushing-start blank)
      (omega arith) (omega arith)

tests_outcome_example :
    (test_strict_priority 50 blank ≡ none)
    × (test_wrr_order 51 blank ≡ some true)
    × (test_multi_queue 50 blank ≡ none)
tests_outcome_example = tests_outcome 50 blank
