-- ===== src/Bench/FifoTest/Tests.antt =====
-- The theorems on the tests of tb_axis_fifo.cpp at concrete inputs, and the flags it prints.
use fpga_network_processing.Base.{
  Bool, Option, [], ap, arith, false, if◌then◌else◌, none, refl, some, true, ℕ, ◌&&◌, ◌*◌, ◌∙◌, ◌∷◌,
  ◌≡◌,
}
use fpga_network_processing.Fifo.{Fifo, posedge, ptr_diff, empty, full}
use fpga_network_processing.Monitor.Scoreboard.{PacketMon, pending}
use fpga_network_processing.Bench.Words.{vlwide_set_bytes, vlwide_get_bytes, get-set_bytes}
use fpga_network_processing.Bench.FifoDriver.{AxisBeat}
use fpga_network_processing.Bench.FifoTest.{session, test_fifo_flags, test_fifo_backpressure, main}
use fpga_network_processing.Bench.FifoTest.Basic.{test_fifo_basic_lem}
use fpga_network_processing.Bench.FifoTest.Session.{session_lem}
use fpga_network_processing.Bench.FifoTest.Backpressure.{test_fifo_backpressure_lem}

abbrev no_beat : AxisBeat
no_beat = record { tdata = []; tkeep = 0; tlast = false }

-- Registers as they may be before a reset.
abbrev arbitrary : Fifo AxisBeat
arbitrary = record { ram = λ j. no_beat; wr_ptr = 9; rd_ptr = 30; m_tvalid = true }

get-set_bytes_example :
    vlwide_get_bytes (vlwide_set_bytes (7 ∷ 8 ∷ []) (1 ∷ 2 ∷ 3 ∷ 4 ∷ 5 ∷ [])) 5
    ≡ 1 ∷ 2 ∷ 3 ∷ 4 ∷ 5 ∷ []
get-set_bytes_example =
    get-set_bytes (7 ∷ 8 ∷ []) (1 ∷ 2 ∷ 3 ∷ 4 ∷ 5 ∷ []) (omega arith) (omega arith)

session_lem_example :
    (m : PacketMon) × (session arbitrary ((1 ∷ 2 ∷ 3 ∷ []) ∷ (4 ∷ []) ∷ []) ≡ some m)
    × (m.pkt_count ≡ 2)
    × (m.error_count ≡ 0)
    × (pending m ≡ 0)
session_lem_example = session_lem arbitrary ((1 ∷ 2 ∷ 3 ∷ []) ∷ (4 ∷ []) ∷ []) (omega arith)

test_fifo_backpressure_lem_example : test_fifo_backpressure (λ i. i * 123) arbitrary ≡ some true
test_fifo_backpressure_lem_example = test_fifo_backpressure_lem (λ i. i * 123) arbitrary

-- Empty with nothing used, then not empty with one entry, then empty again.
flags_run :
    (dut : Fifo AxisBeat)
    → test_fifo_flags dut ≡ ((true, false, 0), (false, false, 1), (true, false, 0), true)
unfolding test_fifo_flags posedge ptr_diff empty full
flags_run dut = refl

fifo_passes : (rand : ℕ → ℕ) (d1 d2 d3 : Fifo AxisBeat) → main rand d1 d2 d3 ≡ some 0
unfolding main
fifo_passes rand d1 d2 d3 =
    ap
      (λ (o : Option Bool). elim o [
        | none ↦ none
        | some a ↦ elim (test_fifo_backpressure rand d3) [
          | none ↦ none
          | some c ↦ some (if a && (test_fifo_flags d2).3 && c then 0 else 1)
        ]
      ])
      (test_fifo_basic_lem d1)
    ∙ ap
        (λ (o : Option Bool). elim o [
          | none ↦ none
          | some c ↦ some (if (test_fifo_flags d2).3 && c then 0 else 1)
        ])
        (test_fifo_backpressure_lem rand d3)
    ∙ ap (λ r. some (if r.3 && true then 0 else 1)) (flags_run d2)
