-- ===== src/Bench/CrcTest/Tests.antt =====
-- The tests of tb_crc.cpp, from any registers.
use fpga_network_processing.Base.{
  [], ap₂, arith, if◌then◌else◌, refl, true, ◌&&◌, ◌++◌, ◌==◌, ◌∷◌, ◌≡◌,
}
use fpga_network_processing.Crc
use fpga_network_processing.Crc.{Crc, crc_next, next_bits, next_bit}
use fpga_network_processing.Bench.Clock.{tick, ticks, drive}
use fpga_network_processing.Monitor.Crc.{crc32}
use fpga_network_processing.Crc.Equivalence.{le_bytes}
use fpga_network_processing.Bench.CrcTest.Verdict.{test_words, bytes_of, test_words_lem}
use fpga_network_processing.Bench.CrcTest.{test_known_vector, test_single_word, main}

known_vector_passes : (dut : Crc) → test_known_vector dut ≡ true
unfolding test_known_vector Crc.posedge crc_next next_bits next_bit ticks drive tick
known_vector_passes dut = refl

single_word_passes : (dut : Crc) → test_single_word dut ≡ true
unfolding test_single_word Crc.posedge crc_next next_bits next_bit ticks drive tick
single_word_passes dut = refl

abbrev stale : Crc
stale = record { crc_state = 5; crc_out = 6; crc_valid = true }

test_words_lem_example :
    test_words stale (0x34333231 ∷ []) 0x38373635 0x9ae0daaf
    ≡ (crc32 (bytes_of (0x34333231 ∷ []) ++ le_bytes 4 0x38373635) == 0x9ae0daaf)
test_words_lem_example =
    test_words_lem stale (0x34333231 ∷ []) 0x38373635 0x9ae0daaf (omega arith) (omega arith)

crc_passes : (d1 d2 : Crc) → main d1 d2 ≡ 0
unfolding main
crc_passes d1 d2 =
    ap₂ (λ a b. if a && b then 0 else 1) (known_vector_passes d1) (single_word_passes d2)
