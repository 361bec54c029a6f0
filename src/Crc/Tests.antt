-- ===== src/Crc/Tests.antt =====
-- The vectors of sim/testbenches/tb_crc.cpp, and the theorems at concrete inputs.
use fpga_network_processing.Base.{[], arith, false, get_or, refl, true, ℕ, ◌∷◌, ◌≡◌}
use fpga_network_processing.Monitor.Table.{crc32_table}
use fpga_network_processing.Monitor.Crc.{crc32_round, crc32_loop, crc32}
use fpga_network_processing.Crc.{Crc, Inputs, next_bit, next_bits, crc_next, posedge}
use fpga_network_processing.Crc.Poly.{shift}
use fpga_network_processing.Crc.Equivalence.{crc32_table-shift}
use fpga_network_processing.Crc.Stream.{run, ends_with, run-crc32}

abbrev ready : Crc
ready = record { crc_state = 0xffffffff; crc_out = 0; crc_valid = false }

abbrev word : ℕ → Inputs
word w = record { rst_n = true; data_in = w; data_valid = true; data_last = false }

abbrev idle : Inputs
idle = record { rst_n = true; data_in = 0x55; data_valid = false; data_last = true }

-- "12345678" in two words.
known_vector :
    run (word 0x34333231 ∷ ends_with 0x38373635 ∷ []) ready
    ≡ record { crc_state = 0xffffffff; crc_out = 0x9ae0daaf; crc_valid = true }
unfolding run posedge crc_next next_bits next_bit
known_vector = refl

-- "1234" in one word, by the software.
single_word : crc32 (0x31 ∷ 0x32 ∷ 0x33 ∷ 0x34 ∷ []) ≡ 0x9be3e0a3
unfolding crc32 crc32_loop crc32_round crc32_table
single_word = refl

crc32_table-shift_example : get_or crc32_table 77 0 ≡ shift 8 77
crc32_table-shift_example = crc32_table-shift 77 (omega arith)

run-crc32_example : run (word 0x34333231 ∷ idle ∷ ends_with 0x38373635 ∷ []) ready ≡ record {
  crc_state = 0xffffffff;
  crc_out = crc32 (0x31 ∷ 0x32 ∷ 0x33 ∷ 0x34 ∷ 0x35 ∷ 0x36 ∷ 0x37 ∷ 0x38 ∷ []);
  crc_valid = true;
}
run-crc32_example =
    run-crc32 (word 0x34333231 ∷ idle ∷ []) 0x38373635 ready refl
      ((refl, refl, omega arith), ((refl, refl, omega arith), tt)) (omega arith)
