-- ===== src/Bench/CrcTest.antt =====
-- sim/testbenches/tb_crc.cpp: its `Sim` and its two tests. What goes to `std::cout` is left out.
pub mod Verdict
mod Tests
use fpga_network_processing.Base.{Bool, bit_or, false, if◌then◌else◌, true, ℕ, ◌&&◌, ◌*◌, ◌==◌, ◌^◌}
use fpga_network_processing.Crc
use fpga_network_processing.Crc.{Crc, Inputs}
use fpga_network_processing.Bench.Clock.{Sim, pre, post, tick, ticks, drive}

abbrev pub Checker : Type 0
Checker = Sim Crc Inputs

-- `Sim sim;`
abbrev pub new_checker : Crc → Checker
new_checker dut = record {
  dut = dut;
  ports = record { rst_n = false; data_in = 0; data_valid = false; data_last = false };
  clk = false;
}

unfoldable pub reset : Checker → Checker
reset s =
    let low = ticks Crc.posedge 4 (record s { ports = record s.ports { rst_n = false } }) in
    tick Crc.posedge (record low { ports = record low.ports { rst_n = true } })

-- A cycle that brings a word.
unfoldable pub send : ℕ → Bool → Checker → Checker
send word last s =
    drive Crc.posedge (λ p. record p { data_in = word; data_valid = true; data_last = last }) s

-- The end of a test: the checksum is read in this cycle or the next, and compared.
unfoldable pub verdict : ℕ → Checker → Bool
verdict expected s =
    let low = pre Crc.posedge s in
    let low' = record low { ports = record low.ports { data_valid = false } } in
    let next = pre Crc.posedge (post Crc.posedge low') in
    if low'.dut.crc_valid
    then low'.dut.crc_out == expected
    else if next.dut.crc_valid
    then next.dut.crc_out == expected
    else false

-- `'1' | ('2' << 8) | ('3' << 16) | ('4' << 24)`
abbrev pub word_of : ℕ → ℕ → ℕ → ℕ → ℕ
word_of a b c d = bit_or (bit_or (bit_or a (b * 2 ^ 8)) (c * 2 ^ 16)) (d * 2 ^ 24)

unfoldable pub test_known_vector : Crc → Bool
unfolding reset send verdict
test_known_vector dut =
    let s = reset (new_checker dut) in
    let ready = record s { ports = record s.ports { data_valid = false } } in
    verdict 0x9ae0daaf (send (word_of 53 54 55 56) true (send (word_of 49 50 51 52) false ready))

unfoldable pub test_single_word : Crc → Bool
unfolding reset send verdict
test_single_word dut =
    let s = reset (new_checker dut) in
    let ready = record s { ports = record s.ports { data_valid = false } } in
    verdict 0x9be3e0a3 (send (word_of 49 50 51 52) true ready)

-- The exit code; each test has a new device.
unfoldable pub main : Crc → Crc → ℕ
unfolding test_known_vector test_single_word
main d1 d2 = if test_known_vector d1 && test_single_word d2 then 0 else 1
