-- ===== src/Monitor/Crc.antt =====
-- `PacketMon::crc32` of sim/packet_monitors/packet_mon.h. The pointer and the length of the C++
-- function are one list of bytes.
use fpga_network_processing.Base.{List, [], bit_and, bit_xor, get_or, ℕ, ◌/◌, ◌^◌, ◌∷◌}
use fpga_network_processing.Monitor.Table.{crc32_table}

-- The body of the loop over the bytes.
unfoldable pub crc32_round : ℕ → ℕ → ℕ
crc32_round crc b = bit_xor (get_or crc32_table (bit_and (bit_xor crc b) 0xff) 0) (crc / 2 ^ 8)

unfoldable pub crc32_loop : ℕ → List ℕ → ℕ
crc32_loop crc [] = crc
crc32_loop crc (b ∷ bs) = crc32_loop (crc32_round crc b) bs

unfoldable pub crc32 : List ℕ → ℕ
crc32 bytes = bit_xor (crc32_loop 0xffffffff bytes) 0xffffffff
