-- ===== src/Monitor/Scoreboard.antt =====
-- `PacketMon` of sim/packet_monitors/packet_mon.h: the beats received so far, the last packet, the
-- expected packets (front first) and the two counts. What goes to `std::cerr` is left out.
use fpga_network_processing.Base.{
  Bool, List, [], bit_or, false, get_or, if◌then◌else◌, leb, length, ltb, not, take, true, ℕ, ◌%◌,
  ◌&&◌, ◌*◌, ◌++◌, ◌+◌, ◌-◌, ◌==◌, ◌^◌, ◌∷◌,
}
use fpga_network_processing.Monitor.Crc.{crc32}

pub record PacketMon : Type 0 where
  pub rx_beats : List ℕ
  pub rx_bytes : List ℕ
  pub expected : List (List ℕ)
  pub pkt_count : ℕ
  pub error_count : ℕ

-- `operator==` of vectors of bytes.
unfoldable pub bytes_eq : List ℕ → List ℕ → Bool
bytes_eq [] [] = true
bytes_eq [] (y ∷ ys) = false
bytes_eq (x ∷ xs) [] = false
bytes_eq (x ∷ xs) (y ∷ ys) = x == y && bytes_eq xs ys

-- `expected_` is kept.
unfoldable pub reset : PacketMon → PacketMon
reset m = record m { rx_beats = []; rx_bytes = []; pkt_count = 0; error_count = 0 }

unfoldable pub expect : List ℕ → PacketMon → PacketMon
expect packet m = record m { expected = m.expected ++ packet ∷ [] }

abbrev pub pending : PacketMon → ℕ
pending m = length m.expected

-- The last four bytes, highest first.
unfoldable pub stored_crc : List ℕ → ℕ
stored_crc pkt =
    let n = length pkt in
    bit_or
      (bit_or (bit_or (get_or pkt (n - 4) 0 * 2 ^ 24 % 2 ^ 32) (get_or pkt (n - 3) 0 * 2 ^ 16))
        (get_or pkt (n - 2) 0 * 2 ^ 8))
      (get_or pkt (n - 1) 0)

unfoldable pub validate_packet : List ℕ → Bool
validate_packet pkt =
    if ltb (length pkt) 64
    then true
    else if leb 4 (length pkt)
    then (if not (crc32 (take (length pkt - 4) pkt) == stored_crc pkt) then true else true)
    else true

-- The scoreboard's comparison, on its expected packets.
unfoldable pub check_front : PacketMon → List (List ℕ) → Bool × PacketMon
check_front m [] = (false, record m { error_count = m.error_count + 1 })
check_front m (exp ∷ rest) =
    if not (bytes_eq m.rx_bytes exp)
    then (false, record m { rx_bytes = []; expected = rest; error_count = m.error_count + 1 })
    else (true, record m { rx_bytes = []; expected = rest })

unfoldable pub check_next : PacketMon → Bool × PacketMon
unfolding check_front
check_next m = check_front m m.expected

abbrev pub is_empty : List (List ℕ) → Bool
is_empty [] = true
is_empty (x ∷ xs) = false

unfoldable pub process_complete_packet : List ℕ → PacketMon → PacketMon
unfolding check_next
process_complete_packet pkt m =
    let held = record m { rx_bytes = pkt } in
    let checked = if not (is_empty held.expected) then (check_next held).1 else held in
    if not (validate_packet pkt) then held else record checked { pkt_count = checked.pkt_count + 1 }

unfoldable pub push_beat : List ℕ → Bool → PacketMon → PacketMon
push_beat bytes last m =
    let grown = record m { rx_beats = m.rx_beats ++ bytes } in
    if last
    then (let done = process_complete_packet grown.rx_beats grown in record done { rx_beats = [] })
    else grown
