-- ===== src/Monitor/Verdict.antt =====
-- The scoreboard of `PacketMon` against a comparison of two lists of packets.
use fpga_network_processing.Base.{
  Bool, List, [], arith, drop, false, if◌then◌else◌, length, refl, suc, take, true, zero, ℕ, ◌&&◌,
  ◌++◌, ◌+◌, ◌==◌, ◌↔◌, ◌∷◌, ◌≡◌,
}
use fpga_network_processing.Monitor.Scoreboard.{
  PacketMon, bytes_eq, validate_packet, check_next, process_complete_packet, push_beat, pending,
}

-- A beat: its bytes, and whether it is the last of its packet.
abbrev pub Beat : Type 0
Beat = List ℕ × Bool

unfoldable pub receive : List Beat → PacketMon → PacketMon
receive [] m = m
receive ((bytes, last) ∷ beats) m = receive beats (push_beat bytes last m)

-- The packets that beats make up, after bytes that are already there; then the bytes left over.
abbrev pub packets : List ℕ → List Beat → List (List ℕ)
packets start [] = []
packets start ((bytes, true) ∷ beats) = (start ++ bytes) ∷ packets [] beats
packets start ((bytes, false) ∷ beats) = packets (start ++ bytes) beats

abbrev pub leftover : List ℕ → List Beat → List ℕ
leftover start [] = start
leftover start ((bytes, true) ∷ beats) = leftover [] beats
leftover start ((bytes, false) ∷ beats) = leftover (start ++ bytes) beats

-- How often the `k`-th packet received differs from the `k`-th one expected.
abbrev pub mismatches : List (List ℕ) → List (List ℕ) → ℕ
mismatches [] es = 0
mismatches (r ∷ rs) [] = 0
mismatches (r ∷ rs) (e ∷ es) = (if bytes_eq r e then 0 else 1) + mismatches rs es

pub bytes_eq_iff : (xs ys : List ℕ) → (bytes_eq xs ys ≡ true) ↔ (xs ≡ ys)
unfolding bytes_eq
bytes_eq_iff [] [] = ground arith
bytes_eq_iff [] (y ∷ ys) = ground arith
bytes_eq_iff (x ∷ xs) [] = ground arith
bytes_eq_iff (x ∷ xs) (y ∷ ys) = ground (arith, bytes_eq_iff xs ys)

-- Every packet passes, whatever its last four bytes are.
pub validate_packet-true : (pkt : List ℕ) → validate_packet pkt ≡ true
unfolding validate_packet
validate_packet-true pkt = ground arith

-- The last beat of a packet, by whether a packet is expected.
push_last :
    (bytes : List ℕ) (m : PacketMon) (es : List (List ℕ))
    → m.expected ≡ es
    → let m' = push_beat bytes true m in
      (m'.pkt_count ≡ m.pkt_count + 1)
      × (m'.error_count ≡ m.error_count + mismatches ((m.rx_beats ++ bytes) ∷ []) es)
      × (m'.expected ≡ drop 1 es)
      × (m'.rx_beats ≡ [])
unfolding push_beat process_complete_packet check_next
push_last bytes m [] e = ground (arith, validate_packet-true (m.rx_beats ++ bytes))
push_last bytes m (x ∷ es) e = ground (arith, validate_packet-true (m.rx_beats ++ bytes))

push_middle :
    (bytes : List ℕ) (m : PacketMon)
    → push_beat bytes false m ≡ record m { rx_beats = m.rx_beats ++ bytes }
unfolding push_beat
push_middle bytes m = refl

mismatches-cons :
    (r : List ℕ) (rs es : List (List ℕ))
    → mismatches (r ∷ rs) es ≡ mismatches (r ∷ []) es + mismatches rs (drop 1 es)
mismatches-cons r [] [] = omega arith
mismatches-cons r (x ∷ rs) [] = omega arith
mismatches-cons r rs (e ∷ es) = omega arith

drop-suc : (n : ℕ) (es : List (List ℕ)) → drop (suc n) es ≡ drop n (drop 1 es)
drop-suc zero [] = refl
drop-suc (suc n) [] = refl
drop-suc n (e ∷ es) = refl

-- Over any beats, the monitor counts the packets that they make up and the places where those
-- differ from the expected ones, drops an expected packet for each of them, and keeps the bytes of
-- a packet that is not complete.
pub receive_lem :
    (beats : List Beat) (m : PacketMon)
    → let rs = packets m.rx_beats beats in
      let m' = receive beats m in
      (m'.pkt_count ≡ m.pkt_count + length rs)
      × (m'.error_count ≡ m.error_count + mismatches rs m.expected)
      × (m'.expected ≡ drop (length rs) m.expected)
      × (m'.rx_beats ≡ leftover m.rx_beats beats)
unfolding receive
receive_lem [] m = (omega arith, omega arith, refl, refl)
receive_lem ((bytes, true) ∷ beats) m = ground (
  arith,
  receive_lem beats (push_beat bytes true m),
  push_last bytes m m.expected refl,
  mismatches-cons (m.rx_beats ++ bytes) (packets [] beats) m.expected,
  drop-suc (length (packets [] beats)) m.expected,
)
receive_lem ((bytes, false) ∷ beats) m =
    ground (arith, receive_lem beats (push_beat bytes false m), push_middle bytes m)

-- What the testbenches ask for: no error, and nothing pending.
abbrev pub passes : PacketMon → Bool
passes m = m.error_count == 0 && pending m == 0

mismatches_prefix :
    (rs es : List (List ℕ))
    → ((mismatches rs es ≡ 0) × (length (drop (length rs) es) ≡ 0)) ↔ (take (length es) rs ≡ es)
mismatches_prefix [] [] = ground arith
mismatches_prefix [] (e ∷ es) = ground arith
mismatches_prefix (r ∷ rs) [] = ground arith
mismatches_prefix (r ∷ rs) (e ∷ es) = ground (arith, mismatches_prefix rs es, bytes_eq_iff r e)

-- From a monitor with no error yet and no part of a packet, the test passes exactly when the
-- expected packets are the first of the packets received; further packets do not fail it.
pub passes_iff :
    (beats : List Beat) (m : PacketMon)
    → m.error_count ≡ 0
    → m.rx_beats ≡ []
    → (passes (receive beats m) ≡ true) ↔ (take (length m.expected) (packets [] beats) ≡ m.expected)
passes_iff beats m clean start =
    ground (arith, receive_lem beats m, mismatches_prefix (packets [] beats) m.expected)

pub receive-append :
    (xs ys : List Beat) (m : PacketMon) → receive (xs ++ ys) m ≡ receive ys (receive xs m)
unfolding receive
receive-append [] ys m = refl
receive-append ((bytes, last) ∷ xs) ys m = receive-append xs ys (push_beat bytes last m)
