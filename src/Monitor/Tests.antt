-- ===== src/Monitor/Tests.antt =====
-- Beats into the monitor, followed by hand.
use fpga_network_processing.Base.{List, [], false, refl, true, ◌↔◌, ◌∷◌, ◌≡◌}
use fpga_network_processing.Monitor.Scoreboard.{PacketMon, bytes_eq}
use fpga_network_processing.Monitor.Verdict.{Beat, receive, passes, receive_lem, passes_iff}

-- A monitor that expects a packet of three bytes and one of two.
abbrev waiting : PacketMon
waiting = record {
  rx_beats = [];
  rx_bytes = [];
  expected = (1 ∷ 2 ∷ 3 ∷ []) ∷ (7 ∷ 8 ∷ []) ∷ [];
  pkt_count = 0;
  error_count = 0;
}

-- The first packet in two beats, then one that differs, then a beat of a third.
abbrev beats : List Beat
beats = (1 ∷ 2 ∷ [], false) ∷ (3 ∷ [], true) ∷ (7 ∷ 9 ∷ [], true) ∷ (4 ∷ [], false) ∷ []

receive_lem_example :
    let m = receive beats waiting in
    (m.pkt_count ≡ 2) × (m.error_count ≡ 1) × (m.expected ≡ []) × (m.rx_beats ≡ 4 ∷ [])
unfolding bytes_eq
receive_lem_example = receive_lem beats waiting

passes_iff_example :
    (passes (receive beats waiting) ≡ true)
    ↔ ((1 ∷ 2 ∷ 3 ∷ []) ∷ (7 ∷ 9 ∷ []) ∷ [] ≡ waiting.expected)
passes_iff_example = passes_iff beats waiting refl refl
