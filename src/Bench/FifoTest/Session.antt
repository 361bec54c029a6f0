-- ===== src/Bench/FifoTest/Session.antt =====
-- A session of tb_axis_fifo.cpp: packets through the FIFO to the monitor.
use mathlib.Core.List.{map}
use fpga_network_processing.Base.{
  List, Option, [], ap, append-nil, append_assoc, ap₂, arith, drop, false, length, none, refl, some,
  suc, sym, ℕ, ◌++◌, ◌+◌, ◌<◌, ◌∙◌, ◌∷◌, ◌≡◌,
}
use fpga_network_processing.Generator.Carries.{AllBytes}
use fpga_network_processing.Fifo.{Fifo, ptr_diff, posedge}
use fpga_network_processing.Fifo.Refine.{contents}
use fpga_network_processing.Monitor.Scoreboard.{PacketMon, expect, pending}
use fpga_network_processing.Monitor.Verdict.{
  Beat, receive, receive-append, receive_lem, packets, mismatches,
}
use fpga_network_processing.Bench.FifoDriver.{
  AxisBeat, SimContext, read_beat, push_packet, drain_all, ticks,
}
use fpga_network_processing.Bench.FifoDriver
use fpga_network_processing.Bench.FifoDriver.Moves.{receive-Moves}
use fpga_network_processing.Bench.FifoDriver.Edges.{settled}
use fpga_network_processing.Bench.FifoDriver.Chunks.{chunks, packets-chunks}
use fpga_network_processing.Bench.FifoDriver.Push.{IsFilling, push_packet_lem}
use fpga_network_processing.Bench.FifoDriver.Drain.{drain_all_lem}
use fpga_network_processing.Monitor.Packets.{packets-append, mismatches_self}
use fpga_network_processing.Bench.FifoTest.{new_monitor, start, expect_all, push_all, session}

-- Packets of bytes, none of them empty.
abbrev pub AllPackets : List (List ℕ) → Type 0
AllPackets [] = Unit {0}
AllPackets (pkt ∷ pkts) = (0 < length pkt) × AllBytes pkt × AllPackets pkts

-- The beats of all packets.
abbrev beats_of : List (List ℕ) → List Beat
beats_of [] = []
beats_of (pkt ∷ pkts) = chunks (suc (length pkt)) pkt 0 ++ beats_of pkts

packets-beats_of : (pkts : List (List ℕ)) → AllPackets pkts → packets [] (beats_of pkts) ≡ pkts
packets-beats_of [] h = refl
packets-beats_of (pkt ∷ pkts) (some_bytes, b, h) =
    let (one, none_left) = packets-chunks (suc (length pkt)) pkt 0 [] some_bytes (omega arith) in
    packets-append (chunks (suc (length pkt)) pkt 0) (beats_of pkts) []
    ∙ ap₂ (λ ps l. ps ++ packets l (beats_of pkts)) one none_left
    ∙ ap (◌∷◌ pkt) (packets-beats_of pkts h)

-- The device after its reset.
pub start_lem :
    (dut : Fifo AxisBeat)
    → IsFilling (start dut) × (contents (start dut).dut ≡ []) × ((start dut).s_tvalid ≡ false)
unfolding start FifoDriver.reset posedge ptr_diff
start_lem dut = (
  record {
    live = record {
      valid = record { wr_in = omega arith; rd_in = omega arith; fits = omega arith; shown = refl };
      on = refl;
      lanes = refl;
    };
    kept = refl;
    room = omega arith;
  },
  refl,
  refl,
)

abbrev all_case : List (List ℕ) → Option (SimContext × PacketMon) → Option (SimContext × PacketMon)
all_case pkts o = elim o [ none ↦ none | some (s', m') ↦ push_all pkts s' m' ]

-- Every packet is pushed, and the monitor has or will get all their beats.
push_all_lem :
    (pkts : List (List ℕ)) (s : SimContext) (m : PacketMon)
    → AllPackets pkts
    → IsFilling s
    → s.s_tvalid ≡ false
    → (r : SimContext × PacketMon) × (push_all pkts s m ≡ some r)
      × IsFilling r.0
      × (r.0.s_tvalid ≡ false)
      × (settled r.0 r.1 ≡ receive (beats_of pkts) (settled s m))
unfolding push_all receive
push_all_lem [] s m h v quiet = ((s, m), refl, v, quiet, refl)
push_all_lem (pkt ∷ pkts) s m (some_bytes, b, h) v quiet =
    let (r, e, v', quiet', moves) = push_packet_lem pkt s m b v in
    let (r', e', v'', quiet'', same') = push_all_lem pkts r.0 r.1 h v' quiet' in
    (
      r',
      ap (all_case pkts) e ∙ e',
      v'',
      quiet'',
      same'
          ∙ ap (receive (beats_of pkts)) (receive-Moves moves)
          ∙ sym (receive-append (chunks (suc (length pkt)) pkt 0) (beats_of pkts) (settled s m)),
    )

expect_all_lem :
    (pkts : List (List ℕ)) (m : PacketMon)
    → let m' = expect_all pkts m in
      (m'.expected ≡ m.expected ++ pkts)
      × (m'.rx_beats ≡ m.rx_beats)
      × (m'.error_count ≡ m.error_count)
      × (m'.pkt_count ≡ m.pkt_count)
unfolding expect_all expect
expect_all_lem [] m = (sym (append-nil m.expected), refl, refl, refl)
expect_all_lem (pkt ∷ pkts) m =
    ground (arith, expect_all_lem pkts (expect pkt m), append_assoc m.expected (pkt ∷ []) pkts)

-- What a session leaves in the monitor.
settled-start : (dut : Fifo AxisBeat) (m : PacketMon) → settled (start dut) m ≡ m
unfolding receive
settled-start dut m = ap (λ q. receive (map (read_beat 8) q) m) (start_lem dut).1

abbrev session_case : Option (SimContext × PacketMon) → Option PacketMon
session_case o = elim o [ none ↦ none | some (s, m) ↦ some (drain_all s m 8).1 ]

session_run :
    (dut : Fifo AxisBeat) (pkts : List (List ℕ))
    → AllPackets pkts
    → session dut pkts ≡ some (receive (beats_of pkts) (expect_all pkts new_monitor))
unfolding session
session_run dut pkts h =
    let m = expect_all pkts new_monitor in
    let (v, _, quiet) = start_lem dut in
    let (r, e, v', quiet', same) = push_all_lem pkts (start dut) m h v quiet in
    ap session_case e
    ∙ ap some (
        (drain_all_lem r.0 r.1 v'.live quiet').2
        ∙ same
        ∙ ap (receive (beats_of pkts)) (settled-start dut m))

-- Whatever the registers held before the reset, a session with packets of bytes, none of them
-- empty, ends; the monitor counts every packet, finds no error, and has no packet pending.
pub session_lem :
    (dut : Fifo AxisBeat) (pkts : List (List ℕ))
    → AllPackets pkts
    → (m : PacketMon) × (session dut pkts ≡ some m)
      × (m.pkt_count ≡ length pkts)
      × (m.error_count ≡ 0)
      × (pending m ≡ 0)
session_lem dut pkts h =
    let m = expect_all pkts new_monitor in
    let (waiting, none_yet, clean, uncounted) = expect_all_lem pkts new_monitor in
    let (counted, checked, kept, _) = receive_lem (beats_of pkts) m in
    let rs = packets m.rx_beats (beats_of pkts) in
    let same : rs ≡ pkts =
      ap (λ start. packets start (beats_of pkts)) none_yet ∙ packets-beats_of pkts h in
    let (no_mismatch, none_left) = mismatches_self pkts in
    (
      receive (beats_of pkts) m,
      session_run dut pkts h,
      counted ∙ ap₂ (λ n ps. n + length ps) uncounted same ∙ omega arith,
      checked ∙ ap₂ ◌+◌ clean (ap₂ mismatches same waiting ∙ no_mismatch),
      ap length kept ∙ ap₂ (λ ps es. length (drop (length ps) es)) same waiting ∙ none_left,
    )
