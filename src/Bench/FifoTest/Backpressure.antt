-- ===== src/Bench/FifoTest/Backpressure.antt =====
-- `test_fifo_backpressure` of tb_axis_fifo.cpp.
use Prim.{tt}
use mathlib.Core.List.{map}
use mathlib.Core.Path.{subst}
use fpga_network_processing.Base.Bits.{bit_and_mask}
use fpga_network_processing.Base.{
  Bool, Option, [], ap, ap₂, arith, bit_and, false, length, none, refl, replicate, some, suc, sym,
  true, zero, ℕ, ◌%◌, ◌&&◌, ◌+◌, ◌-◌, ◌<◌, ◌==◌, ◌^◌, ◌∙◌, ◌≡◌,
}
use fpga_network_processing.Fifo.{Fifo}
use fpga_network_processing.Generator.Carries.{AllBytes}
use fpga_network_processing.Generator.Build.{PacketGen}
use fpga_network_processing.Generator.Bytes.{AllBytes-make_udp_packet}
use fpga_network_processing.Monitor.Scoreboard.{PacketMon, expect, pending}
use fpga_network_processing.Bench.FifoDriver.{AxisBeat, SimContext, drain_all, read_beat}
use fpga_network_processing.Bench.FifoDriver.Edges.{held}
use fpga_network_processing.Bench.FifoDriver.Chunks.{packets-chunks}
use fpga_network_processing.Bench.FifoDriver.Push.{IsFilling, push_packet_lem}
use fpga_network_processing.Bench.FifoDriver.Drain.{drain_all_lem}
use fpga_network_processing.Bench.FifoTest.{
  new_monitor, start, smac, dmac, backpressure_packet, backpressure_loop, test_fifo_backpressure,
}
use fpga_network_processing.Bench.FifoTest.Session.{start_lem}
use fpga_network_processing.Bench.FifoTest.Balance.{
  IsBalanced, IsBalanced-Moves, receive-IsBalanced,
}

AllBytes-replicate : (n b : ℕ) → b < 256 → AllBytes (replicate n b)
AllBytes-replicate zero b h = tt
AllBytes-replicate (suc n) b h = (h, AllBytes-replicate n b h)

low_byte : (i : ℕ) → bit_and i 0xff < 256
low_byte i = omega (arith, bit_and_mask 8 i)

packet_lem :
    (r i : ℕ) (gen : PacketGen)
    → let pkt = (backpressure_packet r i gen).0 in AllBytes pkt × (0 < length pkt)
unfolding backpressure_packet
packet_lem r i gen =
    let payload = replicate (64 + r % 500 - 42) (bit_and i 0xff) in
    let (bytes, size) =
      AllBytes-make_udp_packet gen smac dmac 0xc0a80001 0xc0a80002 ((1234 + i) % 2 ^ 16)
        ((80 + i) % 2 ^ 16) payload (omega arith) (omega arith)
        (AllBytes-replicate (64 + r % 500 - 42) (bit_and i 0xff) (low_byte i)) in
    (bytes, omega (arith, size))

abbrev loop_case :
    (ℕ → ℕ) → ℕ → ℕ → PacketGen → Option (SimContext × PacketMon) → Option (SimContext × PacketMon)
loop_case rand left i gen o = elim o [
  | none ↦ none
  | some (s', m') ↦ backpressure_loop rand left (i + 1) gen s' m'
]

-- The loop ends, and keeps the monitor in step with the beats on their way.
loop_lem :
    (rand : ℕ → ℕ) (left i k : ℕ) (gen : PacketGen) (s : SimContext) (m : PacketMon)
    → IsFilling s
    → s.s_tvalid ≡ false
    → IsBalanced (held s) m k
    → (r : SimContext × PacketMon) × (backpressure_loop rand left i gen s m ≡ some r)
      × IsFilling r.0
      × (r.0.s_tvalid ≡ false)
      × IsBalanced (held r.0) r.1 (k + left)
unfolding backpressure_loop
loop_lem rand zero i k gen s m v quiet balance =
    ((s, m), refl, v, quiet, subst (IsBalanced (held s) m) (omega arith) balance)
loop_lem rand (suc left) i k gen s m v quiet balance =
    let (pkt, gen') = backpressure_packet (rand i) i gen in
    let (bytes, some_bytes) = packet_lem (rand i) i gen in
    let (r, e, v', quiet', moves) = push_packet_lem pkt s (expect pkt m) bytes v in
    let (one, none_left) = packets-chunks (suc (length pkt)) pkt 0 [] some_bytes (omega arith) in
    let balance' = IsBalanced-Moves pkt balance one none_left moves in
    let (r', e', v'', quiet'', balance'') =
      loop_lem rand left (i + 1) (suc k) gen' r.0 r.1 v' quiet' balance' in
    (
      r',
      ap (loop_case rand left i gen') e ∙ e',
      v'',
      quiet'',
      subst (IsBalanced (held r'.0) r'.1) (omega arith) balance'',
    )

start-IsBalanced : (dut : Fifo AxisBeat) → IsBalanced (held (start dut)) new_monitor 0
start-IsBalanced dut =
    subst (λ q. IsBalanced (map (read_beat 8) q) new_monitor 0) (sym (start_lem dut).1)
      (record { clean = refl; awaited = refl; whole = refl; counted = refl })

abbrev verdict : Option (SimContext × PacketMon) → Option Bool
verdict o = elim o [
  | none ↦ none
  | some (s, m) ↦ (let mon = (drain_all s m 8).1 in some (mon.error_count == 0 && pending mon == 0))
]

-- Whatever numbers `rand()` gives and whatever the registers held before the reset, the test of
-- ten packets, each expected just before it is pushed, ends and passes.
pub test_fifo_backpressure_lem :
    (rand : ℕ → ℕ) (dut : Fifo AxisBeat) → test_fifo_backpressure rand dut ≡ some true
unfolding test_fifo_backpressure
test_fifo_backpressure_lem rand dut =
    let (v, _, quiet) = start_lem dut in
    let (r, e, v', quiet', balance) =
      loop_lem rand 10 0 0 (record { ip_id_counter = 0 }) (start dut) new_monitor v quiet
        (start-IsBalanced dut) in
    let (_, no_error, none_pending) = receive-IsBalanced balance in
    ap verdict e
    ∙ ap (λ (mon : PacketMon). some (mon.error_count == 0 && pending mon == 0))
        (drain_all_lem r.0 r.1 v'.live quiet').2
    ∙ ap₂ (λ k n. some (k == 0 && n == 0)) no_error none_pending
