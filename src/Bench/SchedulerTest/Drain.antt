-- ===== src/Bench/SchedulerTest/Drain.antt =====
-- `drain_one` of tb_scheduler.cpp, on a device that serves the low queue.
use mathlib.Core.List.{map}
use mathlib.Core.Path.{subst}
use fpga_network_processing.Base.{
  Bool, List, [], ap, ap₂, arith, false, length, refl, some, suc, sym, true, zero, ℕ, ◌&&◌, ◌++◌,
  ◌<◌, ◌∙◌, ◌∷◌, ◌≡◌, ◌≤◌,
}
use fpga_network_processing.Fifo.{depth}
use fpga_network_processing.Generator.Carries.{AllBytes}
use fpga_network_processing.Scheduler.{m_beat}
use fpga_network_processing.Bench.Clock.{tick, pre}
use fpga_network_processing.Bench.FifoDriver.{AxisBeat, read_beat}
use fpga_network_processing.Bench.FifoDriver.Chunks.{few_chunks}
use fpga_network_processing.Bench.PipelineDriver.{append_bytes}
use fpga_network_processing.Bench.PipelineDriver.Drain.{Ends, puts}
use fpga_network_processing.Bench.PipelineDriver.Packet.{Ends-chunks}
use fpga_network_processing.Bench.PipelineDriver.Session.{beats}
use fpga_network_processing.Bench.PipelineDriver.Deliver.{append_beats}
use fpga_network_processing.Bench.SchedulerTest.{
  Bus, edge, with_tready, is_shown, read_packet, drain_one, drain_timeout, push_packet,
}
use fpga_network_processing.Bench.SchedulerTest.Edges.{
  IsDriven, IsLow, low, IsLow-edge, out_edge, serves_low, shows_low,
}
use fpga_network_processing.Bench.SchedulerTest.Push.{IsPushing, length-map}
use fpga_network_processing.Bench.SchedulerTest.Fits.{push_packet_fits}

-- The beats `xs` in the low queue, which is served, and an output that is wanted.
record IsReading (s : Bus) (xs : List AxisBeat) : Type 0 where
  in_low : IsLow s.dut
  driven : IsDriven s.ports
  wanted : s.ports.m_tready ≡ true
  quiet : s.ports.s_tvalid ≡ false
  served : s.dut.arb_state ≡ 2
  held : low s.dut ≡ xs

IsReading-tick :
    (s : Bus) (x : AxisBeat) (xs : List AxisBeat)
    → IsReading s (x ∷ xs)
    → IsReading (tick edge s) xs
unfolding tick
IsReading-tick s x xs v = record {
  in_low = IsLow-edge s.ports v.driven s.dut v.in_low;
  driven = v.driven;
  wanted = v.wanted;
  quiet = v.quiet;
  served = serves_low s.ports v.driven s.dut x xs v.in_low v.held;
  held = out_edge s.ports v.driven s.dut x xs v.in_low v.quiet v.wanted v.served v.held;
}

abbrev round_case : ℕ → Bus → List ℕ → List ℕ → Bool → Bool → Bus × List ℕ
round_case timeout high out out' c last = elim c [
  | true ↦ elim last [ true ↦ (high, out') | false ↦ read_packet timeout 8 high out' ]
  | false ↦ read_packet timeout 8 high out
]

-- A round reads the first beat.
round_lem :
    (timeout : ℕ) (s : Bus) (x : AxisBeat) (xs : List AxisBeat) (out : List ℕ)
    → IsReading s (x ∷ xs)
    → read_packet (suc timeout) 8 s out
      ≡ round_case timeout (tick edge s) out (out ++ (read_beat 8 x).0) true x.tlast
unfolding read_packet pre
round_lem timeout s x xs out v =
    let (there, same) = shows_low s.dut x xs v.in_low v.served v.held in
    let shown : is_shown s ≡ true = ap₂ ◌&&◌ there v.wanted in
    ap
      (λ (c : Bool).
        round_case timeout (tick edge s) out (out ++ (read_beat 8 (m_beat s.dut)).0) c
          (m_beat s.dut).tlast)
      shown
    ∙ ap
        (λ (y : AxisBeat).
          round_case timeout (tick edge s) out (out ++ (read_beat 8 y).0) true y.tlast)
        same

read_packet_lem :
    (xs : List AxisBeat) (timeout : ℕ) (s : Bus) (out : List ℕ)
    → IsReading s xs
    → Ends (map (read_beat 8) xs)
    → length xs ≤ timeout
    → (read_packet timeout 8 s out).1 ≡ puts append_bytes (map (read_beat 8) xs) out
unfolding read_beat
read_packet_lem [] timeout s out v ends enough = absurd ends
read_packet_lem (x ∷ xs) zero s out v ends enough = absurd (omega arith)
read_packet_lem (x ∷ []) (suc timeout) s out v ends enough =
    let out' = out ++ (read_beat 8 x).0 in
    ap (λ (r : Bus × List ℕ). r.1) (round_lem timeout s x [] out v)
    ∙ ap (λ (c : Bool). (round_case timeout (tick edge s) out out' true c).1) ends
read_packet_lem (x ∷ y ∷ xs) (suc timeout) s out v ends enough =
    let out' = out ++ (read_beat 8 x).0 in
    ap (λ (r : Bus × List ℕ). r.1) (round_lem timeout s x (y ∷ xs) out v)
    ∙ ap (λ (c : Bool). (round_case timeout (tick edge s) out out' true c).1) ends.0
    ∙ read_packet_lem (y ∷ xs) timeout (tick edge s) out' (IsReading-tick s x (y ∷ xs) v) ends.1
        (omega arith)

-- From a bus out of reset, with empty queues, an output that is not wanted and class 0 at its
-- metadata port, a packet of 1 to 120 bytes goes in, whatever class the driver gives it, with any
-- fuel but none for the loop that waits; and reading one packet then gives back exactly its bytes.
pub drain_one-push_packet :
    (wait : ℕ) (s : Bus) (pkt : List ℕ) (class_id : ℕ)
    → AllBytes pkt
    → IsPushing s []
    → 0 < length pkt
    → length pkt ≤ 120
    → (s' : Bus) × (push_packet (suc wait) s pkt 8 class_id ≡ some s') × ((drain_one s' 8).1 ≡ pkt)
unfolding drain_one
drain_one-push_packet wait s pkt class_id b v some_bytes fits =
    let few : length (beats pkt) < depth =
      omega (arith, few_chunks 15 (suc (length pkt)) pkt 0 (omega arith)) in
    let (s', e, v', served, quiet) =
      push_packet_fits wait s [] pkt class_id b v some_bytes (omega (arith, few)) in
    let xs = low s'.dut in
    let ends = Ends-chunks (suc (length pkt)) pkt 0 some_bytes (omega arith) in
    let reading : IsReading (with_tready true s') xs = record {
      in_low = v'.in_low;
      driven = record { on = v'.driven.on; class_0 = v'.driven.class_0 };
      wanted = refl;
      quiet = quiet;
      served = served;
      held = refl;
    } in
    (
      s',
      e,
      read_packet_lem xs drain_timeout (with_tready true s') [] reading
            (subst Ends (sym v'.held) ends)
            (omega (arith, length-map (read_beat 8) xs, ap length v'.held, few))
          ∙ ap (λ bs. puts append_bytes bs []) v'.held
          ∙ append_beats pkt,
    )
