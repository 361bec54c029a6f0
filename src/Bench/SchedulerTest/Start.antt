-- ===== src/Bench/SchedulerTest/Start.antt =====
-- What the tests of tb_scheduler.cpp start from: an empty device, and their packets.
use fpga_network_processing.Base.{
  List, [], ap, arith, false, length, refl, suc, true, ℕ, ◌*◌, ◌<◌, ◌∷◌, ◌≡◌, ◌≤◌,
}
use Prim.{tt}
use mathlib.Core.List.{map}
use fpga_network_processing.Fifo.Refine.{window}
use fpga_network_processing.Fifo.Invariant.{IsValid, reset-IsValid}
use fpga_network_processing.Generator.Carries.{AllBytes}
use fpga_network_processing.Generator.Build.{PacketGen}
use fpga_network_processing.Generator.Bytes.{AllBytes-make_udp_packet, AllBytes-make_tcp_packet}
use fpga_network_processing.Scheduler
use fpga_network_processing.Scheduler.{Scheduler, fifo_inputs}
use fpga_network_processing.Scheduler.Order.{queue}
use fpga_network_processing.Scheduler.Arbiter.{IsSound}
use fpga_network_processing.Bench.Clock.{tick, ticks, drive}
use fpga_network_processing.Bench.Stress.Passes.{smac_bytes, dmac_bytes}
use fpga_network_processing.Bench.FifoTest.{smac, dmac}
use fpga_network_processing.Bench.FifoDriver.{AxisBeat, read_beat}
use fpga_network_processing.Bench.FifoDriver.Chunks.{few_chunks}
use fpga_network_processing.Bench.PipelineDriver.Packet.{many_chunks}
use fpga_network_processing.Bench.PipelineDriver.Session.{beats}
use fpga_network_processing.Bench.SchedulerTest.{
  Ports, Bus, class_of, pins, edge, reset, new_sim, start,
}
use fpga_network_processing.Bench.SchedulerTest.Cases.{udp, tcp}
use fpga_network_processing.Bench.SchedulerTest.Edges.{IsLow, low}
use fpga_network_processing.Bench.SchedulerTest.Push.{IsPushing, still_tick}

-- An edge of a reset empties the queues.
emptied :
    (q : Ports) (d : Scheduler AxisBeat)
    → q.rst_n ≡ false
    → IsLow (edge q d) × (low (edge q d) ≡ [])
unfolding edge Scheduler.posedge fifo_inputs
emptied q d off =
    let fresh : (n : ℕ) → IsValid ((edge q d).gen_fifos n) × (queue (edge q d) n ≡ []) = λ n.
      let f = (edge q d).gen_fifos n in
      let (v, zero_is) = reset-IsValid (fifo_inputs (pins q) d n) (d.gen_fifos n) off in
      (v, ap (window f.ram f.rd_ptr) zero_is) in
    let sound : IsSound (edge q d) = record {
      valid = λ n. (fresh n).0;
      state_in = ground (arith, off);
    } in
    (record { sound = sound; no_high = (fresh 0).1; no_med = (fresh 1).1 }, (fresh 2).1)

-- The bus in the reset, at its last edge but one.
abbrev in_reset : Scheduler AxisBeat → Bus
in_reset d = ticks edge 4 (record (new_sim d) { ports = (new_sim d).ports })

abbrev released : Scheduler AxisBeat → Bus
released d = record (in_reset d) { ports = record (in_reset d).ports { rst_n = true } }

IsPushing-released : (d : Scheduler AxisBeat) → IsPushing (released d) []
unfolding ticks tick class_of
IsPushing-released d =
    let (v, e) = emptied (new_sim d).ports (in_three d) refl in
    record {
      in_low = v;
      driven = record { on = refl; class_0 = refl };
      kept = refl;
      lanes = refl;
      held = ap (map (read_beat 8)) e;
    }
  where
    in_three : Scheduler AxisBeat → Scheduler AxisBeat
    in_three d = edge (new_sim d).ports (edge (new_sim d).ports (edge (new_sim d).ports d))

pub IsPushing-start : (d : Scheduler AxisBeat) → IsPushing (start d) []
unfolding start reset tick drive ticks
IsPushing-start d =
    let v = IsPushing-released d in
    still_tick (λ q. q) (released d) [] v v.driven v.kept v.lanes refl

-- One of the test packets: bytes, and the number of its beats.
pub record IsTest (pkt : List ℕ) (n : ℕ) : Type 0 where
  pub bytes : AllBytes pkt
  pub some_bytes : 0 < length pkt
  pub few_bytes : length pkt ≤ 120
  pub size : length (beats pkt) ≡ n

size-beats :
    (n : ℕ) (pkt : List ℕ)
    → 8 * n < length pkt
    → length pkt ≤ 8 * suc n
    → length (beats pkt) ≡ suc n
size-beats n pkt more less = omega (
  arith,
  many_chunks n (suc (length pkt)) pkt 0 (omega arith) (omega arith),
  few_chunks (suc n) (suc (length pkt)) pkt 0 (omega arith),
)

pub udp-IsTest :
    (g : PacketGen) (sport dport byte : ℕ) → byte < 256 → IsTest (udp g sport dport byte).0 6
udp-IsTest g sport dport byte h =
    let pkt = (udp g sport dport byte).0 in
    let (b, size) =
      AllBytes-make_udp_packet g smac dmac 0xc0a80001 0xc0a80002 sport dport (byte ∷ []) smac_bytes
        dmac_bytes (h, tt) in
    record {
      bytes = b;
      some_bytes = omega (arith, size);
      few_bytes = omega (arith, size);
      size = size-beats 5 pkt (omega (arith, size)) (omega (arith, size));
    }

pub tcp-IsTest :
    (g : PacketGen) (sport dport byte : ℕ) → byte < 256 → IsTest (tcp g sport dport byte).0 7
tcp-IsTest g sport dport byte h =
    let pkt = (tcp g sport dport byte).0 in
    let (b, size) =
      AllBytes-make_tcp_packet g smac dmac 0xc0a80001 0xc0a80002 sport dport (byte ∷ []) 0x02
        smac_bytes dmac_bytes (h, tt) (omega arith) in
    record {
      bytes = b;
      some_bytes = omega (arith, size);
      few_bytes = omega (arith, size);
      size = size-beats 6 pkt (omega (arith, size)) (omega (arith, size));
    }
