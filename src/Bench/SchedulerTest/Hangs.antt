-- ===== src/Bench/SchedulerTest/Hangs.antt =====
-- What becomes of the tests of tb_scheduler.cpp.
use fpga_network_processing.Bench.SchedulerTest.Start.{
  IsPushing-start, IsTest, udp-IsTest, tcp-IsTest,
}
use fpga_network_processing.Base.{
  List, Option, [], ap, arith, false, length, length-append, lt→ltb, none, some, suc, true, zero, ℕ,
  ◌++◌, ◌+◌, ◌<◌, ◌==◌, ◌∙◌, ◌≡◌, ◌≤◌,
}
use fpga_network_processing.Fifo.{depth}
use fpga_network_processing.Generator.Build.{PacketGen}
use fpga_network_processing.Monitor.Verdict.{Beat}
use fpga_network_processing.Scheduler.{Scheduler}
use fpga_network_processing.Bench.FifoDriver.{AxisBeat}
use fpga_network_processing.Bench.PipelineDriver.Session.{beats}
use fpga_network_processing.Bench.SchedulerTest.{
  Bus, start, push_packet, push_from, drain_one, with_tready, wait_ready,
}
use fpga_network_processing.Bench.SchedulerTest.Cases.{
  udp, tcp, new_gen, lettered, push_each, test_strict_priority, test_wrr_order, test_multi_queue,
}
use fpga_network_processing.Bench.SchedulerTest.Edges.{low}
use fpga_network_processing.Bench.SchedulerTest.Push.{IsPushing}
use fpga_network_processing.Bench.SchedulerTest.Fits.{
  push_round, end_case, push_packet_fits, push_packet_hangs,
}
use fpga_network_processing.Bench.SchedulerTest.Drain.{drain_one-push_packet}

-- A step that goes on to a hang, and one that hangs.
module _ {A B : Type 0} (f : A → Option B) where
  abbrev next : Option A → Option B
  next o = elim o [ none ↦ none | some a ↦ f a ]

  later : (o : Option A) (a : A) → o ≡ some a → f a ≡ none → next o ≡ none
  later o a e h = ap next e ∙ h

  now : (o : Option A) → o ≡ none → next o ≡ none
  now o e = ap next e

-- Without fuel nothing goes in.
unfuelled :
    (s : Bus) (pkt : List ℕ) (class_id n : ℕ)
    → IsTest pkt n
    → push_packet zero s pkt 8 class_id ≡ none
unfolding push_packet wait_ready
unfuelled s pkt class_id n t =
    let from : push_from zero (suc (length pkt)) 8 pkt class_id 0 (with_tready false s) ≡ none =
      push_round zero (length pkt) pkt class_id 0 (with_tready false s) true
        (lt→ltb 0 (length pkt) t.some_bytes) in
    ap (λ (o : Option Bus). end_case o) from

module _ (s : Bus) (bs : List Beat) (pkt : List ℕ) (n class_id : ℕ) (v : IsPushing s bs)
    (t : IsTest pkt n) where
  room_lem :
      (wait : ℕ)
      → length bs + n < depth
      → (s' : Bus) × (cs : List Beat) × (push_packet (suc wait) s pkt 8 class_id ≡ some s')
        × IsPushing s' cs
        × (length cs ≡ length bs + n)
  room_lem wait h =
      let (s', e, v', served, quiet) =
        push_packet_fits wait s bs pkt class_id t.bytes v t.some_bytes (omega (arith, t.size)) in
      (s', bs ++ beats pkt, e, v', omega (arith, t.size, length-append {0} bs (beats pkt)))

  stuck_lem :
      (wait : ℕ)
      → length bs < depth
      → depth ≤ length bs + n
      → push_packet wait s pkt 8 class_id ≡ none
  stuck_lem wait room h =
      push_packet_hangs wait s bs pkt class_id t.bytes v room (omega (arith, t.size))

strict_hangs : (wait : ℕ) (d : Scheduler AxisBeat) → test_strict_priority wait d ≡ none
unfolding test_strict_priority
strict_hangs zero d =
    let (low, g) = udp new_gen 53 1234 76 in
    now _ (push_packet zero (start d) low 8 0)
      (unfuelled (start d) low 0 6 (udp-IsTest new_gen 53 1234 76 (omega arith)))
strict_hangs (suc wait) d =
    let (low, g) = udp new_gen 53 1234 76 in
    let (med, g') = tcp g 80 55555 77 in
    let high = (tcp g' 443 55555 72).0 in
    let t1 = udp-IsTest new_gen 53 1234 76 (omega arith) in
    let t2 = tcp-IsTest g 80 55555 77 (omega arith) in
    let t3 = tcp-IsTest g' 443 55555 72 (omega arith) in
    let (s1, bs1, e1, v1, n1) =
      room_lem (start d) [] low 6 0 (IsPushing-start d) t1 wait (omega arith) in
    let (s2, bs2, e2, v2, n2) = room_lem s1 bs1 med 7 2 v1 t2 wait (omega (arith, n1)) in
    let stuck =
      stuck_lem s2 bs2 high 7 3 v2 t3 (suc wait) (omega (arith, n1, n2)) (omega (arith, n1, n2)) in
    later _ (push_packet (suc wait) (start d) low 8 0) s1 e1 (
      later _ (push_packet (suc wait) s1 med 8 2) s2 e2
        (now _ (push_packet (suc wait) s2 high 8 3) stuck))

lettered-IsTest : (i : ℕ) (g : PacketGen) → i < 3 → IsTest (lettered i g).0 6
lettered-IsTest i g h = udp-IsTest g (100 + i) (200 + i) (65 + i) (omega arith)

each_hangs : (wait : ℕ) (d : Scheduler AxisBeat) → push_each wait 3 0 new_gen (start d) ≡ none
unfolding push_each
each_hangs zero d =
    let a = (lettered 0 new_gen).0 in
    now _ (push_packet zero (start d) a 8 0)
      (unfuelled (start d) a 0 6 (lettered-IsTest 0 new_gen (omega arith)))
each_hangs (suc wait) d =
    let (a, g) = lettered 0 new_gen in
    let (b, g') = lettered 1 g in
    let c = (lettered 2 g').0 in
    let t1 = lettered-IsTest 0 new_gen (omega arith) in
    let t2 = lettered-IsTest 1 g (omega arith) in
    let t3 = lettered-IsTest 2 g' (omega arith) in
    let (s1, bs1, e1, v1, n1) =
      room_lem (start d) [] a 6 0 (IsPushing-start d) t1 wait (omega arith) in
    let (s2, bs2, e2, v2, n2) = room_lem s1 bs1 b 6 1 v1 t2 wait (omega (arith, n1)) in
    let stuck =
      stuck_lem s2 bs2 c 6 2 v2 t3 (suc wait) (omega (arith, n1, n2)) (omega (arith, n1, n2)) in
    later _ (push_packet (suc wait) (start d) a 8 0) s1 e1 (
      later _ (push_packet (suc wait) s1 b 8 1) s2 e2
        (now _ (push_packet (suc wait) s2 c 8 2) stuck))

wrr_passes : (wait : ℕ) (d : Scheduler AxisBeat) → test_wrr_order (suc wait) d ≡ some true
unfolding test_wrr_order
wrr_passes wait d =
    let pkt = (udp new_gen 53 1234 84).0 in
    let t = udp-IsTest new_gen 53 1234 84 (omega arith) in
    let (s', e, same) =
      drain_one-push_packet wait (start d) pkt 1 t.bytes (IsPushing-start d) t.some_bytes
        t.few_bytes in
    ap
      (λ (o : Option Bus). elim o [
        | none ↦ none
        | some s ↦ some (length (drain_one s 8).1 == length pkt)
      ])
      e
    ∙ ap (λ bs. some (length bs == length pkt)) same
    ∙ ap some (ground arith)

-- Whatever the device's registers held before its reset, the first and the third test of the
-- scheduler testbench run out of fuel, however much the loop that waits for room has; and the
-- second test, with any fuel but none for that loop, ends and passes.
pub tests_outcome :
    (wait : ℕ) (d : Scheduler AxisBeat)
    → (test_strict_priority wait d ≡ none)
      × (test_wrr_order (suc wait) d ≡ some true)
      × (test_multi_queue wait d ≡ none)
unfolding test_multi_queue
tests_outcome wait d = (
  strict_hangs wait d,
  wrr_passes wait d,
  now _ (push_each wait 3 0 new_gen (start d)) (each_hangs wait d),
)
