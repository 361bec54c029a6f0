-- ===== src/Bench/SchedulerTest/Push.antt =====
-- The loop of tb_scheduler.cpp that puts a packet in: its end, and how it hangs on a full queue.
use fpga_network_processing.Base.{
  Bool, List, [], ap, ap₂, arith, drop, false, leb, length, none, not, refl, set, some, suc, sym,
  take, true, zero, ℕ, ◌%◌, ◌&&◌, ◌*◌, ◌++◌, ◌+◌, ◌<◌, ◌==◌, ◌^◌, ◌∙◌, ◌∷◌, ◌≡◌,
}
use mathlib.Core.List.{map}
use fpga_network_processing.Fifo.{depth}
use fpga_network_processing.Generator.Carries.{AllBytes}
use fpga_network_processing.Monitor.Verdict.{Beat}
use fpga_network_processing.Scheduler.{s_tready}
use fpga_network_processing.Bench.Clock.{tick, drive}
use fpga_network_processing.Bench.FifoDriver.{beat_at, chunk_size, read_beat}
use fpga_network_processing.Bench.FifoDriver.Edges.{length-set_bytes}
use fpga_network_processing.Bench.FifoDriver.Push.{read_beat-beat_at}
use fpga_network_processing.Bench.SchedulerTest.{Ports, Bus, class_of, edge, with_chunk, wait_ready}
use fpga_network_processing.Bench.SchedulerTest.Edges.{
  IsDriven, IsLow, low, IsLow-edge, ready_lem, in_edge, still_edge,
}

-- The beats `bs` in the low queue, and an output that is not wanted.
pub record IsPushing (s : Bus) (bs : List Beat) : Type 0 where
  pub in_low : IsLow s.dut
  pub driven : IsDriven s.ports
  pub kept : s.ports.m_tready ≡ false
  pub lanes : length s.ports.s_beat.tdata ≡ 16
  pub held : map (read_beat 8) (low s.dut) ≡ bs

module _ {A B : Type 0} (f : A → B) where
  pub length-map : (l : List A) → length (map f l) ≡ length l
  length-map [] = refl
  length-map (x ∷ l) = ap suc (length-map l)

  map-snoc : (l : List A) (x : A) → map f (l ++ x ∷ []) ≡ map f l ++ f x ∷ []
  map-snoc [] x = refl
  map-snoc (y ∷ l) x = ap (◌∷◌ (f y)) (map-snoc l x)

length-low : (s : Bus) (bs : List Beat) → IsPushing s bs → length (low s.dut) ≡ length bs
length-low s bs v = sym (length-map (read_beat 8) (low s.dut)) ∙ ap length v.held

class_kept : (meta : List ℕ) (x : ℕ) → class_of (set meta 10 x) ≡ class_of meta
unfolding class_of
class_kept [] x = refl
class_kept (w ∷ meta) x = refl

IsDriven-chunk :
    (pkt : List ℕ) (class_id pos : ℕ) (q : Ports)
    → IsDriven q
    → IsDriven (with_chunk 8 pkt class_id pos q)
IsDriven-chunk pkt class_id pos q v = record {
  on = v.on;
  class_0 = class_kept q.s_meta (class_id * 2 ^ 13 % 2 ^ 32) ∙ v.class_0;
}

-- An edge that puts a piece of a packet in.
pub chunk_edge :
    (pkt : List ℕ) (class_id pos : ℕ) (s : Bus) (bs : List Beat)
    → AllBytes pkt
    → IsPushing s bs
    → length bs < depth
    → let nb = chunk_size 8 pkt pos in
      IsPushing
        (drive edge (with_chunk 8 pkt class_id pos) s)
        (bs ++ (take nb (drop pos pkt), leb (length pkt) (pos + nb)) ∷ [])
unfolding drive
chunk_edge pkt class_id pos s bs b v room =
    let q = with_chunk 8 pkt class_id pos s.ports in
    let driven = IsDriven-chunk pkt class_id pos s.ports v.driven in
    let room' : length (low s.dut) < depth = omega (arith, length-low s bs v) in
    record {
      in_low = IsLow-edge q driven s.dut v.in_low;
      driven = driven;
      kept = v.kept;
      lanes = unfold beat_at in length-set_bytes s.ports.s_beat.tdata _ ∙ v.lanes;
      held =
          ap (map (read_beat 8)) (in_edge q driven s.dut v.in_low refl v.kept room')
          ∙ map-snoc (read_beat 8) (low s.dut) q.s_beat
          ∙ ap₂ (λ l x. l ++ x ∷ []) v.held
              (read_beat-beat_at pkt pos s.ports.s_beat.tdata b v.lanes);
    }

-- An edge that leaves the queue as it is.
pub still_tick :
    (assign : Ports → Ports) (s : Bus) (bs : List Beat)
    → IsPushing s bs
    → IsDriven (assign s.ports)
    → (assign s.ports).m_tready ≡ false
    → length (assign s.ports).s_beat.tdata ≡ 16
    → ((assign s.ports).s_tvalid && not (length bs == depth)) ≡ false
    → IsPushing (drive edge assign s) bs
unfolding drive
still_tick assign s bs v driven kept lanes h =
    let q = assign s.ports in
    let h' : (q.s_tvalid && not (length (low s.dut) == depth)) ≡ false =
      ap (λ n. q.s_tvalid && not (n == depth)) (length-low s bs v) ∙ h in
    record {
      in_low = IsLow-edge q driven s.dut v.in_low;
      driven = driven;
      kept = kept;
      lanes = lanes;
      held = ap (map (read_beat 8)) (still_edge q driven s.dut v.in_low kept h') ∙ v.held;
    }

pub wait_room :
    (fuel : ℕ) (s : Bus) (bs : List Beat)
    → IsPushing s bs
    → length bs < depth
    → wait_ready (suc fuel) s ≡ some s
unfolding wait_ready
wait_room fuel s bs v room =
    let ready : s_tready (class_of s.ports.s_meta) s.dut ≡ true =
      ready_lem s.ports v.driven s.dut v.in_low ∙ ground (arith, length-low s bs v) in
    ap (λ (c : Bool). elim c [ true ↦ some s | false ↦ wait_ready fuel (tick edge s) ]) ready

-- Nothing is read, so a full queue stays full.
pub wait_full :
    (fuel : ℕ) (s : Bus) (bs : List Beat)
    → IsPushing s bs
    → length bs ≡ depth
    → wait_ready fuel s ≡ none
unfolding wait_ready tick drive
wait_full zero s bs v full = refl
wait_full (suc fuel) s bs v full =
    let stuck : s_tready (class_of s.ports.s_meta) s.dut ≡ false =
      ready_lem s.ports v.driven s.dut v.in_low ∙ ground (arith, length-low s bs v) in
    let refused : (s.ports.s_tvalid && not (length bs == depth)) ≡ false = ground arith in
    ap (λ (c : Bool). elim c [ true ↦ some s | false ↦ wait_ready fuel (tick edge s) ]) stuck
    ∙ wait_full fuel (tick edge s) bs (still_tick (λ q. q) s bs v v.driven v.kept v.lanes refused)
        full
