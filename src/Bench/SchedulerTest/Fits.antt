-- ===== src/Bench/SchedulerTest/Fits.antt =====
-- `push_packet` of tb_scheduler.cpp, by whether the packet fits in the low queue.
use mathlib.Core.Path.{subst}
use fpga_network_processing.Base.{
  ==_iff, Bool, Bool-cases, List, Option, [], ap, append-nil, append_assoc, arith, drop, false, inl,
  inr, leb, length, length-append, ltb, none, refl, some, suc, sym, take, true, zero, ℕ, ◌++◌, ◌+◌,
  ◌-◌, ◌<◌, ◌==◌, ◌∙◌, ◌∷◌, ◌≡◌, ◌≤◌,
}
use fpga_network_processing.Fifo.{depth}
use fpga_network_processing.Generator.Carries.{AllBytes}
use fpga_network_processing.Monitor.Verdict.{Beat}
use fpga_network_processing.Bench.Clock.{drive}
use fpga_network_processing.Bench.FifoDriver.{AxisBeat, chunk_size, read_beat}
use fpga_network_processing.Bench.FifoDriver.Chunks.{chunks, chunks_done, chunks_more}
use fpga_network_processing.Bench.FifoDriver.Push.{shorter}
use mathlib.Core.List.{map}
use fpga_network_processing.Scheduler.{Scheduler}
use fpga_network_processing.Bench.PipelineDriver.Session.{beats}
use fpga_network_processing.Bench.PipelineDriver.Packet.{many_chunks}
use fpga_network_processing.Bench.SchedulerTest.Edges.{IsDriven, IsLow, low, serves_low}
use fpga_network_processing.Bench.SchedulerTest.{
  Ports, Bus, edge, with_chunk, quiet, with_tready, wait_ready, push_from, push_packet,
}
use fpga_network_processing.Bench.SchedulerTest.Push.{
  IsPushing, chunk_edge, still_tick, wait_room, wait_full, length-map,
}

abbrev pub wait_case : ℕ → ℕ → List ℕ → ℕ → ℕ → Option Bus → Option Bus
wait_case wait fuel pkt class_id pos o = elim o [
  | none ↦ none
  | some s' ↦ push_from wait fuel 8 pkt class_id (pos + chunk_size 8 pkt pos) s'
]

abbrev pub push_case : ℕ → ℕ → List ℕ → ℕ → ℕ → Bus → Bool → Option Bus
push_case wait fuel pkt class_id pos s c = elim c [
  | false ↦ some s
  | true ↦
      wait_case wait fuel pkt class_id pos
        (wait_ready wait (drive edge (with_chunk 8 pkt class_id pos) s))
]

pub push_round :
    (wait fuel : ℕ) (pkt : List ℕ) (class_id pos : ℕ) (s : Bus) (c : Bool)
    → ltb pos (length pkt) ≡ c
    → push_from wait (suc fuel) 8 pkt class_id pos s ≡ push_case wait fuel pkt class_id pos s c
unfolding push_from
push_round wait fuel pkt class_id pos s c h = ap (push_case wait fuel pkt class_id pos s) h

abbrev beat_of : List ℕ → ℕ → Beat
beat_of pkt pos =
    let nb = chunk_size 8 pkt pos in (take nb (drop pos pkt), leb (length pkt) (pos + nb))

module _ (pkt : List ℕ) (class_id : ℕ) (b : AllBytes pkt) where
  -- The packet fits, with room for one more beat.
  push_fits :
      (wait fuel pos : ℕ) (s : Bus) (bs : List Beat)
      → IsPushing s bs
      → length pkt - pos < fuel
      → length bs + length (chunks fuel pkt pos) < depth
      → (s' : Bus) × (push_from (suc wait) fuel 8 pkt class_id pos s ≡ some s')
        × IsPushing s' (bs ++ chunks fuel pkt pos)
  push_fits wait zero pos s bs v enough fits = absurd (omega arith)
  push_fits wait (suc fuel) pos s bs v enough fits = elim (Bool-cases (ltb pos (length pkt))) [
    | inr h ↦ (
      s,
      push_round (suc wait) fuel pkt class_id pos s false h,
      subst (IsPushing s) (sym (ap (◌++◌ bs) (chunks_done fuel pkt pos h) ∙ append-nil bs)) v,
    )
    | inl h ↦
        let cs = chunks fuel pkt (pos + chunk_size 8 pkt pos) in
        let x = beat_of pkt pos in
        let t = drive edge (with_chunk 8 pkt class_id pos) s in
        let more = chunks_more fuel pkt pos h in
        let size = length-append {0} bs (x ∷ []) in
        let room : length (bs ++ x ∷ []) + length cs < depth =
          omega (arith, fits, ap length more, size) in
        let v' : IsPushing t (bs ++ x ∷ []) =
          chunk_edge pkt class_id pos s bs b v (omega (arith, fits)) in
        let (s', e, v'') =
          push_fits wait fuel (pos + chunk_size 8 pkt pos) t (bs ++ x ∷ []) v'
            (shorter pkt pos fuel h enough) room in
        (
          s',
          push_round (suc wait) fuel pkt class_id pos s true h
              ∙ ap (wait_case (suc wait) fuel pkt class_id pos)
                  (wait_room wait t (bs ++ x ∷ []) v' (omega (arith, room)))
              ∙ e,
          subst (IsPushing s') (append_assoc bs (x ∷ []) cs ∙ ap (◌++◌ bs) (sym more)) v'',
        )
  ]

  -- With room, the loop that waits ends, or has no fuel.
  waited :
      (wait fuel pos : ℕ) (t : Bus) (bs : List Beat)
      → IsPushing t bs
      → length bs < depth
      → push_from wait fuel 8 pkt class_id (pos + chunk_size 8 pkt pos) t ≡ none
      → wait_case wait fuel pkt class_id pos (wait_ready wait t) ≡ none
  unfolding wait_ready
  waited zero fuel pos t bs v room e = refl
  waited (suc wait) fuel pos t bs v room e =
      ap (wait_case (suc wait) fuel pkt class_id pos) (wait_room wait t bs v room) ∙ e

  -- The packet fills the queue: the loop that waits has no end.
  push_hangs :
      (wait fuel pos : ℕ) (s : Bus) (bs : List Beat)
      → IsPushing s bs
      → length bs < depth
      → depth ≤ length bs + length (chunks fuel pkt pos)
      → push_from wait fuel 8 pkt class_id pos s ≡ none
  unfolding push_from
  push_hangs wait zero pos s bs v room fills = refl
  push_hangs wait (suc fuel) pos s bs v room fills = elim (Bool-cases (ltb pos (length pkt))) [
    | inr h ↦ absurd (omega (arith, room, fills, ap length (chunks_done fuel pkt pos h)))
    | inl h ↦
        let cs = chunks fuel pkt (pos + chunk_size 8 pkt pos) in
        let x = beat_of pkt pos in
        let t = drive edge (with_chunk 8 pkt class_id pos) s in
        let more = chunks_more fuel pkt pos h in
        let size = length-append {0} bs (x ∷ []) in
        let v' : IsPushing t (bs ++ x ∷ []) = chunk_edge pkt class_id pos s bs b v room in
        push_round wait fuel pkt class_id pos s true h
        ∙ elim (Bool-cases (length (bs ++ x ∷ []) == depth)) [
          | inl e ↦
              ap (wait_case wait fuel pkt class_id pos)
                (wait_full wait t (bs ++ x ∷ []) v' ((==_iff _ depth).0 e))
          | inr e ↦
              let room' : length (bs ++ x ∷ []) < depth = ground (arith, size) in
              waited wait fuel pos t (bs ++ x ∷ []) v' room' (
                push_hangs wait fuel (pos + chunk_size 8 pkt pos) t (bs ++ x ∷ []) v' room'
                  (omega (arith, fills, ap length more, size)))
        ]
  ]

pub untready : (s : Bus) (bs : List Beat) → IsPushing s bs → IsPushing (with_tready false s) bs
untready s bs v = record {
  in_low = v.in_low;
  driven = record { on = v.driven.on; class_0 = v.driven.class_0 };
  kept = refl;
  lanes = v.lanes;
  held = v.held;
}

abbrev pub end_case : Option Bus → Option Bus
end_case o = elim o [ none ↦ none | some s' ↦ some (drive edge quiet s') ]

serves :
    (q : Ports) (v : IsDriven q) (d : Scheduler AxisBeat)
    → IsLow d
    → (bs : List Beat) → map (read_beat 8) (low d) ≡ bs
    → 0 < length bs
    → (edge q d).arb_state ≡ 2
serves q v d l bs e h =
    from (low d) refl (omega (arith, length-map (read_beat 8) (low d), ap length e))
  where
    from : (xs : List AxisBeat) → low d ≡ xs → 0 < length (low d) → (edge q d).arb_state ≡ 2
    from [] p k = absurd (omega (arith, ap length p))
    from (x ∷ xs) p k = serves_low q v d x xs l p

-- A packet that leaves room goes in whole, and the low queue is served.
pub push_packet_fits :
    (wait : ℕ) (s : Bus) (bs : List Beat) (pkt : List ℕ) (class_id : ℕ)
    → AllBytes pkt
    → IsPushing s bs
    → 0 < length pkt
    → length bs + length (beats pkt) < depth
    → (s' : Bus) × (push_packet (suc wait) s pkt 8 class_id ≡ some s')
      × IsPushing s' (bs ++ beats pkt)
      × (s'.dut.arb_state ≡ 2)
      × (s'.ports.s_tvalid ≡ false)
unfolding push_packet drive
push_packet_fits wait s bs pkt class_id b v some_bytes fits =
    let (s1, e, v1) =
      push_fits pkt class_id b wait (suc (length pkt)) 0 (with_tready false s) bs (untready s bs v)
        (omega arith) fits in
    let driven : IsDriven (quiet s1.ports) = record {
      on = v1.driven.on;
      class_0 = v1.driven.class_0;
    } in
    (
      drive edge quiet s1,
      ap end_case e,
      still_tick quiet s1 (bs ++ beats pkt) v1 driven v1.kept v1.lanes refl,
      serves (quiet s1.ports) driven s1.dut v1.in_low (bs ++ beats pkt) v1.held (
          omega (
            arith,
            length-append {0} bs (beats pkt),
            many_chunks 0 (suc (length pkt)) pkt 0 (omega arith) (omega arith),
          )),
      refl,
    )

-- One that does not leave any has no end.
pub push_packet_hangs :
    (wait : ℕ) (s : Bus) (bs : List Beat) (pkt : List ℕ) (class_id : ℕ)
    → AllBytes pkt
    → IsPushing s bs
    → length bs < depth
    → depth ≤ length bs + length (beats pkt)
    → push_packet wait s pkt 8 class_id ≡ none
unfolding push_packet
push_packet_hangs wait s bs pkt class_id b v room fills = ap end_case (
    push_hangs pkt class_id b wait (suc (length pkt)) 0 (with_tready false s) bs (untready s bs v)
      room fills)
