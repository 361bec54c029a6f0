-- ===== src/Bench/Perf/Push.antt =====
-- The loop of tb_perf.cpp that puts a packet in, 8 bytes to a beat.
use fpga_network_processing.Base.{
  Bool, Bool-cases, List, Option, [], ap, append-nil, append_assoc, arith, drop, false, inl, inr,
  leb, length, ltb, none, refl, some, suc, sym, take, true, zero, ℕ, ◌++◌, ◌+◌, ◌-◌, ◌<◌, ◌∙◌, ◌∷◌,
  ◌≡◌,
}
use mathlib.Core.List.{map}
use mathlib.Core.Path.{subst}
use fpga_network_processing.Generator.Carries.{AllBytes}
use fpga_network_processing.Monitor.Verdict.{Beat}
use fpga_network_processing.Pipeline.{s_tready}
use fpga_network_processing.Pipeline.Sight.{see}
use fpga_network_processing.Pipeline.Shift.{line, slot}
use fpga_network_processing.Bench.FifoDriver.{chunk_size}
use fpga_network_processing.Bench.FifoDriver.Push.{shorter}
use fpga_network_processing.Bench.FifoDriver.Chunks.{chunks, chunks_done, chunks_more}
use fpga_network_processing.Bench.PipelineDriver.{with_chunk, quiet, ready_fuel}
use fpga_network_processing.Bench.PipelineDriver.Edges.{IsRunning, chunk_edge, quiet_edge}
use fpga_network_processing.Bench.PipelineDriver.Session.{beats}
use fpga_network_processing.Bench.Perf.{Sim, next, drive, wait_ready, push_from, push_packet}

-- The count some cycles later.
abbrev pub later : ℕ → ℕ → ℕ
later zero c = c
later (suc n) c = later n (next c)

-- With the output wanted the input is ready.
wait_ready_lem : (s : Sim) → IsRunning s.bus → wait_ready ready_fuel s ≡ some s
unfolding wait_ready s_tready
wait_ready_lem s v =
    ap (λ (m : Bool). elim (s_tready m s.bus.dut) [ true ↦ some s | false ↦ none ]) v.driven.wanted

module _ {Acc : Type 0} (note : Sim → Acc → Acc) (got : ℕ → Option Beat → Acc → Acc) where
  -- What `note` sees: the count, and the beat that is shown.
  abbrev pub Sees : Type 0
  Sees =
      (s : Sim) (acc : Acc)
      → IsRunning s.bus
      → note s acc ≡ got s.cycles (slot see s.bus.dut.flow_inst.stage) acc

  abbrev pub notes : ℕ → List (Option Beat) → Acc → Acc
  notes c [] acc = acc
  notes c (o ∷ l) acc = notes (next c) l (got c o acc)

  abbrev wait_case : ℕ → List ℕ → ℕ → Acc → Option Sim → Option (Sim × Acc)
  wait_case fuel pkt pos acc o = elim o [
    | none ↦ none
    | some s' ↦ push_from note fuel 8 pkt (pos + chunk_size 8 pkt pos) s' acc
  ]

  abbrev push_case : ℕ → List ℕ → ℕ → Sim → Acc → Bool → Option (Sim × Acc)
  push_case fuel pkt pos s acc c = elim c [
    | false ↦ some (s, acc)
    | true ↦
        wait_case fuel pkt pos (note s acc) (wait_ready ready_fuel (drive (with_chunk 8 pkt pos) s))
  ]

  push_round :
      (fuel : ℕ) (pkt : List ℕ) (pos : ℕ) (s : Sim) (acc : Acc) (c : Bool)
      → ltb pos (length pkt) ≡ c
      → push_from note (suc fuel) 8 pkt pos s acc ≡ push_case fuel pkt pos s acc c
  unfolding push_from
  push_round fuel pkt pos s acc c h = ap (push_case fuel pkt pos s acc) h

  -- The stages, the count and what was noted after the beats `cs`.
  pub record Pushed (cs : List Beat) (s : Sim) (acc : Acc) (r : Sim × Acc) : Type 0 where
    pub running : IsRunning r.0.bus
    pub lined : line r.0.bus.dut ≡ drop (length cs) (line s.bus.dut ++ map some cs)
    pub counted : r.0.cycles ≡ later (length cs) s.cycles
    pub noted : r.1 ≡ notes s.cycles (take (length cs) (line s.bus.dut ++ map some cs)) acc

  Pushed-nothing : (s : Sim) (acc : Acc) → IsRunning s.bus → Pushed [] s acc (s, acc)
  Pushed-nothing s acc v = record {
    running = v;
    lined = sym (append-nil (line s.bus.dut));
    counted = refl;
    noted = refl;
  }

  Pushed-chunk :
      (pkt : List ℕ) (pos : ℕ) (s : Sim) (acc : Acc) (cs : List Beat) (r : Sim × Acc)
      → Sees
      → AllBytes pkt
      → IsRunning s.bus
      → Pushed cs (drive (with_chunk 8 pkt pos) s) (note s acc) r
      → let nb = chunk_size 8 pkt pos in
        Pushed ((take nb (drop pos pkt), leb (length pkt) (pos + nb)) ∷ cs) s acc r
  unfolding drive
  Pushed-chunk pkt pos s acc cs r sees b v p =
      let nb = chunk_size 8 pkt pos in
      let beat : Beat = (take nb (drop pos pkt), leb (length pkt) (pos + nb)) in
      let t = drive (with_chunk 8 pkt pos) s in
      let (running, moved) = chunk_edge pkt pos s.bus b v in
      let joined : line t.bus.dut ++ map some cs ≡ drop 1 (line s.bus.dut) ++ map some (beat ∷ cs) =
        ap (λ q. q ++ map some cs) moved
        ∙ append_assoc (drop 1 (line s.bus.dut)) (some beat ∷ []) (map some cs) in
      record {
        running = p.running;
        lined = p.lined ∙ ap (drop (length cs)) joined;
        counted = p.counted;
        noted =
            p.noted
            ∙ ap (λ q. notes (next s.cycles) (take (length cs) q) (note s acc)) joined
            ∙ ap
                (notes (next s.cycles)
                  (take (length cs) (drop 1 (line s.bus.dut) ++ map some (beat ∷ cs))))
                (sees s acc v);
      }

  push_from_lem :
      (fuel : ℕ) (pkt : List ℕ) (pos : ℕ) (s : Sim) (acc : Acc)
      → Sees
      → AllBytes pkt
      → IsRunning s.bus
      → length pkt - pos < fuel
      → (r : Sim × Acc) × (push_from note fuel 8 pkt pos s acc ≡ some r)
        × Pushed (chunks fuel pkt pos) s acc r
  push_from_lem zero pkt pos s acc sees b v enough = absurd (omega arith)
  push_from_lem (suc fuel) pkt pos s acc sees b v enough =
      elim (Bool-cases (ltb pos (length pkt))) [
        | inr h ↦ (
          (s, acc),
          push_round fuel pkt pos s acc false h,
          subst (λ cs. Pushed cs s acc (s, acc)) (sym (chunks_done fuel pkt pos h))
              (Pushed-nothing s acc v),
        )
        | inl h ↦
            let nb = chunk_size 8 pkt pos in
            let t = drive (with_chunk 8 pkt pos) s in
            let running : IsRunning t.bus = unfold drive in (chunk_edge pkt pos s.bus b v).0 in
            let acc' = note s acc in
            let cs = chunks fuel pkt (pos + nb) in
            let (r, e, p) =
              push_from_lem fuel pkt (pos + nb) t acc' sees b running
                (shorter pkt pos fuel h enough) in
            (
              r,
              push_round fuel pkt pos s acc true h
                  ∙ ap (wait_case fuel pkt pos acc') (wait_ready_lem t running)
                  ∙ e,
              subst (λ cs. Pushed cs s acc r) (sym (chunks_more fuel pkt pos h))
                  (Pushed-chunk pkt pos s acc cs r sees b v p),
            )
      ]

  -- A packet and the idle cycle behind it.
  pub record Passed (cs : List Beat) (s : Sim) (acc : Acc) (r : Sim × Acc) : Type 0 where
    pub running : IsRunning r.0.bus
    pub quiet_is : r.0.bus.ports.s_tvalid ≡ false
    pub lined :
        line r.0.bus.dut ≡ drop 1 (drop (length cs) (line s.bus.dut ++ map some cs)) ++ none ∷ []
    pub counted : r.0.cycles ≡ next (later (length cs) s.cycles)
    pub noted : r.1 ≡ notes s.cycles (take (length cs) (line s.bus.dut ++ map some cs)) acc

  abbrev end_case : Option (Sim × Acc) → Option (Sim × Acc)
  end_case o = elim o [ none ↦ none | some (s', acc') ↦ some (drive quiet s', acc') ]

  pub push_packet_lem :
      (pkt : List ℕ) (s : Sim) (acc : Acc)
      → Sees
      → AllBytes pkt
      → IsRunning s.bus
      → (r : Sim × Acc) × (push_packet note pkt 8 s acc ≡ some r) × Passed (beats pkt) s acc r
  unfolding push_packet drive
  push_packet_lem pkt s acc sees b v =
      let (r, e, p) = push_from_lem (suc (length pkt)) pkt 0 s acc sees b v (omega arith) in
      let (running, off, moved) = quiet_edge r.0.bus p.running in
      (
        (drive quiet r.0, r.1),
        ap end_case e,
        record {
          running = running;
          quiet_is = off;
          lined = moved ∙ ap (λ q. drop 1 q ++ none ∷ []) p.lined;
          counted = ap next p.counted;
          noted = p.noted;
        },
      )
