-- ===== src/Bench/PipelineDriver/Push.antt =====
-- The loop of the drivers of parser_pipeline.sv that puts a packet in, 8 bytes to a beat.
use mathlib.Core.List.{map}
use fpga_network_processing.Base.{
  Bool, Bool-cases, List, Option, [], ap, append-nil, append_assoc, arith, drop, false, inl, inr,
  leb, length, ltb, none, some, suc, sym, take, true, zero, ℕ, ◌++◌, ◌+◌, ◌-◌, ◌<◌, ◌∙◌, ◌∷◌, ◌≡◌,
}
use fpga_network_processing.Generator.Carries.{AllBytes}
use fpga_network_processing.Monitor.Verdict.{Beat}
use fpga_network_processing.Pipeline.Shift.{line}
use fpga_network_processing.Bench.Clock.{pre, drive}
use fpga_network_processing.Bench.FifoDriver.{chunk_size}
use fpga_network_processing.Bench.FifoDriver.Push.{shorter}
use fpga_network_processing.Bench.FifoDriver.Chunks.{chunks, chunks_done, chunks_more}
use fpga_network_processing.Bench.PipelineDriver.{
  Bus, edge, with_chunk, wait_ready, ready_fuel, capture, push_from,
}
use fpga_network_processing.Bench.PipelineDriver.Edges.{
  IsRunning, chunk_edge, wait_ready_lem, gets, capture_lem,
}

-- What is in the stages, and then the beats of the packet from `pos` on.
abbrev pub tape : ℕ → List ℕ → ℕ → Bus → List (Option Beat)
tape fuel pkt pos s = line s.dut ++ map some (chunks fuel pkt pos)

abbrev pub count : ℕ → List ℕ → ℕ → ℕ
count fuel pkt pos = length (chunks fuel pkt pos)

module _ {Acc : Type 0} (put : List ℕ → Bool → Acc → Acc) where
  abbrev pub wait_case : ℕ → List ℕ → ℕ → Acc → Option Bus → Option (Bus × Acc)
  wait_case fuel pkt pos acc o = elim o [
    | none ↦ none
    | some s' ↦ push_from put fuel 8 pkt (pos + chunk_size 8 pkt pos) s' acc
  ]

  abbrev pub push_case : ℕ → List ℕ → ℕ → Bus → Acc → Bool → Option (Bus × Acc)
  push_case fuel pkt pos s acc c = elim c [
    | false ↦ some (s, acc)
    | true ↦
        wait_case fuel pkt pos (capture put 8 (pre edge s) acc)
          (wait_ready ready_fuel (drive edge (with_chunk 8 pkt pos) s))
  ]

  pub push_round :
      (fuel : ℕ) (pkt : List ℕ) (pos : ℕ) (s : Bus) (acc : Acc) (c : Bool)
      → ltb pos (length pkt) ≡ c
      → push_from put (suc fuel) 8 pkt pos s acc ≡ push_case fuel pkt pos s acc c
  unfolding push_from
  push_round fuel pkt pos s acc c h = ap (push_case fuel pkt pos s acc) h

  -- The loop ends; it has read what an edge each showed, and the stages have moved on as often.
  pub push_from_lem :
      (fuel : ℕ) (pkt : List ℕ) (pos : ℕ) (s : Bus) (acc : Acc)
      → AllBytes pkt
      → IsRunning s
      → length pkt - pos < fuel
      → (r : Bus × Acc) × (push_from put fuel 8 pkt pos s acc ≡ some r)
        × IsRunning r.0
        × (line r.0.dut ≡ drop (count fuel pkt pos) (tape fuel pkt pos s))
        × (r.1 ≡ gets put (take (count fuel pkt pos) (tape fuel pkt pos s)) acc)
  push_from_lem zero pkt pos s acc b v enough = absurd (omega arith)
  push_from_lem (suc fuel) pkt pos s acc b v enough = elim (Bool-cases (ltb pos (length pkt))) [
    | inr h ↦
        let none_left = chunks_done fuel pkt pos h in
        (
          (s, acc),
          push_round fuel pkt pos s acc false h,
          v,
          sym (
              ap (λ cs. drop (length cs) (line s.dut ++ map some cs)) none_left
              ∙ append-nil (line s.dut)),
          sym (ap (λ cs. gets put (take (length cs) (line s.dut ++ map some cs)) acc) none_left),
        )
    | inl h ↦
        let nb = chunk_size 8 pkt pos in
        let beat : Beat = (take nb (drop pos pkt), leb (length pkt) (pos + nb)) in
        let t = drive edge (with_chunk 8 pkt pos) s in
        let (running, moved) = chunk_edge pkt pos s b v in
        let acc' = capture put 8 (pre edge s) acc in
        let cs = chunks fuel pkt (pos + nb) in
        let (r, e, v', l, g) =
          push_from_lem fuel pkt (pos + nb) t acc' b running (shorter pkt pos fuel h enough) in
        let joined : line t.dut ++ map some cs ≡ drop 1 (line s.dut) ++ map some (beat ∷ cs) =
          ap (λ q. q ++ map some cs) moved
          ∙ append_assoc (drop 1 (line s.dut)) (some beat ∷ []) (map some cs) in
        let more = sym (chunks_more fuel pkt pos h) in
        (
          r,
          push_round fuel pkt pos s acc true h
              ∙ ap (wait_case fuel pkt pos acc') (wait_ready_lem t running)
              ∙ e,
          v',
          l
              ∙ ap (drop (length cs)) joined
              ∙ ap (λ cs. drop (length cs) (line s.dut ++ map some cs)) more,
          g
              ∙ ap (λ q. gets put (take (length cs) q) acc') joined
              ∙ ap (gets put (take (length cs) (drop 1 (line s.dut) ++ map some (beat ∷ cs))))
                  (capture_lem put s acc v)
              ∙ ap (λ cs. gets put (take (length cs) (line s.dut ++ map some cs)) acc) more,
        )
  ]
