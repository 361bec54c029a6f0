-- ===== src/Bench/Perf/Rounds.antt =====
-- The loops of tb_perf.cpp that read the end of a packet.
use fpga_network_processing.Base.{
  Bool, List, Option, [], ap, append_assoc, ap₂, arith, false, length, none, refl, some, suc, sym,
  true, zero, ℕ, ◌&&◌, ◌++◌, ◌+◌, ◌∙◌, ◌∷◌, ◌≡◌, ◌≤◌,
}
use mathlib.Core.List.{map}
use mathlib.Core.Path.{subst}
use fpga_network_processing.Monitor.Verdict.{Beat}
use fpga_network_processing.Pipeline.{m_tvalid, m_beat}
use fpga_network_processing.Pipeline.Sight.{see}
use fpga_network_processing.Bench.PipelineDriver.{is_shown}
use fpga_network_processing.Bench.PipelineDriver.Drain.{
  IsDraining, IsDraining-tick, Ends, first, nones, add_none, shown_some, last_seen,
}
use fpga_network_processing.Bench.Perf.{Sim, tick, drain}
use fpga_network_processing.Bench.Perf.Push.{later}

module _ {R : Type 0} (done out : Sim → R) where
  abbrev round_case : ℕ → Sim → Bool → Bool → R
  round_case left s c last = elim c [
    | true ↦ elim last [ true ↦ done (tick s) | false ↦ drain done out left (tick s) ]
    | false ↦ done (tick s)
  ]

  -- A round that reads a beat.
  round_beat :
      (left : ℕ) (s : Sim) (b : Beat) (l : List (Option Beat))
      → IsDraining s.bus (some b ∷ l)
      → drain done out (suc left) s ≡ round_case left s true b.1
  unfolding drain
  round_beat left s b l v =
      let (there, same) =
        shown_some (m_tvalid s.bus.dut) (see (m_beat s.bus.dut)) b (ap first v.lined) in
      let shown : is_shown s.bus ≡ true = ap₂ ◌&&◌ there v.running.driven.wanted in
      ap (λ c. round_case left s c (m_beat s.bus.dut).tlast) shown
      ∙ ap (round_case left s true)
          (last_seen (λ a c. λ (x : ℕ). x) s.bus ∙ ap (λ (x : Beat). x.1) same)

  -- The loop ends after as many cycles as there are beats.
  pub drain_lem :
      (left : ℕ) (bs : List Beat) (t : ℕ) (s : Sim)
      → IsDraining s.bus (map some bs ++ nones t)
      → Ends bs
      → length bs ≤ left
      → (s' : Sim) × (drain done out left s ≡ done s')
        × IsDraining s'.bus (nones (t + length bs))
        × (s'.cycles ≡ later (length bs) s.cycles)
  unfolding tick
  drain_lem left [] t s v ends enough = absurd ends
  drain_lem zero (b ∷ bs) t s v ends enough = absurd (omega arith)
  drain_lem (suc left) (b ∷ []) t s v ends enough =
      let more : t + 1 ≡ suc t = omega arith in
      (
        tick s,
        round_beat left s b (nones t) v ∙ ap (round_case left s true) ends,
        subst (IsDraining (tick s).bus) (add_none t ∙ ap nones (sym more))
            (IsDraining-tick s.bus (some b ∷ nones t) v),
        refl,
      )
  drain_lem (suc left) (b ∷ c ∷ bs) t s v ends enough =
      let l = map some (c ∷ bs) in
      let next : IsDraining (tick s).bus (l ++ nones (suc t)) =
        subst (IsDraining (tick s).bus)
          (append_assoc l (nones t) (none ∷ []) ∙ ap (λ q. l ++ q) (add_none t))
          (IsDraining-tick s.bus (map some (b ∷ c ∷ bs) ++ nones t) v) in
      let more : suc t + length (c ∷ bs) ≡ t + length (b ∷ c ∷ bs) = omega arith in
      let (s', e, v', count) = drain_lem left (c ∷ bs) (suc t) (tick s) next ends.1 (omega arith) in
      (
        s',
        round_beat left s b (l ++ nones t) v ∙ ap (round_case left s true) ends.0 ∙ e,
        subst (λ n. IsDraining s'.bus (nones n)) more v',
        count,
      )
