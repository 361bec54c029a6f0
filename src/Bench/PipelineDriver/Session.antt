-- ===== src/Bench/PipelineDriver/Session.antt =====
-- A packet put into parser_pipeline.sv and read from it.
use mathlib.Core.List.{map}
use mathlib.Core.Path.{subst}
use fpga_network_processing.Base.{
  Bool, Bool-cases, List, Option, [], ap, ap₂, arith, drop, get_or, inl, inr, length, length-drop,
  ltb, ltb→lt, none, refl, some, suc, sym, take, true, ℕ, ◌++◌, ◌+◌, ◌-◌, ◌<◌, ◌∙◌, ◌∷◌, ◌≡◌, ◌≤◌,
}
use fpga_network_processing.Generator.Carries.{AllBytes}
use fpga_network_processing.Monitor.Verdict.{Beat}
use fpga_network_processing.Pipeline.Tame.{IsTame}
use fpga_network_processing.Pipeline.Shift.{line}
use fpga_network_processing.Bench.Clock.{pre, drive}
use fpga_network_processing.Bench.FifoDriver.Chunks.{chunks, drop-drop}
use fpga_network_processing.Bench.PipelineDriver.{
  Bus, edge, to_drain, quiet, capture, drain_rounds, drain_timeout, push_and_drain,
}
use fpga_network_processing.Bench.PipelineDriver.Wide.{AllWords}
use fpga_network_processing.Bench.PipelineDriver.Edges.{
  IsRunning, quiet_edge, gets, got, capture_lem,
}
use fpga_network_processing.Bench.PipelineDriver.Push.{push_from_lem}
use fpga_network_processing.Bench.PipelineDriver.Drain.{
  IsDraining, nones, puts, drain_rounds_lem, drain_wait_lem,
}
use fpga_network_processing.Bench.PipelineDriver.Packet.{
  many_chunks, Ends-chunks, Ends-drop, drop_nones, drop-map, gets-nones, gets-some, gets_next,
  puts-take-drop,
}

-- The beats of a packet.
abbrev pub beats : List ℕ → List Beat
beats pkt = chunks (suc (length pkt)) pkt 0

-- A device out of reset, with nothing in it.
pub record IsIdle (s : Bus) : Type 0 where
  pub tame : IsTame s.dut
  pub on : s.ports.rst_n ≡ true
  pub lanes : length s.ports.s_beat.tdata ≡ 16
  pub small : AllWords s.ports.s_beat.tdata
  pub empty : line s.dut ≡ nones 8

pub IsRunning-to_drain : (s : Bus) → IsIdle s → IsRunning (to_drain s)
IsRunning-to_drain s v = record {
  tame = v.tame;
  driven = record { on = v.on; wanted = refl; lanes = v.lanes; small = v.small };
}

pub IsIdle-drained : (s : Bus) (l : List (Option Beat)) → IsDraining s l → l ≡ nones 8 → IsIdle s
IsIdle-drained s l v e = record {
  tame = v.running.tame;
  on = v.running.driven.on;
  lanes = v.running.driven.lanes;
  small = v.running.driven.small;
  empty = v.lined ∙ e;
}

-- The row of stages after `n` beats and an edge without one.
row_after :
    (n : ℕ) (cs : List Beat)
    → drop 1 (drop n (nones 8 ++ map some cs)) ≡ nones (8 - suc n) ++ map some (drop (suc n - 8) cs)
row_after n cs =
    drop-drop n 1 (nones 8 ++ map some cs)
    ∙ ap (λ k. drop k (nones 8 ++ map some cs)) {x = n + 1} {y = suc n} (omega arith)
    ∙ drop_nones (suc n) 8 (map some cs)
    ∙ ap (λ q. nones (8 - suc n) ++ q) (drop-map (suc n - 8) cs)

module _ {Acc : Type 0} (put : List ℕ → Bool → Acc → Acc) where
  abbrev end_case : Option (Bus × Acc) → Option (Bus × Acc)
  end_case o = elim o [
    | none ↦ none
    | some (s', acc') ↦
        some (
          drain_rounds put drain_timeout 8 (drive edge quiet s') (capture put 8 (pre edge s') acc'))
  ]

  abbrev Returned : List ℕ → Acc → Bus × Acc → Type 0
  Returned pkt acc r = IsIdle r.0 × (r.1 ≡ puts put (beats pkt) acc)

  -- What was read while the packet was put in.
  read_early :
      (n : ℕ) (cs : List Beat) (acc : Acc)
      → got put
          (get_or (drop n (nones 8 ++ map some cs)) 0 none)
          (gets put (take n (nones 8 ++ map some cs)) acc)
        ≡ puts put (take (suc n - 8) cs) acc
  read_early n cs acc =
      gets_next put n (nones 8 ++ map some cs) acc
      ∙ gets-nones put (suc n) 8 (map some cs) acc
      ∙ gets-some put (suc n - 8) cs acc

  -- The rounds that read the rest.
  drained :
      (pkt : List ℕ) (s : Bus) (acc : Acc)
      → 40 < length pkt
      → let n = length (beats pkt) in
        IsDraining s ((nones (8 - suc n) ++ map some (drop (suc n - 8) (beats pkt))) ++ none ∷ [])
        → Returned pkt acc
            (drain_rounds put drain_timeout 8 s (puts put (take (suc n - 8) (beats pkt)) acc))
  drained pkt s acc long v =
      let cs = beats pkt in
      let n = length cs in
      let bs = drop (suc n - 8) cs in
      let acc' = puts put (take (suc n - 8) cs) acc in
      let six : 5 < n = many_chunks 5 (suc (length pkt)) pkt 0 (omega arith) (omega arith) in
      let ends =
        Ends-drop (suc n - 8) cs (omega (arith, six))
          (Ends-chunks (suc (length pkt)) pkt 0 (omega arith) (omega arith)) in
      let size = length-drop (suc n - 8) cs in
      let same = puts-take-drop put (suc n - 8) cs acc in
      elim (Bool-cases (ltb n 7)) [
        | inl h ↦
            let zero_or_one : 8 - suc n ≡ 1 = omega (arith, six, ltb→lt n 7 h) in
            let (d, g) =
              drain_wait_lem put 99999 bs 1 s acc'
                (subst (λ j. IsDraining s ((nones j ++ map some bs) ++ none ∷ [])) zero_or_one v)
                ends (omega (arith, size, ltb→lt n 7 h)) in
            (
              IsIdle-drained _ _ d (ap nones {y = 8} (omega (arith, size, six, ltb→lt n 7 h))),
              g ∙ same,
            )
        | inr h ↦
            let seven : 7 ≤ n = ground arith in
            let none_before : 8 - suc n ≡ 0 = omega (arith, seven) in
            let (d, g) =
              drain_rounds_lem put drain_timeout bs 1 s acc'
                (subst (λ j. IsDraining s ((nones j ++ map some bs) ++ none ∷ [])) none_before v)
                ends (omega (arith, size, seven)) in
            (IsIdle-drained _ _ d (ap nones {y = 8} (omega (arith, size, seven))), g ∙ same)
      ]

  -- From an idle bus, a packet of more than 40 bytes: every beat of it goes to `put`, in order.
  pub push_and_drain_lem :
      (pkt : List ℕ) (s : Bus) (acc : Acc)
      → AllBytes pkt
      → IsIdle s
      → 40 < length pkt
      → (r : Bus × Acc) × (push_and_drain put s acc pkt 8 ≡ some r) × Returned pkt acc r
  unfolding push_and_drain
  push_and_drain_lem pkt s acc b v long =
      let cs = beats pkt in
      let n = length cs in
      let (r, e, running, l, g) =
        push_from_lem put (suc (length pkt)) pkt 0 (to_drain s) acc b (IsRunning-to_drain s v)
          (omega arith) in
      let t = drive edge quiet r.0 in
      let (running', quiet', moved) = quiet_edge r.0 running in
      let row : line r.0.dut ≡ drop n (nones 8 ++ map some cs) =
        l ∙ ap (λ q. drop n (q ++ map some cs)) v.empty in
      let read : capture put 8 (pre edge r.0) r.1 ≡ puts put (take (suc n - 8) cs) acc =
        capture_lem put r.0 r.1 running
        ∙ ap₂ (got put) (ap (λ q. get_or q 0 none) row)
            (g ∙ ap (λ q. gets put (take n (q ++ map some cs)) acc) v.empty)
        ∙ read_early n cs acc in
      (
        drain_rounds put drain_timeout 8 t (capture put 8 (pre edge r.0) r.1),
        ap end_case e,
        subst (λ a. Returned pkt acc (drain_rounds put drain_timeout 8 t a)) (sym read)
            (drained pkt t acc long (record {
              running = running';
              quiet = quiet';
              lined =
                  moved
                  ∙ ap (λ q. drop 1 q ++ none ∷ []) row
                  ∙ ap (λ q. q ++ none ∷ []) (row_after n cs);
            })),
      )
