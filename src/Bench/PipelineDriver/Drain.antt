-- ===== src/Bench/PipelineDriver/Drain.antt =====
-- The loop of the drivers of parser_pipeline.sv that reads a packet.
use mathlib.Core.List.{map}
use mathlib.Core.Path.{subst}
use fpga_network_processing.Base.{
  Bool, List, Option, [], ap, append_assoc, ap₂, arith, drop, false, get_or, if◌then◌else◌, length,
  none, refl, replicate, some, suc, sym, true, zero, ℕ, ◌&&◌, ◌++◌, ◌+◌, ◌∙◌, ◌∷◌, ◌≡◌, ◌≤◌,
}
use fpga_network_processing.Monitor.Verdict.{Beat}
use fpga_network_processing.Pipeline.{m_tvalid, m_beat}
use fpga_network_processing.Pipeline.Sight.{see}
use fpga_network_processing.Pipeline.Shift.{line}
use fpga_network_processing.Bench.Clock.{pre, tick}
use fpga_network_processing.Bench.FifoDriver.{read_beat}
use fpga_network_processing.Bench.PipelineDriver.{Bus, edge, is_shown, put_beat, drain_rounds}
use fpga_network_processing.Bench.PipelineDriver.Edges.{IsRunning, tick-edge}

-- The beats of a packet: `tlast` on the last of them and on no other.
abbrev pub Ends : List Beat → Type 0
Ends [] = ⊥
Ends (b ∷ []) = b.1 ≡ true
Ends (b ∷ c ∷ bs) = (b.1 ≡ false) × Ends (c ∷ bs)

-- A driver that reads and offers nothing, and what is in the stages.
pub record IsDraining (s : Bus) (l : List (Option Beat)) : Type 0 where
  pub running : IsRunning s
  pub quiet : s.ports.s_tvalid ≡ false
  pub lined : line s.dut ≡ l

abbrev pub first : List (Option Beat) → Option Beat
first l = get_or l 0 none

pub IsDraining-tick :
    (s : Bus) (l : List (Option Beat))
    → IsDraining s l
    → IsDraining (tick edge s) (drop 1 l ++ none ∷ [])
IsDraining-tick s l v =
    let (running, quiet, moved) = tick-edge s v.running v.quiet in
    record {
      running = running;
      quiet = quiet;
      lined = moved ∙ ap (λ q. drop 1 q ++ none ∷ []) v.lined;
    }

pub shown_some :
    (c : Bool) (x b : Beat) → (if c then some x else none) ≡ some b → (c ≡ true) × (x ≡ b)
shown_some true x b e = (refl, cc)
shown_some false x b e = (cc, cc)

pub shown_none : (c : Bool) (x : Beat) → (if c then some x else none) ≡ none → c ≡ false
shown_none true x e = cc
shown_none false x e = refl

-- Stages that hold nothing.
abbrev pub nones : ℕ → List (Option Beat)
nones t = replicate t none

pub add_none : (t : ℕ) → nones t ++ none ∷ [] ≡ nones (suc t)
add_none zero = refl
add_none (suc t) = ap (◌∷◌ none) (add_none t)

module _ {Acc : Type 0} (put : List ℕ → Bool → Acc → Acc) where
  -- What becomes of a packet's beats.
  abbrev pub puts : List Beat → Acc → Acc
  puts [] acc = acc
  puts (b ∷ bs) acc = puts bs (put b.0 b.1 acc)

  abbrev round_case : ℕ → Bus → Acc → Acc → Bool → Bool → Bool → Bus × Acc
  round_case timeout high acc acc' c last d = elim c [
    | true ↦ elim last [ true ↦ (high, acc') | false ↦ drain_rounds put timeout 8 high acc' ]
    | false ↦ elim d [ true ↦ drain_rounds put timeout 8 high acc | false ↦ (high, acc) ]
  ]

  pub put_seen :
      (s : Bus) (acc : Acc)
      → put_beat put 8 s acc ≡ put (see (m_beat s.dut)).0 (see (m_beat s.dut)).1 acc
  unfolding see read_beat
  put_seen s acc = refl

  pub last_seen : (s : Bus) → (m_beat s.dut).tlast ≡ (see (m_beat s.dut)).1
  unfolding see
  last_seen s = refl

  round_lem :
      (timeout : ℕ) (s : Bus) (acc : Acc)
      → drain_rounds put (suc timeout) 8 s acc
        ≡ round_case timeout
            (tick edge s)
            acc
            (put_beat put 8 s acc)
            (is_shown s)
            (m_beat s.dut).tlast
            (m_tvalid (tick edge s).dut)
  unfolding drain_rounds pre
  round_lem timeout s acc = refl

  -- A round that reads a beat.
  round_beat :
      (timeout : ℕ) (s : Bus) (acc : Acc) (b : Beat) (l : List (Option Beat))
      → IsDraining s (some b ∷ l)
      → drain_rounds put (suc timeout) 8 s acc ≡ (elim b.1 [
        | true ↦ (tick edge s, put b.0 b.1 acc)
        | false ↦ drain_rounds put timeout 8 (tick edge s) (put b.0 b.1 acc)
      ])
  round_beat timeout s acc b l v =
      let (there, same) = shown_some (m_tvalid s.dut) (see (m_beat s.dut)) b (ap first v.lined) in
      let shown : is_shown s ≡ true = ap₂ ◌&&◌ there v.running.driven.wanted in
      let d = m_tvalid (tick edge s).dut in
      round_lem timeout s acc
      ∙ ap
          (λ c.
            round_case timeout (tick edge s) acc (put_beat put 8 s acc) c (m_beat s.dut).tlast d)
          shown
      ∙ ap₂ (λ x c. round_case timeout (tick edge s) acc x true c d)
          (put_seen s acc ∙ ap (λ (x : Beat). put x.0 x.1 acc) same)
          (last_seen s ∙ ap (λ (x : Beat). x.1) same)

  -- A round before the first beat.
  round_wait :
      (timeout : ℕ) (s : Bus) (acc : Acc) (b : Beat) (l : List (Option Beat))
      → IsDraining s (none ∷ some b ∷ l)
      → drain_rounds put (suc timeout) 8 s acc ≡ drain_rounds put timeout 8 (tick edge s) acc
  round_wait timeout s acc b l v =
      let hidden = shown_none (m_tvalid s.dut) (see (m_beat s.dut)) (ap first v.lined) in
      let high = tick edge s in
      let next = (IsDraining-tick s (none ∷ some b ∷ l) v).lined in
      let (there, same) =
        shown_some (m_tvalid high.dut) (see (m_beat high.dut)) b (ap first next) in
      let x = put_beat put 8 s acc in
      let last = (m_beat s.dut).tlast in
      round_lem timeout s acc
      ∙ ap (λ c. round_case timeout high acc x (c && s.ports.m_tready) last (m_tvalid high.dut))
          hidden
      ∙ ap (round_case timeout high acc x false last) there

  abbrev Drained : List Beat → ℕ → Acc → Bus × Acc → Type 0
  Drained bs t acc r = IsDraining r.0 (nones t) × (r.1 ≡ puts bs acc)

  -- The loop reads the packet to its end.
  pub drain_rounds_lem :
      (timeout : ℕ) (bs : List Beat) (t : ℕ) (s : Bus) (acc : Acc)
      → IsDraining s (map some bs ++ nones t)
      → Ends bs
      → length bs ≤ timeout
      → Drained bs (t + length bs) acc (drain_rounds put timeout 8 s acc)
  drain_rounds_lem timeout [] t s acc v ends enough = absurd ends
  drain_rounds_lem zero (b ∷ bs) t s acc v ends enough = absurd (omega arith)
  drain_rounds_lem (suc timeout) (b ∷ []) t s acc v ends enough =
      let e =
        round_beat timeout s acc b (nones t) v
        ∙ ap
            (λ (c : Bool). elim c [
              | true ↦ (tick edge s, put b.0 b.1 acc)
              | false ↦ drain_rounds put timeout 8 (tick edge s) (put b.0 b.1 acc)
            ])
            ends in
      let more : t + 1 ≡ suc t = omega arith in
      subst (Drained (b ∷ []) (t + 1) acc) (sym e) (
        subst (IsDraining (tick edge s)) (add_none t ∙ ap nones (sym more))
            (IsDraining-tick s (some b ∷ nones t) v),
        refl,
      )
  drain_rounds_lem (suc timeout) (b ∷ c ∷ bs) t s acc v ends enough =
      let l = map some (c ∷ bs) in
      let e =
        round_beat timeout s acc b (l ++ nones t) v
        ∙ ap
            (λ (c : Bool). elim c [
              | true ↦ (tick edge s, put b.0 b.1 acc)
              | false ↦ drain_rounds put timeout 8 (tick edge s) (put b.0 b.1 acc)
            ])
            ends.0 in
      let next : IsDraining (tick edge s) (l ++ nones (suc t)) =
        subst (IsDraining (tick edge s))
          (append_assoc l (nones t) (none ∷ []) ∙ ap (λ q. l ++ q) (add_none t))
          (IsDraining-tick s (map some (b ∷ c ∷ bs) ++ nones t) v) in
      let more : suc t + length (c ∷ bs) ≡ t + length (b ∷ c ∷ bs) = omega arith in
      subst (Drained (b ∷ c ∷ bs) (t + length (b ∷ c ∷ bs)) acc) (sym e) (
        subst
          (λ n.
            Drained (c ∷ bs) n (put b.0 b.1 acc)
              (drain_rounds put timeout 8 (tick edge s) (put b.0 b.1 acc)))
          more
          (drain_rounds_lem timeout (c ∷ bs) (suc t) (tick edge s) (put b.0 b.1 acc) next ends.1
            (omega arith)))

  -- So does it from one round earlier.
  pub drain_wait_lem :
      (timeout : ℕ) (bs : List Beat) (t : ℕ) (s : Bus) (acc : Acc)
      → IsDraining s (none ∷ map some bs ++ nones t)
      → Ends bs
      → length bs ≤ timeout
      → Drained bs (suc t + length bs) acc (drain_rounds put (suc timeout) 8 s acc)
  drain_wait_lem timeout [] t s acc v ends enough = absurd ends
  drain_wait_lem timeout (b ∷ bs) t s acc v ends enough =
      let l = map some (b ∷ bs) in
      subst (Drained (b ∷ bs) (suc t + length (b ∷ bs)) acc)
        (sym (round_wait timeout s acc b (map some bs ++ nones t) v))
        (drain_rounds_lem timeout (b ∷ bs) (suc t) (tick edge s) acc
          (subst (IsDraining (tick edge s))
            (append_assoc l (nones t) (none ∷ []) ∙ ap (λ q. l ++ q) (add_none t))
            (IsDraining-tick s (none ∷ l ++ nones t) v))
          ends enough)
