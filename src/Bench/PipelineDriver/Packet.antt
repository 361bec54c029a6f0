-- ===== src/Bench/PipelineDriver/Packet.antt =====
-- The beats of a packet, 8 bytes to a beat, on a row of eight stages.
use mathlib.Core.List.{map}
use mathlib.Core.Path.{subst}
use fpga_network_processing.Base.{
  Bool, Bool-cases, List, Option, [], ap, ap₂, arith, drop, false, get_or, inl, inr, leb, length,
  lt→ltb, none, refl, some, suc, sym, take, zero, ℕ, ◌*◌, ◌++◌, ◌+◌, ◌-◌, ◌<◌, ◌∙◌, ◌∷◌, ◌≡◌,
}
use fpga_network_processing.Monitor.Verdict.{Beat}
use fpga_network_processing.Bench.FifoDriver.{chunk_size}
use fpga_network_processing.Bench.FifoDriver.Chunks.{chunks, chunks_done, chunks_more}
use fpga_network_processing.Bench.PipelineDriver.Edges.{gets, got}
use fpga_network_processing.Bench.PipelineDriver.Drain.{Ends, puts, nones}

-- More than `8 * n` bytes make more than `n` beats.
pub many_chunks :
    (n fuel : ℕ) (pkt : List ℕ) (pos : ℕ)
    → 8 * n < length pkt - pos
    → length pkt - pos < fuel
    → n < length (chunks fuel pkt pos)
many_chunks n zero pkt pos h enough = absurd (omega arith)
many_chunks zero (suc fuel) pkt pos h enough =
    omega (arith, ap length (chunks_more fuel pkt pos (lt→ltb pos (length pkt) (omega arith))))
many_chunks (suc n) (suc fuel) pkt pos h enough =
    let more = chunks_more fuel pkt pos (lt→ltb pos (length pkt) (omega arith)) in
    omega (
      arith,
      ap length more,
      many_chunks n fuel pkt (pos + chunk_size 8 pkt pos) (omega arith) (omega arith),
    )

Ends-cons : (b : Beat) (bs : List Beat) → b.1 ≡ false → Ends bs → Ends (b ∷ bs)
Ends-cons b [] h e = absurd e
Ends-cons b (c ∷ bs) h e = (h, e)

-- The beats of a packet end where it ends.
pub Ends-chunks :
    (fuel : ℕ) (pkt : List ℕ) (pos : ℕ)
    → pos < length pkt
    → length pkt - pos < fuel
    → Ends (chunks fuel pkt pos)
Ends-chunks zero pkt pos h enough = absurd (omega arith)
Ends-chunks (suc zero) pkt pos h enough = absurd (omega arith)
Ends-chunks (suc (suc fuel)) pkt pos h enough =
    let nb = chunk_size 8 pkt pos in
    let beat : Beat = (take nb (drop pos pkt), leb (length pkt) (pos + nb)) in
    let more = chunks_more (suc fuel) pkt pos (lt→ltb pos (length pkt) h) in
    elim (Bool-cases (leb (length pkt) (pos + nb))) [
      | inl e ↦
          subst Ends
            (sym (more ∙ ap (λ cs. beat ∷ cs) (chunks_done fuel pkt (pos + nb) (ground arith)))) e
      | inr e ↦ subst Ends (sym more) (
          Ends-cons beat (chunks (suc fuel) pkt (pos + nb)) e
            (Ends-chunks (suc fuel) pkt (pos + nb) (ground arith) (ground arith)))
    ]

pub Ends-drop : (m : ℕ) (bs : List Beat) → m < length bs → Ends bs → Ends (drop m bs)
Ends-drop zero bs h e = e
Ends-drop (suc m) [] h e = e
Ends-drop (suc m) (b ∷ []) h e = absurd (omega arith)
Ends-drop (suc m) (b ∷ c ∷ bs) h e = Ends-drop m (c ∷ bs) (omega arith) e.1

-- Rows that start with empty stages.
pub drop_nones :
    (a b : ℕ) (l : List (Option Beat)) → drop a (nones b ++ l) ≡ nones (b - a) ++ drop (a - b) l
drop_nones a zero l = ap₂ (λ j k. nones j ++ drop k l) {x = 0} {u = a} (omega arith) (omega arith)
drop_nones zero (suc b) l =
    ap₂ (λ j k. nones j ++ drop k l) {x = suc b} {u = 0} (omega arith) (omega arith)
drop_nones (suc a) (suc b) l =
    drop_nones a b l
    ∙ ap₂ (λ j k. nones j ++ drop k l) {x = b - a} {u = a - b} (omega arith) (omega arith)

pub drop-map : (m : ℕ) (bs : List Beat) → drop m (map some bs) ≡ map some (drop m bs)
drop-map zero bs = refl
drop-map (suc m) [] = refl
drop-map (suc m) (b ∷ bs) = drop-map m bs

module _ {Acc : Type 0} (put : List ℕ → Bool → Acc → Acc) where
  pub gets-nones :
      (a b : ℕ) (l : List (Option Beat)) (acc : Acc)
      → gets put (take a (nones b ++ l)) acc ≡ gets put (take (a - b) l) acc
  gets-nones a zero l acc = ap (λ j. gets put (take j l) acc) {x = a} (omega arith)
  gets-nones zero (suc b) l acc = ap (λ j. gets put (take j l) acc) {x = 0} (omega arith)
  gets-nones (suc a) (suc b) l acc =
      gets-nones a b l acc ∙ ap (λ j. gets put (take j l) acc) {x = a - b} (omega arith)

  pub gets-some :
      (m : ℕ) (bs : List Beat) (acc : Acc)
      → gets put (take m (map some bs)) acc ≡ puts put (take m bs) acc
  gets-some zero bs acc = refl
  gets-some (suc m) [] acc = refl
  gets-some (suc m) (b ∷ bs) acc = gets-some m bs (put b.0 b.1 acc)

  pub gets_next :
      (n : ℕ) (l : List (Option Beat)) (acc : Acc)
      → got put (get_or (drop n l) 0 none) (gets put (take n l) acc) ≡ gets put (take (suc n) l) acc
  gets_next zero [] acc = refl
  gets_next zero (o ∷ l) acc = refl
  gets_next (suc n) [] acc = refl
  gets_next (suc n) (o ∷ l) acc = gets_next n l (got put o acc)

  pub puts-take-drop :
      (m : ℕ) (bs : List Beat) (acc : Acc)
      → puts put (drop m bs) (puts put (take m bs) acc) ≡ puts put bs acc
  puts-take-drop zero bs acc = refl
  puts-take-drop (suc m) [] acc = refl
  puts-take-drop (suc m) (b ∷ bs) acc = puts-take-drop m bs (put b.0 b.1 acc)
