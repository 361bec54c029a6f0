-- ===== src/Bench/FifoDriver/Chunks.antt =====
-- The beats that `push_packet` of tb_axis_fifo.cpp cuts a packet into, 8 bytes to a beat.
use fpga_network_processing.Base.{
  Bool-cases, List, [], ap, append_assoc, arith, drop, false, inl, inr, leb, length, length-drop,
  ltb, lt→ltb, refl, suc, take, take-append-drop, true, zero, ℕ, ◌*◌, ◌++◌, ◌+◌, ◌-◌, ◌<◌, ◌∙◌, ◌∷◌,
  ◌≡◌, ◌≤◌,
}
use fpga_network_processing.Monitor.Verdict.{Beat, packets, leftover}
use fpga_network_processing.Bench.FifoDriver.{chunk_size}

-- The beats of a packet from `pos` on, as many as `n`.
unfoldable pub chunks : ℕ → List ℕ → ℕ → List Beat
chunks zero pkt pos = []
chunks (suc n) pkt pos = elim (ltb pos (length pkt)) [
  | false ↦ []
  | true ↦
      let nb = chunk_size 8 pkt pos in
      (take nb (drop pos pkt), leb (length pkt) (pos + nb)) ∷ chunks n pkt (pos + nb)
]

pub chunks_done :
    (n : ℕ) (pkt : List ℕ) (pos : ℕ) → ltb pos (length pkt) ≡ false → chunks (suc n) pkt pos ≡ []
unfolding chunks
chunks_done n pkt pos h = ground arith

pub chunks_more :
    (n : ℕ) (pkt : List ℕ) (pos : ℕ)
    → ltb pos (length pkt) ≡ true
    → let nb = chunk_size 8 pkt pos in
      chunks (suc n) pkt pos
      ≡ (take nb (drop pos pkt), leb (length pkt) (pos + nb)) ∷ chunks n pkt (pos + nb)
unfolding chunks
chunks_more n pkt pos h = ground arith

-- How many beats a packet has at most.
pub few_chunks :
    (n fuel : ℕ) (pkt : List ℕ) (pos : ℕ)
    → length pkt ≤ pos + 8 * n
    → length (chunks fuel pkt pos) ≤ n
unfolding chunks
few_chunks n zero pkt pos h = omega arith
few_chunks zero (suc fuel) pkt pos h =
    omega (arith, ap length (chunks_done fuel pkt pos (ground arith)))
few_chunks (suc n) (suc fuel) pkt pos h = elim (Bool-cases (ltb pos (length pkt))) [
  | inr e ↦ omega (arith, ap length (chunks_done fuel pkt pos e))
  | inl e ↦
      let rest = few_chunks n fuel pkt (pos + chunk_size 8 pkt pos) (omega arith) in
      omega (arith, ap length (chunks_more fuel pkt pos e), rest)
]

pub take_all : (n : ℕ) (bs : List ℕ) → length bs ≤ n → take n bs ≡ bs
take_all zero [] h = refl
take_all zero (b ∷ bs) h = absurd (omega arith)
take_all (suc n) [] h = refl
take_all (suc n) (b ∷ bs) h = ap (◌∷◌ b) (take_all n bs (omega arith))

pub drop-drop : {A : Type 0} (n k : ℕ) (bs : List A) → drop k (drop n bs) ≡ drop (n + k) bs
drop-drop zero k bs = ap (λ j. drop j bs) (omega arith)
drop-drop (suc n) zero [] = ap (λ j. drop j []) {x = suc n} (omega arith)
drop-drop (suc n) (suc k) [] = ap (λ j. drop j []) {x = suc (n + suc k)} (omega arith)
drop-drop (suc n) k (b ∷ bs) =
    drop-drop n k bs ∙ ap (λ j. drop j (b ∷ bs)) {x = suc (n + k)} (omega arith)

-- Beats from `pos` on are one packet, with the rest of the bytes, and nothing left over.
pub packets-chunks :
    (n : ℕ) (pkt : List ℕ) (pos : ℕ) (start : List ℕ)
    → pos < length pkt
    → length pkt - pos < n
    → (packets start (chunks n pkt pos) ≡ (start ++ drop pos pkt) ∷ [])
      × (leftover start (chunks n pkt pos) ≡ [])
packets-chunks zero pkt pos start h enough = absurd (omega arith)
packets-chunks (suc zero) pkt pos start h enough = absurd (omega arith)
packets-chunks (suc (suc n)) pkt pos start h enough =
    let nb = chunk_size 8 pkt pos in
    elim (Bool-cases (leb (length pkt) (pos + nb))) [
      | inl e ↦ ground (
        arith,
        chunks_more (suc n) pkt pos (lt→ltb _ _ h),
        chunks_done n pkt (pos + nb) (ground arith),
        take_all nb (drop pos pkt) (ground (arith, length-drop pos pkt)),
      )
      | inr e ↦ ground (
        arith,
        chunks_more (suc n) pkt pos (lt→ltb _ _ h),
        packets-chunks (suc n) pkt (pos + nb) (start ++ take nb (drop pos pkt)) (ground arith)
            (ground arith),
        take-append-drop nb (drop pos pkt),
        drop-drop pos nb pkt,
        append_assoc start (take nb (drop pos pkt)) (drop (pos + nb) pkt),
      )
    ]
