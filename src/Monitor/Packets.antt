-- ===== src/Monitor/Packets.antt =====
-- Packets of beats one after the other, and the comparison of a list of packets with its own start.
use fpga_network_processing.Base.{
  List, [], ap, append-nil, arith, drop, false, length, refl, sym, true, ℕ, ◌++◌, ◌∙◌, ◌∷◌, ◌≡◌,
}
use fpga_network_processing.Monitor.Verdict.{Beat, packets, leftover, mismatches, bytes_eq_iff}

pub packets-append :
    (xs ys : List Beat) (start : List ℕ)
    → packets start (xs ++ ys) ≡ packets start xs ++ packets (leftover start xs) ys
packets-append [] ys start = refl
packets-append ((bytes, true) ∷ xs) ys start = ap (◌∷◌ (start ++ bytes)) (packets-append xs ys [])
packets-append ((bytes, false) ∷ xs) ys start = packets-append xs ys (start ++ bytes)

pub leftover-append :
    (xs ys : List Beat) (start : List ℕ)
    → leftover start (xs ++ ys) ≡ leftover (leftover start xs) ys
leftover-append [] ys start = refl
leftover-append ((bytes, true) ∷ xs) ys start = leftover-append xs ys []
leftover-append ((bytes, false) ∷ xs) ys start = leftover-append xs ys (start ++ bytes)

pub mismatches_start : (ps qs : List (List ℕ)) → mismatches ps (ps ++ qs) ≡ 0
mismatches_start [] qs = refl
mismatches_start (p ∷ ps) qs = ground (arith, mismatches_start ps qs, (bytes_eq_iff p p).1 refl)

pub drop_start : (ps qs : List (List ℕ)) → drop (length ps) (ps ++ qs) ≡ qs
drop_start [] qs = refl
drop_start (p ∷ ps) qs = drop_start ps qs

pub mismatches_self :
    (ps : List (List ℕ)) → (mismatches ps ps ≡ 0) × (length (drop (length ps) ps) ≡ 0)
mismatches_self ps = (
  ap (mismatches ps) (sym (append-nil ps)) ∙ mismatches_start ps [],
  ap (λ qs. length (drop (length ps) qs)) (sym (append-nil ps)) ∙ ap length (drop_start ps []),
)
