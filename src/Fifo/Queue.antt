-- ===== src/Fifo/Queue.antt =====
-- What axis_fifo.sv promises: a queue of at most 16 entries, oldest first. An entry offered to a
-- queue that is not full is taken; the oldest entry, if any, is shown and leaves when it is wanted.
use fpga_network_processing.Base.{
  Bool, List, Option, [], false, if◌then◌else◌, length, none, not, some, true, ◌&&◌, ◌++◌, ◌==◌,
  ◌∷◌,
}
use fpga_network_processing.Fifo.{depth, Inputs}

-- What a neighbour sees before each edge: whether an entry can be taken, and the one shown.
pub record View (A : Type 0) : Type 0 where
  pub ready : Bool
  pub shown : Option A

module _ {A : Type 0} where
  unfoldable pub takes : Inputs A → List A → Bool
  takes i q = i.s_tvalid && not (length q == depth)

  abbrev pub shows : List A → Bool
  shows [] = false
  shows (x ∷ q) = true

  abbrev pub rest : List A → List A
  rest [] = []
  rest (x ∷ q) = q

  abbrev pub head? : List A → Option A
  head? [] = none
  head? (x ∷ q) = some x

  unfoldable pub step : Inputs A → List A → List A
  unfolding takes
  step i q =
      (if shows q && i.m_tready then rest q else q) ++ (if takes i q then i.s_data ∷ [] else [])

  abbrev pub view : List A → View A
  view q = record { ready = not (length q == depth); shown = head? q }

  unfoldable pub run : List (Inputs A) → List A → List (View A)
  run [] q = []
  run (i ∷ is) q = view q ∷ run is (step i q)
