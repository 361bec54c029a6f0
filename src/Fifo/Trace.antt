-- ===== src/Fifo/Trace.antt =====
-- Runs of axis_fifo.sv over any inputs without a reset.
use fpga_network_processing.Base.{
  Bool, List, [], ap, append-nil, append_assoc, ap₂, arith, false, if◌then◌else◌, leb, length, none,
  not, refl, some, suc, sym, true, zero, ℕ, ◌%◌, ◌&&◌, ◌++◌, ◌<◌, ◌==◌, ◌^◌, ◌∙◌, ◌∷◌, ◌≡◌, ◌≤◌,
}
use fpga_network_processing.Fifo.{
  Fifo, Inputs, depth, ptr_diff, used, empty, full, almost_full, almost_empty, s_tready, m_data,
  wren, rden, posedge,
}
use fpga_network_processing.Fifo.Queue
use fpga_network_processing.Fifo.Queue.{View}
use fpga_network_processing.Fifo.Invariant.{IsValid, posedge-IsValid}
use fpga_network_processing.Fifo.Refine.{
  window, contents, length-window, posedge_refines, takes_lem, leaves_lem,
}

module _ {A : Type 0} where
  abbrev pub AllOn : List (Inputs A) → Type 0
  AllOn [] = Unit {0}
  AllOn (i ∷ is) = (i.rst_n ≡ true) × AllOn is

  -- What a neighbour sees of the circuit before an edge.
  unfoldable pub view : Fifo A → View A
  view f = record { ready = s_tready f; shown = if f.m_tvalid then some (m_data f) else none }

  unfoldable pub run : List (Inputs A) → Fifo A → List (View A)
  run [] f = []
  run (i ∷ is) f = view f ∷ run is (posedge i f)

  unfoldable pub after : List (Inputs A) → Fifo A → Fifo A
  after [] f = f
  after (i ∷ is) f = after is (posedge i f)

  -- The entries that are taken in, and those that leave, over a run.
  unfoldable pub taken : List (Inputs A) → Fifo A → List A
  taken [] f = []
  taken (i ∷ is) f = (if wren i f then i.s_data ∷ [] else []) ++ taken is (posedge i f)

  unfoldable pub left : List (Inputs A) → Fifo A → List A
  left [] f = []
  left (i ∷ is) f = (if rden i f then m_data f ∷ [] else []) ++ left is (posedge i f)

  view-window :
      (ram : ℕ → A) (h n : ℕ)
      → Queue.head? (window ram h n) ≡ (if not (n == 0) then some (ram (h % 2 ^ 4)) else none)
  view-window ram h zero = refl
  view-window ram h (suc n) = ground arith

  pub view_refines : {f : Fifo A} → IsValid f → view f ≡ Queue.view (contents f)
  unfolding view s_tready m_data
  view_refines {f} v = ground (
    arith,
    v.shown,
    view-window f.ram f.rd_ptr (ptr_diff f),
    length-window f.ram f.rd_ptr (ptr_diff f),
  )

  -- From a valid state, and with no reset, what a neighbour sees of the FIFO before every edge is
  -- what it sees of a queue of at most 16 entries that starts with the FIFO's contents.
  pub run_refines :
      (is : List (Inputs A)) {f : Fifo A}
      → AllOn is
      → IsValid f
      → run is f ≡ Queue.run is (contents f)
  unfolding run Queue.run
  run_refines [] on v = refl
  run_refines (i ∷ is) {f} on v =
      ap₂ ◌∷◌ (view_refines v)
        (run_refines is on.1 (posedge-IsValid i v) ∙ ap (Queue.run is) (posedge_refines i v on.0))

  pop_balance :
      (ram : ℕ → A) (h n : ℕ) (wanted : Bool) (more : List A)
      → let q = window ram h n in
        q ++ more
        ≡ (if Queue.shows q && wanted then ram (h % 2 ^ 4) ∷ [] else [])
          ++ ((if Queue.shows q && wanted then Queue.rest q else q) ++ more)
  pop_balance ram h zero wanted more = refl
  pop_balance ram h (suc n) true more = refl
  pop_balance ram h (suc n) false more = refl

  pub step_balance :
      (i : Inputs A) {f : Fifo A}
      → IsValid f
      → i.rst_n ≡ true
      → contents f ++ (if wren i f then i.s_data ∷ [] else [])
        ≡ (if rden i f then m_data f ∷ [] else []) ++ contents (posedge i f)
  unfolding m_data Queue.step
  step_balance i {f} v on =
      pop_balance f.ram f.rd_ptr (ptr_diff f) i.m_tready (if wren i f then i.s_data ∷ [] else [])
      ∙ ap₂
          (λ r w.
            (if r then f.ram (f.rd_ptr % 2 ^ 4) ∷ [] else [])
            ++ ((if r then Queue.rest (contents f) else contents f)
                ++ (if w then i.s_data ∷ [] else [])))
          (sym (leaves_lem i f v)) refl
      ∙ ap (λ q. (if rden i f then f.ram (f.rd_ptr % 2 ^ 4) ∷ [] else []) ++ q) (sym step)
    where
      step :
          contents (posedge i f)
          ≡ (if rden i f then Queue.rest (contents f) else contents f)
            ++ (if wren i f then i.s_data ∷ [] else [])
      step = rw (leaves_lem i f v, takes_lem i f v) (posedge_refines i v on)

  -- Over a run with no reset, nothing is lost, doubled or reordered: what a valid FIFO held,
  -- followed by what it took over a run, is what left over the run, followed by what it holds at
  -- the end.
  pub taken-left :
      (is : List (Inputs A)) {f : Fifo A}
      → AllOn is
      → IsValid f
      → contents f ++ taken is f ≡ left is f ++ contents (after is f)
  unfolding taken left after
  taken-left [] {f} on v = append-nil (contents f)
  taken-left (i ∷ is) {f} on v =
      let w = if wren i f then i.s_data ∷ [] else [] in
      let r = if rden i f then m_data f ∷ [] else [] in
      let f' = posedge i f in
      sym (append_assoc (contents f) w (taken is f'))
      ∙ ap (λ q. q ++ taken is f') (step_balance i v on.0)
      ∙ append_assoc r (contents f') (taken is f')
      ∙ ap (◌++◌ r) (taken-left is on.1 (posedge-IsValid i v))
      ∙ sym (append_assoc r (left is f') (contents (after is f')))

  -- The flags of a valid FIFO count its contents: how many entries there are, at most 16, and from
  -- that number empty, full, almost full (14 or more), almost empty (2 or fewer), whether an entry
  -- is shown and whether one can be taken.
  pub flags_lem :
      {f : Fifo A}
      → IsValid f
      → let n = length (contents f) in
        (used f ≡ n)
        × (n ≤ depth)
        × (empty f ≡ (n == 0))
        × (full f ≡ (n == depth))
        × (almost_full f ≡ leb 14 n)
        × (almost_empty f ≡ leb n 2)
        × (f.m_tvalid ≡ not (n == 0))
        × (s_tready f ≡ not (n == depth))
  unfolding empty full almost_full almost_empty s_tready
  flags_lem {f} v = ground (arith, length-window f.ram f.rd_ptr (ptr_diff f))

  head_window :
      (ram : ℕ → A) (h n : ℕ) (x : A) (q : List A)
      → window ram h n ≡ x ∷ q
      → (ram (h % 2 ^ 4) ≡ x) × (0 < n)
  head_window ram h zero x q e = absurd (ground arith)
  head_window ram h (suc n) x q e = (ground arith, omega arith)

  -- A valid FIFO shows its oldest entry.
  pub oldest_lem :
      {f : Fifo A} (x : A) (q : List A)
      → IsValid f
      → contents f ≡ x ∷ q
      → (f.m_tvalid ≡ true) × (m_data f ≡ x)
  unfolding m_data
  oldest_lem {f} x q v e =
      let (data_is, some_there) = head_window f.ram f.rd_ptr (ptr_diff f) x q e in
      (ground (arith, v.shown, some_there), data_is)

  pub nothing_lem :
      {f : Fifo A} → IsValid f → contents f ≡ [] → (f.m_tvalid ≡ false) × (empty f ≡ true)
  unfolding empty
  nothing_lem {f} v e =
      let none_there : ptr_diff f ≡ 0 =
        omega (arith, length-window f.ram f.rd_ptr (ptr_diff f), ap length e) in
      (ground (arith, v.shown), ground arith)
