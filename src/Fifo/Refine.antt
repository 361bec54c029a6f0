-- ===== src/Fifo/Refine.antt =====
-- axis_fifo.sv against the queue of its contents.
use fpga_network_processing.Base.{
  Bool-cases, List, [], ap, append-nil, ap₂, arith, false, if◌then◌else◌, inl, inr, length, not,
  refl, suc, sym, true, zero, ℕ, ◌%◌, ◌&&◌, ◌++◌, ◌+◌, ◌-◌, ◌<◌, ◌==◌, ◌^◌, ◌∙◌, ◌∷◌, ◌≡◌,
}
use fpga_network_processing.Fifo.{
  Fifo, Inputs, depth, next_ptr, store, ptr_diff, s_tready, wren, rden, posedge,
}
use fpga_network_processing.Fifo.Queue
use fpga_network_processing.Fifo.Queue.{View}
use fpga_network_processing.Fifo.Invariant.{IsValid}

-- How far the write pointer is ahead.
abbrev gap : ℕ → ℕ → ℕ
gap w r = (w + 2 ^ 5 - r) % 2 ^ 5

module _ {A : Type 0} where
  -- The `n` entries from pointer `h` on.
  abbrev pub window : (ℕ → A) → ℕ → ℕ → List A
  window ram h zero = []
  window ram h (suc n) = ram (h % 2 ^ 4) ∷ window ram (h + 1) n

  abbrev pub contents : Fifo A → List A
  contents f = window f.ram f.rd_ptr (ptr_diff f)

  pub length-window : (ram : ℕ → A) (h n : ℕ) → length (window ram h n) ≡ n
  length-window ram h zero = refl
  length-window ram h (suc n) = ap suc (length-window ram (h + 1) n)

  -- Only the low four bits of a pointer count.
  window_mod : (ram : ℕ → A) (h k n : ℕ) → h % 2 ^ 4 ≡ k % 2 ^ 4 → window ram h n ≡ window ram k n
  window_mod ram h k zero e = refl
  window_mod ram h k (suc n) e = ap₂ ◌∷◌ (ap ram e) (window_mod ram (h + 1) (k + 1) n (omega arith))

  -- Writing just past a window that is not full extends it by the entry.
  window-store :
      (ram : ℕ → A) (w h n : ℕ) (x : A)
      → n < depth
      → w % 2 ^ 4 ≡ (h + n) % 2 ^ 4
      → window (store ram (w % 2 ^ 4) x) h (suc n) ≡ window ram h n ++ x ∷ []
  window-store ram w h zero x small e = ground arith
  window-store ram w h (suc n) x small e =
      let apart : (h % 2 ^ 4 == w % 2 ^ 4) ≡ false = ground arith in
      rw apart
        (ap (◌∷◌ (ram (h % 2 ^ 4))) (window-store ram w (h + 1) n x (omega arith) (omega arith)))

  pub ready_lem : {f : Fifo A} → IsValid f → s_tready f ≡ not (length (contents f) == depth)
  unfolding s_tready
  ready_lem {f} v = ground (arith, length-window f.ram f.rd_ptr (ptr_diff f))

  pub takes_lem : (i : Inputs A) (f : Fifo A) → IsValid f → wren i f ≡ Queue.takes i (contents f)
  unfolding wren s_tready Queue.takes
  takes_lem i f v = ground (arith, length-window f.ram f.rd_ptr (ptr_diff f))

  shows-window : (ram : ℕ → A) (h n : ℕ) → Queue.shows (window ram h n) ≡ not (n == 0)
  shows-window ram h zero = refl
  shows-window ram h (suc n) = ground arith

  pub leaves_lem :
      (i : Inputs A) (f : Fifo A) → IsValid f → rden i f ≡ (Queue.shows (contents f) && i.m_tready)
  unfolding rden
  leaves_lem i f v = ground (arith, shows-window f.ram f.rd_ptr (ptr_diff f), v.shown)

  -- The window after a write, a read, and both.
  module _ (ram : ℕ → A) (w r n : ℕ) (w_in : w < 2 ^ 5) (r_in : r < 2 ^ 5) where
    write_only :
        (x : A)
        → n < depth
        → gap w r ≡ n
        → window (store ram (w % 2 ^ 4) x) r (gap (next_ptr w) r) ≡ window ram r n ++ x ∷ []
    write_only x small e =
        let more : gap (next_ptr w) r ≡ suc n = omega arith in
        rw more (window-store ram w r n x small (omega arith))

    read_only :
        gap w r ≡ suc n → window ram (next_ptr r) (gap w (next_ptr r)) ≡ window ram (r + 1) n
    read_only e =
        let less : gap w (next_ptr r) ≡ n = omega arith in
        rw less (window_mod ram (next_ptr r) (r + 1) n (omega arith))

    read_write :
        (x : A)
        → n < depth
        → gap w r ≡ suc n
        → window (store ram (w % 2 ^ 4) x) (next_ptr r) (gap (next_ptr w) (next_ptr r))
          ≡ window ram (r + 1) n ++ x ∷ []
    read_write x small e =
        let same : gap (next_ptr w) (next_ptr r) ≡ suc n = omega arith in
        rw same (
          window_mod (store ram (w % 2 ^ 4) x) (next_ptr r) (r + 1) (suc n) (omega arith)
          ∙ window-store ram w (r + 1) n x small (omega arith))

  wren-lt : (i : Inputs A) (f : Fifo A) → IsValid f → wren i f ≡ true → ptr_diff f < depth
  unfolding wren s_tready
  wren-lt i f v h = ground arith

  rden-pos : (i : Inputs A) (f : Fifo A) → IsValid f → rden i f ≡ true → 0 < ptr_diff f
  unfolding rden
  rden-pos i f v h = ground arith

  -- One edge, in the four cases of what is taken and what leaves.
  contents-posedge :
      (i : Inputs A) (f : Fifo A) (n : ℕ)
      → IsValid f
      → i.rst_n ≡ true
      → gap f.wr_ptr f.rd_ptr ≡ n
      → contents (posedge i f)
        ≡ (if rden i f then Queue.rest (window f.ram f.rd_ptr n) else window f.ram f.rd_ptr n)
          ++ (if wren i f then i.s_data ∷ [] else [])
  unfolding posedge ptr_diff
  contents-posedge i f zero v on e = elim (Bool-cases (rden i f)) [
    | inl r ↦ absurd (omega (arith, rden-pos i f v r))
    | inr r ↦ elim (Bool-cases (wren i f)) [
      | inl w ↦
          rw (on, w, r)
            (write_only f.ram f.wr_ptr f.rd_ptr zero v.wr_in v.rd_in i.s_data (omega arith) e)
      | inr w ↦ rw (on, w, r, e)
    ]
  ]
  contents-posedge i f (suc n) v on e = elim (Bool-cases (wren i f)) [
    | inl w ↦ elim (Bool-cases (rden i f)) [
      | inl r ↦
          rw (on, w, r)
            (read_write f.ram f.wr_ptr f.rd_ptr n v.wr_in v.rd_in i.s_data
              (omega (arith, wren-lt i f v w)) e)
      | inr r ↦
          rw (on, w, r)
            (write_only f.ram f.wr_ptr f.rd_ptr (suc n) v.wr_in v.rd_in i.s_data
              (omega (arith, wren-lt i f v w)) e)
    ]
    | inr w ↦ elim (Bool-cases (rden i f)) [
      | inl r ↦
          rw (on, w, r)
            (read_only f.ram f.wr_ptr f.rd_ptr n v.wr_in v.rd_in e
              ∙ sym (append-nil (window f.ram (f.rd_ptr + 1) n)))
      | inr r ↦ rw (on, w, r, e) (sym (append-nil (window f.ram f.rd_ptr (suc n))))
    ]
  ]

  -- An edge without reset does to the contents what `Queue.step` does.
  pub posedge_refines :
      (i : Inputs A) {f : Fifo A}
      → IsValid f
      → i.rst_n ≡ true
      → contents (posedge i f) ≡ Queue.step i (contents f)
  unfolding Queue.step ptr_diff
  posedge_refines i {f} v on =
      contents-posedge i f (ptr_diff f) v on refl
      ∙ ap₂
          (λ r w.
            (if r then Queue.rest (contents f) else contents f)
            ++ (if w then i.s_data ∷ [] else []))
          (leaves_lem i f v) (takes_lem i f v)
