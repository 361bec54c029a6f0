-- ===== src/Fifo/Invariant.antt =====
-- The bounds of the registers of axis_fifo.sv, and the meaning of `m_tvalid`.
use fpga_network_processing.Base.{arith, false, not, ◌<◌, ◌==◌, ◌^◌, ◌≡◌, ◌≤◌}
use fpga_network_processing.Fifo.{Fifo, Inputs, depth, ptr_diff, posedge}

module _ {A : Type 0} where
  pub record IsValid (f : Fifo A) : Type 0 where
    pub wr_in : f.wr_ptr < 2 ^ 5
    pub rd_in : f.rd_ptr < 2 ^ 5
    pub fits : ptr_diff f ≤ depth
    pub shown : f.m_tvalid ≡ not (ptr_diff f == 0)

  -- The reset makes the registers valid, whatever they were.
  pub reset-IsValid :
      (i : Inputs A) (f : Fifo A)
      → i.rst_n ≡ false
      → IsValid (posedge i f) × (ptr_diff (posedge i f) ≡ 0)
  unfolding posedge ptr_diff
  reset-IsValid i f h = ground arith

  -- An edge, with reset or without, keeps the pointers in 5 bits, at most 16 entries between them,
  -- and `m_tvalid` the same as not empty.
  pub posedge-IsValid : (i : Inputs A) {f : Fifo A} → IsValid f → IsValid (posedge i f)
  unfolding posedge ptr_diff
  posedge-IsValid i v = ground arith
