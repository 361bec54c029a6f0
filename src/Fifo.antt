-- ===== src/Fifo.antt =====
-- rtl/interfaces/axis_fifo.sv at its default `DEPTH`, 16, so `A_WIDTH` is 4 and a pointer has 5
-- bits. An entry `{s_tlast, s_tkeep, s_tdata}` is a value of any type: the circuit only moves it.
-- `posedge` is the rising edge of the clock; the outputs are functions of the registers.
pub mod Queue
pub mod Invariant
pub mod Refine
pub mod Trace
mod Tests
use fpga_network_processing.Base.{
  Bool, false, if◌then◌else◌, leb, not, true, ℕ, ◌%◌, ◌&&◌, ◌+◌, ◌-◌, ◌==◌, ◌^◌,
}

pub record Fifo (A : Type 0) : Type 0 where
  pub ram : ℕ → A
  pub wr_ptr : ℕ
  pub rd_ptr : ℕ
  pub m_tvalid : Bool

abbrev pub depth : ℕ
depth = 16

abbrev pub next_ptr : ℕ → ℕ
next_ptr p = (p + 1) % 2 ^ 5

module _ {A : Type 0} where
  unfoldable pub ptr_diff : Fifo A → ℕ
  ptr_diff f = (f.wr_ptr + 2 ^ 5 - f.rd_ptr) % 2 ^ 5

  abbrev pub used : Fifo A → ℕ
  used f = ptr_diff f

  unfoldable pub empty : Fifo A → Bool
  empty f = ptr_diff f == 0

  unfoldable pub full : Fifo A → Bool
  full f = ptr_diff f == depth

  unfoldable pub almost_full : Fifo A → Bool
  almost_full f = leb (depth - 2) (ptr_diff f)

  unfoldable pub almost_empty : Fifo A → Bool
  almost_empty f = leb (ptr_diff f) 2

  unfoldable pub s_tready : Fifo A → Bool
  unfolding full
  s_tready f = not (full f)

  -- The entry at the read pointer, `{m_tlast, m_tkeep, m_tdata}`.
  unfoldable pub m_data : Fifo A → A
  m_data f = f.ram (f.rd_ptr % 2 ^ 4)

  abbrev pub store : (ℕ → A) → ℕ → A → ℕ → A
  store ram k v j = if j == k then v else ram j

-- The inputs at an edge.
pub record Inputs (A : Type 0) : Type 0 where
  pub rst_n : Bool
  pub s_data : A
  pub s_tvalid : Bool
  pub m_tready : Bool

module _ {A : Type 0} where
  unfoldable pub wren : Inputs A → Fifo A → Bool
  unfolding s_tready
  wren i f = i.s_tvalid && s_tready f

  unfoldable pub rden : Inputs A → Fifo A → Bool
  rden i f = f.m_tvalid && i.m_tready

  -- `m_tvalid` after an edge without reset.
  unfoldable pub next_tvalid : Inputs A → Fifo A → Bool
  unfolding wren rden empty
  next_tvalid i f =
      if rden i f && wren i f
      then f.m_tvalid
      else if rden i f
      then (if leb (ptr_diff f) 1 then false else f.m_tvalid)
      else if wren i f
      then true
      else if not f.m_tvalid && not (empty f)
      then true
      else f.m_tvalid

  unfoldable pub posedge : Inputs A → Fifo A → Fifo A
  unfolding wren rden next_tvalid
  posedge i f =
      if i.rst_n
      then record {
        ram = if wren i f then store f.ram (f.wr_ptr % 2 ^ 4) i.s_data else f.ram;
        wr_ptr = if wren i f then next_ptr f.wr_ptr else f.wr_ptr;
        rd_ptr = if rden i f then next_ptr f.rd_ptr else f.rd_ptr;
        m_tvalid = next_tvalid i f;
      }
      else record f { wr_ptr = 0; rd_ptr = 0; m_tvalid = false }
