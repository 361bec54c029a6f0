-- ===== src/Stage.antt =====
-- rtl/interfaces/axis_register.sv, the register stage of the pipeline. A beat
-- `{s_tlast, s_tkeep, s_tdata}` is a value of any type: the circuit only moves it. `posedge` is the
-- rising edge of the clock.
pub mod Flow
use fpga_network_processing.Base.{Bool, false, if◌then◌else◌, not, ◌||◌}
use fpga_network_processing.Fifo.{Inputs}

pub record Stage (A : Type 0) : Type 0 where
  pub pipe : A
  pub pipe_valid : Bool

module _ {A : Type 0} where
  unfoldable pub s_tready : Inputs A → Stage A → Bool
  s_tready i r = i.m_tready || not r.pipe_valid

  unfoldable pub posedge : Inputs A → Stage A → Stage A
  posedge i r =
      if i.rst_n
      then if i.m_tready || not r.pipe_valid
        then record { pipe = i.s_data; pipe_valid = i.s_tvalid }
        else r
      else record r { pipe_valid = false }
