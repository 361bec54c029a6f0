-- ===== src/Bench/Clock.antt =====
-- The `Sim` of tb_crc.cpp, tb_axi_lite.cpp and tb_rate_limiter.cpp: a device, its input ports and
-- the clock. The device is any that moves on the rising edge alone, by `posedge`.
use fpga_network_processing.Base.{Bool, false, if◌then◌else◌, not, refl, suc, true, zero, ℕ, ◌≡◌}

pub record Sim (D I : Type 0) : Type 0 where
  pub dut : D
  pub ports : I
  pub clk : Bool

module _ {D I : Type 0} (posedge : I → D → D) where
  unfoldable pub pre : Sim D I → Sim D I
  pre s = record s { clk = false }

  unfoldable pub post : Sim D I → Sim D I
  post s = record s { dut = if not s.clk then posedge s.ports s.dut else s.dut; clk = true }

  unfoldable pub tick : Sim D I → Sim D I
  unfolding pre post
  tick s = post (pre s)

  unfoldable pub ticks : ℕ → Sim D I → Sim D I
  unfolding tick
  ticks zero s = s
  ticks (suc n) s = ticks n (tick s)

  -- `pre()`, assignments to the ports, `post()`.
  unfoldable pub drive : (I → I) → Sim D I → Sim D I
  unfolding pre post
  drive assign s = let low = pre s in post (record low { ports = assign low.ports })

  -- One such cycle is one edge under the new ports.
  pub drive_lem :
      (assign : I → I) (s : Sim D I)
      → drive assign s
        ≡ record { dut = posedge (assign s.ports) s.dut; ports = assign s.ports; clk = true }
  unfolding drive
  drive_lem assign s = refl
