-- ===== src/TokenBucket.antt =====
-- rtl/filters/token_bucket.sv at its default `C_WIDTH`, 48: the registers, `posedge` for the rising
-- edge of the clock, and the combinational `pkt_allow`.
pub mod Bounds
pub mod Rate
mod Tests
use fpga_network_processing.Base.{Bool, if◌then◌else◌, leb, ltb, ℕ, ◌%◌, ◌&&◌, ◌+◌, ◌-◌, ◌^◌}

pub record TokenBucket : Type 0 where
  pub tokens : ℕ
  pub timer : ℕ

pub record Config : Type 0 where
  pub cfg_rate : ℕ
  pub cfg_burst : ℕ
  pub cfg_interval : ℕ

pub record Inputs : Type 0 where
  pub rst_n : Bool
  pub pkt_valid : Bool
  pub pkt_length : ℕ
  pub cfg : Config

-- Whether this edge refills.
unfoldable pub refills : Config → TokenBucket → Bool
refills cfg b = leb cfg.cfg_interval b.timer

-- The tokens after a refill; the sum has 48 bits.
unfoldable pub refilled : Config → ℕ → ℕ
refilled cfg tokens =
    let sum = (tokens + cfg.cfg_rate) % 2 ^ 48 in
    if ltb sum cfg.cfg_burst then sum else cfg.cfg_burst

unfoldable pub pkt_allow : Inputs → TokenBucket → Bool
pkt_allow i b = i.pkt_valid && leb i.pkt_length b.tokens

-- A packet that is let through sets `tokens` after the refill has, so that it undoes the refill.
unfoldable pub posedge : Inputs → TokenBucket → TokenBucket
unfolding refills refilled
posedge i b =
    if i.rst_n
    then record {
      tokens =
          if i.pkt_valid && leb i.pkt_length b.tokens
          then b.tokens - i.pkt_length
          else if refills i.cfg b
          then refilled i.cfg b.tokens
          else b.tokens;
      timer = if refills i.cfg b then 0 else (b.timer + 1) % 2 ^ 32;
    }
    else record { tokens = i.cfg.cfg_burst; timer = 0 }
