-- ===== src/Crc.antt =====
-- rtl/interfaces/crc32.sv at its default `DATA_WIDTH`, 32: one value of `Crc` for the registers,
-- and `posedge` for the rising edge of the clock.
pub mod Poly
pub mod Equivalence
pub mod Stream
mod Tests
use fpga_network_processing.Base.{
  Bool, bit_xor, false, if◌then◌else◌, suc, true, zero, ℕ, ◌%◌, ◌-◌, ◌/◌, ◌==◌, ◌^◌,
}

pub record Crc : Type 0 where
  pub crc_state : ℕ
  pub crc_out : ℕ
  pub crc_valid : Bool

pub record Inputs : Type 0 where
  pub rst_n : Bool
  pub data_in : ℕ
  pub data_valid : Bool
  pub data_last : Bool

abbrev pub data_width : ℕ
data_width = 32

-- One round of the loop: the feedback bit, the shift, and the polynomial.
unfoldable pub next_bit : ℕ → ℕ → ℕ
next_bit crc d =
    let fb = bit_xor (crc % 2) d in
    let shifted = crc / 2 in if fb == 1 then bit_xor shifted 0xedb88320 else shifted

-- The rounds from bit `i` of `data_in` on.
unfoldable pub next_bits : ℕ → ℕ → ℕ → ℕ → ℕ
next_bits zero i d crc = crc
next_bits (suc left) i d crc = next_bits left (suc i) d (next_bit crc (d / 2 ^ i % 2))

-- The combinational `crc_next`.
unfoldable pub crc_next : Crc → ℕ → ℕ
crc_next c d = next_bits data_width 0 d c.crc_state

-- `~x` on 32 bits.
abbrev pub not32 : ℕ → ℕ
not32 x = 2 ^ 32 - 1 - x

unfoldable pub posedge : Inputs → Crc → Crc
posedge i c =
    if i.rst_n
    then if i.data_valid
      then if i.data_last
        then record {
          crc_state = 0xffffffff;
          crc_out = not32 (crc_next c i.data_in);
          crc_valid = true;
        }
        else record c { crc_state = crc_next c i.data_in; crc_valid = false }
      else record c { crc_valid = false }
    else record { crc_state = 0xffffffff; crc_out = 0; crc_valid = false }
