-- ===== src/Generator/Checksum.antt =====
-- `PacketGen::ip_checksum`. The pointer and the length are one list of bytes.
use fpga_network_processing.Base.{
  List, [], bit_and, bit_or, if◌then◌else◌, suc, zero, ℕ, ◌%◌, ◌*◌, ◌+◌, ◌-◌, ◌/◌, ◌==◌, ◌^◌, ◌∷◌,
}

-- `(data[i] << 8) | data[i + 1]`, stored in 16 bits.
abbrev pub word16 : ℕ → ℕ → ℕ
word16 hi lo = bit_or (hi * 2 ^ 8) lo % 2 ^ 16

-- The loop over the pairs of bytes; a last single byte is padded with 0.
unfoldable pub sum_words : ℕ → List ℕ → ℕ
sum_words sum [] = sum
sum_words sum (a ∷ []) = (sum + word16 a 0) % 2 ^ 32
sum_words sum (a ∷ b ∷ bytes) = sum_words ((sum + word16 a b) % 2 ^ 32) bytes

-- `while (sum >> 16) sum = (sum & 0xFFFF) + (sum >> 16)`, on fuel.
unfoldable pub fold_carries : ℕ → ℕ → ℕ
fold_carries zero sum = sum
fold_carries (suc fuel) sum =
    let rest = fold_carries fuel ((bit_and sum 0xffff + sum / 2 ^ 16) % 2 ^ 32) in
    if sum / 2 ^ 16 == 0 then sum else rest

-- Three rounds are enough for a sum of 32 bits: `fold_carries_ends`.
abbrev pub fold_fuel : ℕ
fold_fuel = 3

unfoldable pub ip_checksum : List ℕ → ℕ
ip_checksum bytes = bit_and (2 ^ 32 - 1 - fold_carries fold_fuel (sum_words 0 bytes)) 0xffff
