-- ===== src/Crc/Poly.antt =====
-- One step of division by the polynomial of crc32.sv.
use native.Mathlib.Nat.{pow-suc}
use fpga_network_processing.Base.{
  ap, arith, bit_xor, if◌then◌else◌, refl, suc, zero, ℕ, ◌%◌, ◌*◌, ◌+◌, ◌/◌, ◌<◌, ◌==◌, ◌^◌, ◌≡◌,
}
use fpga_network_processing.Base.Bits.{
  bit_xor_step, div-bit_xor, mod-bit_xor, bit_xor_comm, bit_xor_assoc, bit_xor_self, bit_xor-zero,
  xor_swap,
}
use fpga_network_processing.Crc.{next_bit}

-- Division by `x` modulo the polynomial.
abbrev pub shift1 : ℕ → ℕ
shift1 c = if c % 2 == 1 then bit_xor (c / 2) 0xedb88320 else c / 2

unfoldable pub shift : ℕ → ℕ → ℕ
shift zero c = c
shift (suc n) c = shift n (shift1 c)

pub shift1-bit_xor : (a b : ℕ) → shift1 (bit_xor a b) ≡ bit_xor (shift1 a) (shift1 b)
shift1-bit_xor a b = ground (
  arith,
  mod-bit_xor a b,
  div-bit_xor a b,
  xor_swap (a / 2) 0xedb88320 (b / 2) 0xedb88320,
  bit_xor_self 0xedb88320,
  bit_xor-zero (bit_xor (a / 2) (b / 2)),
  bit_xor_assoc (a / 2) (b / 2) 0xedb88320,
  bit_xor_assoc (a / 2) 0xedb88320 (b / 2),
  bit_xor_comm (b / 2) 0xedb88320,
)

pub shift-bit_xor : (n a b : ℕ) → shift n (bit_xor a b) ≡ bit_xor (shift n a) (shift n b)
unfolding shift
shift-bit_xor zero a b = refl
shift-bit_xor (suc n) a b = rw (shift1-bit_xor a b) (shift-bit_xor n (shift1 a) (shift1 b))

shift1-double : (m : ℕ) → shift1 (m * 2) ≡ m
shift1-double m = ground arith

-- `n` steps undo a shift by `n` bits.
pub shift-mul : (n m : ℕ) → shift n (m * 2 ^ n) ≡ m
unfolding shift
shift-mul zero m = omega arith
shift-mul (suc n) m =
    let e : m * 2 ^ suc n ≡ (m * 2 ^ n) * 2 = omega (arith, ap (λ (t : ℕ). m * t) (pow-suc 2 n)) in
    rw (e, shift1-double (m * 2 ^ n)) (shift-mul n m)

pub shift-add : (m n c : ℕ) → shift (m + n) c ≡ shift n (shift m c)
unfolding shift
shift-add zero n c = let e : 0 + n ≡ n = omega arith in rw e
shift-add (suc m) n c =
    let e : suc m + n ≡ suc (m + n) = omega arith in rw e (shift-add m n (shift1 c))

-- A round of the loop takes the data bit into the lowest place, and steps.
pub next_bit-shift1 : (c d : ℕ) → d < 2 → next_bit c d ≡ shift1 (bit_xor c d)
unfolding next_bit
next_bit-shift1 c d h = ground (
  arith,
  mod-bit_xor c d,
  div-bit_xor c d,
  bit_xor-zero (c / 2),
  bit_xor_step (c % 2) d,
  bit_xor-zero 0,
)
