-- ===== src/Crc/Equivalence.antt =====
-- The serial circuit of crc32.sv against the table-driven `PacketMon::crc32`.
use native.Mathlib.Nat.{pow-suc, div-add-mod, mod-lt, one-le-pow, div-div-eq-div-mul}
use fpga_network_processing.Base.{
  ==_iff, List, [], ap, ap₂, arith, bit_and, bit_xor, get_or, passes_below, passes_below_lem, refl,
  suc, sym, true, zero, ℕ, ◌%◌, ◌*◌, ◌+◌, ◌/◌, ◌<◌, ◌==◌, ◌^◌, ◌∙◌, ◌∷◌, ◌≡◌,
}
use fpga_network_processing.Base.Bits.{
  zero-bit_xor, bit_xor_assoc, bit_xor-zero, bit_xor-lt, bit_and_mask, xor_low, div_pow-bit_xor,
}
use fpga_network_processing.Monitor.Table.{crc32_table}
use fpga_network_processing.Monitor.Crc.{crc32_round, crc32_loop}
use fpga_network_processing.Crc.{Crc, next_bit, next_bits, crc_next}
use fpga_network_processing.Crc.Poly.{
  shift1, shift, shift-bit_xor, shift-mul, shift-add, next_bit-shift1,
}

-- The bits of `e` above the lowest `k` may be taken in after `k` steps.
shift-split :
    (k c e : ℕ) → shift k (bit_xor c e) ≡ bit_xor (shift k (bit_xor c (e % 2 ^ k))) (e / 2 ^ k)
shift-split k c e =
    let low : e % 2 ^ k < 2 ^ k = mod-lt e (one-le-pow k 2 (omega arith)) in
    let parts : e ≡ bit_xor (e % 2 ^ k) (e / 2 ^ k * 2 ^ k) =
      omega (arith, xor_low k (e / 2 ^ k) (e % 2 ^ k) low, div-add-mod e (2 ^ k)) in
    ap (λ t. shift k (bit_xor c t)) parts
    ∙ ap (shift k) (sym (bit_xor_assoc c (e % 2 ^ k) (e / 2 ^ k * 2 ^ k)))
    ∙ shift-bit_xor k (bit_xor c (e % 2 ^ k)) (e / 2 ^ k * 2 ^ k)
    ∙ ap (bit_xor (shift k (bit_xor c (e % 2 ^ k)))) (shift-mul k (e / 2 ^ k))

table_rows : passes_below (λ b. get_or crc32_table b 0 == shift 8 b) 256 ≡ true
unfolding passes_below crc32_table shift
table_rows = refl

-- Each of the 256 constants of the table is eight steps of the bitwise CRC on its index.
pub crc32_table-shift : (b : ℕ) → b < 256 → get_or crc32_table b 0 ≡ shift 8 b
crc32_table-shift b h = (==_iff _ _).0 (passes_below_lem _ 256 table_rows h)

-- A round of the software is eight steps.
crc32_round-shift : (crc b : ℕ) → b < 256 → crc32_round crc b ≡ shift 8 (bit_xor crc b)
unfolding crc32_round
crc32_round-shift crc b h =
    let x = bit_xor crc b in
    let high : crc / 2 ^ 8 ≡ x / 2 ^ 8 = sym (
      div_pow-bit_xor 8 crc b
      ∙ ap (bit_xor (crc / 2 ^ 8)) (let e : b / 2 ^ 8 ≡ 0 = omega arith in e)
      ∙ bit_xor-zero (crc / 2 ^ 8)) in
    let mask : bit_and x 0xff ≡ x % 2 ^ 8 = bit_and_mask 8 x in
    let row : get_or crc32_table (x % 2 ^ 8) 0 ≡ shift 8 (x % 2 ^ 8) =
      crc32_table-shift (x % 2 ^ 8) (omega arith) in
    let split : shift 8 x ≡ bit_xor (shift 8 (x % 2 ^ 8)) (x / 2 ^ 8) =
      rw (zero-bit_xor x, zero-bit_xor (x % 2 ^ 8)) at (shift-split 8 0 x) in
    rw (mask, high, row) (sym split)

-- A round of the circuit is one step, and takes in the bits of `data_in` in turn.
next_bits-shift :
    (left i d crc : ℕ)
    → d / 2 ^ i < 2 ^ left
    → next_bits left i d crc ≡ shift left (bit_xor crc (d / 2 ^ i))
unfolding next_bits shift
next_bits-shift zero i d crc h = let e : d / 2 ^ i ≡ 0 = omega arith in rw (e, bit_xor-zero crc)
next_bits-shift (suc left) i d crc h =
    let e = d / 2 ^ i in
    let next : d / 2 ^ suc i ≡ e / 2 = rw (pow-suc 2 i) (sym (div-div-eq-div-mul d (2 ^ i) 2)) in
    let small : d / 2 ^ suc i < 2 ^ left = omega (arith, next, pow-suc 2 left) in
    next_bits-shift left (suc i) d (next_bit crc (e % 2)) small
    ∙ ap₂ (λ c t. shift left (bit_xor c t)) (next_bit-shift1 crc (e % 2) (omega arith)) next
    ∙ ap (shift left) (sym (shift-split 1 crc e))

crc_next-shift : (c : Crc) (d : ℕ) → d < 2 ^ 32 → crc_next c d ≡ shift 32 (bit_xor c.crc_state d)
unfolding crc_next
crc_next-shift c d h =
    let e : d / 2 ^ 0 ≡ d = omega arith in
    next_bits-shift 32 0 d c.crc_state (omega (arith, e))
    ∙ ap (λ t. shift 32 (bit_xor c.crc_state t)) e

-- The bytes of a word, lowest first: the order in which a little-endian bus carries them.
abbrev pub le_bytes : ℕ → ℕ → List ℕ
le_bytes zero w = []
le_bytes (suc n) w = (w % 256) ∷ le_bytes n (w / 256)

crc32_loop-le_bytes :
    (n w crc : ℕ) → w < 256 ^ n → crc32_loop crc (le_bytes n w) ≡ shift (8 * n) (bit_xor crc w)
unfolding crc32_loop shift
crc32_loop-le_bytes zero w crc h = let e : w ≡ 0 = omega arith in rw (e, bit_xor-zero crc)
crc32_loop-le_bytes (suc n) w crc h =
    let bits : 8 * suc n ≡ 8 + 8 * n = omega arith in
    crc32_loop-le_bytes n (w / 256) (crc32_round crc (w % 256)) (omega (arith, pow-suc 256 n))
    ∙ ap (λ c. shift (8 * n) (bit_xor c (w / 256))) (crc32_round-shift crc (w % 256) (omega arith))
    ∙ ap (shift (8 * n)) (sym (shift-split 8 crc w))
    ∙ sym (shift-add 8 (8 * n) (bit_xor crc w))
    ∙ ap (λ k. shift k (bit_xor crc w)) (sym bits)

-- One word through the circuit is its four bytes through the loop of the software.
pub crc_next-crc32_loop :
    (c : Crc) (d : ℕ) → d < 2 ^ 32 → crc_next c d ≡ crc32_loop c.crc_state (le_bytes 4 d)
crc_next-crc32_loop c d h = crc_next-shift c d h ∙ sym (crc32_loop-le_bytes 4 d c.crc_state h)

shift1-lt : (c : ℕ) → c < 2 ^ 32 → shift1 c < 2 ^ 32
shift1-lt c h = ground (arith, bit_xor-lt 32 (c / 2) 0xedb88320)

shift-lt : (n c : ℕ) → c < 2 ^ 32 → shift n c < 2 ^ 32
unfolding shift
shift-lt zero c h = h
shift-lt (suc n) c h = shift-lt n (shift1 c) (shift1-lt c h)

pub crc_next-lt : (c : Crc) (d : ℕ) → c.crc_state < 2 ^ 32 → d < 2 ^ 32 → crc_next c d < 2 ^ 32
crc_next-lt c d h k =
    rw (crc_next-shift c d k)
      (shift-lt 32 (bit_xor c.crc_state d) (bit_xor-lt 32 c.crc_state d h k))
