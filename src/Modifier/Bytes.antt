-- ===== src/Modifier/Bytes.antt =====
-- The bytes of a beat of packet_modifier.sv after a write to one of them.
use native.Mathlib.Nat.{div-div-eq-div-mul, div-add-mod}
use fpga_network_processing.Base.{
  ap, arith, if◌then◌else◌, suc, sym, zero, ℕ, ◌%◌, ◌*◌, ◌+◌, ◌/◌, ◌<◌, ◌==◌, ◌^◌, ◌∙◌, ◌≡◌,
}
use fpga_network_processing.Ipv4Parser.{byte_at}
use fpga_network_processing.Ipv4Parser.Number.{shift_byte, eight}
use fpga_network_processing.Modifier.{set_byte}

pub byte_at-suc : (d j : ℕ) → byte_at d (suc j) ≡ byte_at (d / 2 ^ 8) j
unfolding byte_at
byte_at-suc d j = ap (λ t. t % 2 ^ 8) (shift_byte d j)

pub byte_at-zero : (d : ℕ) → byte_at d 0 ≡ d % 2 ^ 8
unfolding byte_at
byte_at-zero d = omega arith

-- A byte over the bytes above and below it, with the lowest byte apart.
lowest_apart :
    (d v p q : ℕ)
    → d / (2 ^ 8 * q) * (2 ^ 8 * q) + v * (2 ^ 8 * p) + d % (2 ^ 8 * p)
      ≡ d % 2 ^ 8 + 2 ^ 8 * (d / 2 ^ 8 / q * q + v * p + d / 2 ^ 8 % p)
lowest_apart d v p q =
    let above = div-div-eq-div-mul d (2 ^ 8) q in
    let at = div-div-eq-div-mul d (2 ^ 8) p in
    let whole = div-add-mod d (2 ^ 8 * p) in
    let rest = div-add-mod (d / 2 ^ 8) p in
    let high : d / (2 ^ 8 * q) * (2 ^ 8 * q) ≡ 2 ^ 8 * (d / 2 ^ 8 / q * q) =
      ap (λ t. t * (2 ^ 8 * q)) (sym above) ∙ omega arith in
    let split : 2 ^ 8 * p * (d / (2 ^ 8 * p)) ≡ 2 ^ 8 * (p * (d / 2 ^ 8 / p)) =
      ap (λ t. 2 ^ 8 * p * t) (sym at) ∙ omega arith in
    omega (arith, high, split, whole, rest)

-- A write past the first byte is one to the bytes behind it.
set_byte-suc : (d i v : ℕ) → set_byte d (suc i) v ≡ d % 2 ^ 8 + 2 ^ 8 * set_byte (d / 2 ^ 8) i v
unfolding set_byte
set_byte-suc d i v =
    let at : 2 ^ (suc i * 8) ≡ 2 ^ 8 * 2 ^ (i * 8) =
      ap (λ e. 2 ^ e) {x = suc i * 8} {y = 8 + i * 8} (omega arith) ∙ eight (i * 8) in
    let above : 2 ^ (suc i * 8 + 8) ≡ 2 ^ 8 * 2 ^ (i * 8 + 8) =
      ap (λ e. 2 ^ e) {x = suc i * 8 + 8} {y = 8 + (i * 8 + 8)} (omega arith) ∙ eight (i * 8 + 8) in
    (λ j. d / above j * above j + v % 2 ^ 8 * at j + d % at j)
    ∙ lowest_apart d (v % 2 ^ 8) (2 ^ (i * 8)) (2 ^ (i * 8 + 8))

set_first : (d v : ℕ) → set_byte d 0 v ≡ v % 2 ^ 8 + 2 ^ 8 * (d / 2 ^ 8)
unfolding set_byte
set_first d v = omega arith

first_byte : (b n : ℕ) → b < 2 ^ 8 → byte_at (b + 2 ^ 8 * n) 0 ≡ b
first_byte b n h = byte_at-zero (b + 2 ^ 8 * n) ∙ omega arith

later_byte : (b n j : ℕ) → b < 2 ^ 8 → byte_at (b + 2 ^ 8 * n) (suc j) ≡ byte_at n j
later_byte b n j h =
    byte_at-suc (b + 2 ^ 8 * n) j
    ∙ ap (λ t. byte_at t j) {x = (b + 2 ^ 8 * n) / 2 ^ 8} {y = n} (omega arith)

pub byte_at-set_byte :
    (d i v j : ℕ) → byte_at (set_byte d i v) j ≡ (if i == j then v % 2 ^ 8 else byte_at d j)
byte_at-set_byte d zero v zero =
    ap (λ t. byte_at t 0) (set_first d v) ∙ first_byte (v % 2 ^ 8) (d / 2 ^ 8) (omega arith)
byte_at-set_byte d zero v (suc j) =
    ap (λ t. byte_at t (suc j)) (set_first d v)
    ∙ later_byte (v % 2 ^ 8) (d / 2 ^ 8) j (omega arith)
    ∙ sym (byte_at-suc d j)
    ∙ other
  where
    other : byte_at d (suc j) ≡ (if 0 == suc j then v % 2 ^ 8 else byte_at d (suc j))
    other = ground arith
byte_at-set_byte d (suc i) v zero =
    ap (λ t. byte_at t 0) (set_byte-suc d i v)
    ∙ first_byte (d % 2 ^ 8) (set_byte (d / 2 ^ 8) i v) (omega arith)
    ∙ sym (byte_at-zero d)
    ∙ other
  where
    other : byte_at d 0 ≡ (if suc i == 0 then v % 2 ^ 8 else byte_at d 0)
    other = ground arith
byte_at-set_byte d (suc i) v (suc j) =
    ap (λ t. byte_at t (suc j)) (set_byte-suc d i v)
    ∙ later_byte (d % 2 ^ 8) (set_byte (d / 2 ^ 8) i v) j (omega arith)
    ∙ byte_at-set_byte (d / 2 ^ 8) i v j
    ∙ ap (λ t. if i == j then v % 2 ^ 8 else t) (sym (byte_at-suc d j))
    ∙ same
  where
    same :
        (if i == j then v % 2 ^ 8 else byte_at d (suc j))
        ≡ (if suc i == suc j then v % 2 ^ 8 else byte_at d (suc j))
    same = ground arith
