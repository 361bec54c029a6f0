-- ===== src/Ipv4Parser/Number.antt =====
-- The bytes of a beat of ipv4_parser.sv as a number.
use native.Mathlib.Nat.{div-div-eq-div-mul, zero-div, two-pow-succ}
use fpga_network_processing.Base.{
  List, [], ap, arith, get_or, suc, sym, zero, ℕ, ◌%◌, ◌*◌, ◌+◌, ◌/◌, ◌^◌, ◌∙◌, ◌∷◌, ◌≡◌,
}
use fpga_network_processing.Generator.Carries.{AllBytes}
use fpga_network_processing.Ipv4Parser.{byte_at, word16_be, word32_be}

-- The number that bytes make up, the first in the low bits.
abbrev pub number : List ℕ → ℕ
number [] = 0
number (b ∷ bs) = b + 256 * number bs

double : (n : ℕ) → 2 ^ suc n ≡ 2 ^ n + 2 ^ n
double n = two-pow-succ n

pub eight : (j : ℕ) → 2 ^ (8 + j) ≡ 2 ^ 8 * 2 ^ j
eight j =
    let next : (n m : ℕ) → m ≡ suc n → 2 ^ m ≡ 2 ^ n + 2 ^ n =
      λ n m e. ap (λ k. 2 ^ k) e ∙ double n in
    omega (
      arith,
      next j (1 + j) (omega arith),
      next (1 + j) (2 + j) (omega arith),
      next (2 + j) (3 + j) (omega arith),
      next (3 + j) (4 + j) (omega arith),
      next (4 + j) (5 + j) (omega arith),
      next (5 + j) (6 + j) (omega arith),
      next (6 + j) (7 + j) (omega arith),
      next (7 + j) (8 + j) (omega arith),
    )

pub shift_byte : (n k : ℕ) → n / 2 ^ (suc k * 8) ≡ n / 2 ^ 8 / 2 ^ (k * 8)
shift_byte n k = ap (λ p. n / p) split ∙ sym (div-div-eq-div-mul n (2 ^ 8) (2 ^ (k * 8)))
  where
    split : 2 ^ (suc k * 8) ≡ 2 ^ 8 * 2 ^ (k * 8)
    split = ap (λ e. 2 ^ e) {x = suc k * 8} {y = 8 + k * 8} (omega arith) ∙ eight (k * 8)

pub byte_at-number : (bs : List ℕ) (i : ℕ) → AllBytes bs → byte_at (number bs) i ≡ get_or bs i 0
unfolding byte_at
byte_at-number [] i h = ap (λ t. t % 2 ^ 8) (zero-div (2 ^ (i * 8)))
byte_at-number (b ∷ bs) zero h = omega (arith, h.0)
byte_at-number (b ∷ bs) (suc i) h =
    let e : number (b ∷ bs) / 2 ^ 8 ≡ number bs = omega (arith, h.0) in
    ap (λ t. t % 2 ^ 8) (shift_byte (number (b ∷ bs)) i ∙ ap (λ t. t / 2 ^ (i * 8)) e)
    ∙ byte_at-number bs i h.1

pub word16-number :
    (bs : List ℕ) (i : ℕ)
    → AllBytes bs
    → word16_be (number bs) i ≡ get_or bs i 0 * 256 + get_or bs (i + 1) 0
unfolding word16_be
word16-number bs i h = omega (arith, byte_at-number bs i h, byte_at-number bs (i + 1) h)

pub word32-number :
    (bs : List ℕ) (i : ℕ)
    → AllBytes bs
    → word32_be (number bs) i
      ≡ get_or bs i 0 * 2 ^ 24
        + get_or bs (i + 1) 0 * 2 ^ 16
        + get_or bs (i + 2) 0 * 2 ^ 8
        + get_or bs (i + 3) 0
unfolding word32_be
word32-number bs i h = omega (
  arith,
  byte_at-number bs i h,
  byte_at-number bs (i + 1) h,
  byte_at-number bs (i + 2) h,
  byte_at-number bs (i + 3) h,
)
