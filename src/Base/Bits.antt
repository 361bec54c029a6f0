-- ===== src/Base/Bits.antt =====
-- Laws of `^`, `|` and of masks at every width, from the digit recursion.
use Prim.Native.Nat.{
  ℕ, zero, suc, ◌+◌, ◌-◌, ◌*◌, ◌/◌, ◌%◌, ◌^◌, ◌≤◌, ◌<◌, bit_and, bit_or, bit_xor, digits, bitwise,
  differ, bit_xor-bitwise, bit_and-bitwise, bit_or-bitwise, min, max,
}
use mathlib.Core.Path.{◌≡◌, refl, sym, ◌∙◌, ap}
use native.Mathlib.Nat.{pow-suc, one-le-pow, div-add-mod, div-div-eq-div-mul}
use native.Mathlib.Decide.{dec_le}
use native.Mathlib.Omega.{arith}

-- The native operations are one recursion on the binary digits, with a count of digits to go.
module _ (z : ℕ → ℕ) (f : ℕ → ℕ → ℕ) where
  one_more : (n x y : ℕ) → x ≤ n → digits z f (suc n) x y ≡ digits z f n x y
  one_more zero zero y h = refl
  one_more zero (suc x) y h = elim h [ ]
  one_more (suc n) zero y h = refl
  one_more (suc n) (suc x) y h =
      ap (λ t. t * 2 + f (suc x % 2) (y % 2)) (one_more n (suc x / 2) (y / 2) (omega arith))

  spare : (n x y : ℕ) → x ≤ n → digits z f n x y ≡ bitwise z f x y
  spare zero x y h = let e : x ≡ 0 = omega arith in rw e
  spare (suc n) x y h = elim (dec_le x n) [
    | yes p ↦ one_more n x y p ∙ spare n x y p
    | no p ↦ let e : x ≡ suc n = omega arith in rw e
  ]

  -- The lowest digit and the rest, for an operation that is right on an empty first number.
  bitwise_step :
      ((y : ℕ) → z y ≡ z (y / 2) * 2 + f 0 (y % 2))
      → (x y : ℕ) → bitwise z f x y ≡ bitwise z f (x / 2) (y / 2) * 2 + f (x % 2) (y % 2)
  bitwise_step base zero y = base y
  bitwise_step base (suc x) y =
      ap (λ t. t * 2 + f (suc x % 2) (y % 2)) (spare x (suc x / 2) (y / 2) (omega arith))

differ_table : (x y : ℕ) → x < 2 → y < 2 → differ x y ≡ (x + y) % 2
differ_table zero y p q = omega arith
differ_table (suc zero) zero p q = refl
differ_table (suc zero) (suc zero) p q = refl
differ_table (suc zero) (suc (suc y)) p q = absurd (omega arith)
differ_table (suc (suc x)) y p q = absurd (omega arith)

pub bit_xor_step : (a b : ℕ) → bit_xor a b ≡ bit_xor (a / 2) (b / 2) * 2 + (a % 2 + b % 2) % 2
bit_xor_step a b = omega (
  arith,
  bit_xor-bitwise a b,
  bit_xor-bitwise (a / 2) (b / 2),
  bitwise_step (λ t. t) differ (λ y. omega arith) a b,
  differ_table (a % 2) (b % 2) (omega arith) (omega arith),
)

and_digit : (a b : ℕ) → bit_and a b ≡ min (a % 2) (b % 2) + 2 * bit_and (a / 2) (b / 2)
and_digit a b = omega (
  arith,
  bit_and-bitwise a b,
  bit_and-bitwise (a / 2) (b / 2),
  bitwise_step (λ t. 0) min (λ y. omega arith) a b,
)

or_digit : (a b : ℕ) → bit_or a b ≡ max (a % 2) (b % 2) + 2 * bit_or (a / 2) (b / 2)
or_digit a b = omega (
  arith,
  bit_or-bitwise a b,
  bit_or-bitwise (a / 2) (b / 2),
  bitwise_step (λ t. t) max (λ y. omega arith) a b,
)

pub div-bit_xor : (a b : ℕ) → bit_xor a b / 2 ≡ bit_xor (a / 2) (b / 2)
div-bit_xor a b = omega (arith, bit_xor_step a b)

pub mod-bit_xor : (a b : ℕ) → bit_xor a b % 2 ≡ (a % 2 + b % 2) % 2
mod-bit_xor a b = omega (arith, bit_xor_step a b)

pub zero-bit_xor : (b : ℕ) → bit_xor 0 b ≡ b
zero-bit_xor b = bit_xor-bitwise 0 b

xor_comm_fuel : (n a b : ℕ) → a ≤ n → b ≤ n → bit_xor a b ≡ bit_xor b a
xor_comm_fuel zero a b p q = let e : a ≡ b = omega arith in rw e
xor_comm_fuel (suc n) a b p q = omega (
  arith,
  bit_xor_step a b,
  bit_xor_step b a,
  xor_comm_fuel n (a / 2) (b / 2) (omega arith) (omega arith),
)

pub bit_xor_comm : (a b : ℕ) → bit_xor a b ≡ bit_xor b a
bit_xor_comm a b = xor_comm_fuel (a + b) a b (omega arith) (omega arith)

pub bit_xor-zero : (a : ℕ) → bit_xor a 0 ≡ a
bit_xor-zero a = bit_xor_comm a 0 ∙ zero-bit_xor a

xor_assoc_fuel : (n a b c : ℕ) → a ≤ n → bit_xor (bit_xor a b) c ≡ bit_xor a (bit_xor b c)
xor_assoc_fuel zero a b c p =
    let e : a ≡ 0 = omega arith in rw (e, zero-bit_xor b, zero-bit_xor (bit_xor b c))
xor_assoc_fuel (suc n) a b c p = omega (
  arith,
  bit_xor_step (bit_xor a b) c,
  bit_xor_step a (bit_xor b c),
  ap (λ t. bit_xor t (c / 2)) (div-bit_xor a b),
  ap (bit_xor (a / 2)) (div-bit_xor b c),
  mod-bit_xor a b,
  mod-bit_xor b c,
  xor_assoc_fuel n (a / 2) (b / 2) (c / 2) (omega arith),
)

pub bit_xor_assoc : (a b c : ℕ) → bit_xor (bit_xor a b) c ≡ bit_xor a (bit_xor b c)
bit_xor_assoc a b c = xor_assoc_fuel a a b c (omega arith)

xor_self_fuel : (n a : ℕ) → a ≤ n → bit_xor a a ≡ 0
xor_self_fuel zero a p = let e : a ≡ 0 = omega arith in rw e
xor_self_fuel (suc n) a p = omega (arith, bit_xor_step a a, xor_self_fuel n (a / 2) (omega arith))

pub bit_xor_self : (a : ℕ) → bit_xor a a ≡ 0
bit_xor_self a = xor_self_fuel a a (omega arith)

pub bit_xor_cancel : (a b : ℕ) → bit_xor (bit_xor a b) b ≡ a
bit_xor_cancel a b = rw (bit_xor_assoc, bit_xor_self, bit_xor-zero)

pub xor_swap :
    (a b c d : ℕ) → bit_xor (bit_xor a b) (bit_xor c d) ≡ bit_xor (bit_xor a c) (bit_xor b d)
xor_swap a b c d = cc (
  bit_xor_assoc a b (bit_xor c d),
  bit_xor_assoc b c d,
  bit_xor_comm b c,
  bit_xor_assoc c b d,
  bit_xor_assoc a c (bit_xor b d),
)

-- The exclusive or of two words of `k` bits has `k` bits.
pub bit_xor-lt : (k a b : ℕ) → a < 2 ^ k → b < 2 ^ k → bit_xor a b < 2 ^ k
bit_xor-lt zero a b p q =
    let e : a ≡ 0 = omega arith in let f : b ≡ 0 = omega arith in rw (e, f) (omega arith)
bit_xor-lt (suc k) a b p q = omega (
  arith,
  pow-suc 2 k,
  bit_xor_step a b,
  bit_xor-lt k (a / 2) (b / 2) (omega (arith, pow-suc 2 k)) (omega (arith, pow-suc 2 k)),
)

no_bits : (n a : ℕ) → a ≤ n → bit_and a 0 ≡ 0
no_bits zero a h = let e : a ≡ 0 = omega arith in rw e
no_bits (suc n) a h = elim (dec_le a n) [
  | yes p ↦ no_bits n a p
  | no p ↦ omega (arith, and_digit a 0, no_bits n (a / 2) (omega arith))
]

double_pow : (q k : ℕ) → q * 2 ^ suc k ≡ 2 * (q * 2 ^ k)
double_pow q k = omega (arith, ap (λ (t : ℕ). q * t) (pow-suc 2 k))

and_low_ones : (k q r : ℕ) → r < 2 ^ k → bit_and (q * 2 ^ k + r) (2 ^ k - 1) ≡ r
and_low_ones zero q r h = rw (no_bits (q * 1 + r) (q * 1 + r) (omega arith)) (omega arith)
and_low_ones (suc k) q r h = ground (
  arith,
  and_digit (q * 2 ^ suc k + r) (2 ^ suc k - 1),
  double_pow q k,
  pow-suc 2 k,
  and_low_ones k q (r / 2) (omega (arith, pow-suc 2 k)),
)

-- `& (2 ^ k - 1)` is the remainder by `2 ^ k`.
pub bit_and_mask : (k a : ℕ) → bit_and a (2 ^ k - 1) ≡ a % 2 ^ k
bit_and_mask k a =
    ground (arith, one-le-pow k 2, and_low_ones k (a / 2 ^ k) (a % 2 ^ k), div-add-mod a (2 ^ k))

-- Fields that do not overlap: exclusive or is their sum.
pub xor_low : (k q r : ℕ) → r < 2 ^ k → bit_xor r (q * 2 ^ k) ≡ r + q * 2 ^ k
xor_low zero q r h = let e : r ≡ 0 = omega arith in rw (e, zero-bit_xor (q * 1)) (omega arith)
xor_low (suc k) q r h = ground (
  arith,
  bit_xor_step r (q * 2 ^ suc k),
  double_pow q k,
  pow-suc 2 k,
  xor_low k q (r / 2) (omega (arith, pow-suc 2 k)),
)

pub div_pow-bit_xor : (k a b : ℕ) → bit_xor a b / 2 ^ k ≡ bit_xor (a / 2 ^ k) (b / 2 ^ k)
div_pow-bit_xor zero a b =
    let e : (n : ℕ) → n / 1 ≡ n = λ n. omega arith in rw (e (bit_xor a b), e a, e b)
div_pow-bit_xor (suc k) a b =
    let halves : (n : ℕ) → n / 2 ^ suc k ≡ n / 2 ^ k / 2 =
      λ n. rw (pow-suc 2 k) (sym (div-div-eq-div-mul n (2 ^ k) 2)) in
    rw (halves (bit_xor a b), halves a, halves b, div_pow-bit_xor k a b)
      (div-bit_xor (a / 2 ^ k) (b / 2 ^ k))

-- Flipping all `k` bits.
pub bit_xor-ones : (k a : ℕ) → a < 2 ^ k → bit_xor a (2 ^ k - 1) ≡ 2 ^ k - 1 - a
bit_xor-ones zero a h = let e : a ≡ 0 = omega arith in rw e
bit_xor-ones (suc k) a h = ground (
  arith,
  bit_xor_step a (2 ^ suc k - 1),
  pow-suc 2 k,
  one-le-pow k 2,
  bit_xor-ones k (a / 2) (omega (arith, pow-suc 2 k)),
)

pub zero-bit_or : (b : ℕ) → bit_or 0 b ≡ b
zero-bit_or b = bit_or-bitwise 0 b

bit_or_comm_fuel : (n a b : ℕ) → a ≤ n → b ≤ n → bit_or a b ≡ bit_or b a
bit_or_comm_fuel zero a b p q = let e : a ≡ b = omega arith in rw e
bit_or_comm_fuel (suc n) a b p q = omega (
  arith,
  or_digit a b,
  or_digit b a,
  bit_or_comm_fuel n (a / 2) (b / 2) (omega arith) (omega arith),
)

pub bit_or_comm : (a b : ℕ) → bit_or a b ≡ bit_or b a
bit_or_comm a b = bit_or_comm_fuel (a + b) a b (omega arith) (omega arith)

-- Fields that do not overlap: `|` is their sum.
pub or_low : (k q r : ℕ) → r < 2 ^ k → bit_or r (q * 2 ^ k) ≡ r + q * 2 ^ k
or_low zero q r h = let e : r ≡ 0 = omega arith in rw (e, zero-bit_or (q * 1)) (omega arith)
or_low (suc k) q r h = ground (
  arith,
  or_digit r (q * 2 ^ suc k),
  double_pow q k,
  pow-suc 2 k,
  or_low k q (r / 2) (omega (arith, pow-suc 2 k)),
)
