-- ===== src/Generator/Carries.antt =====
-- `ip_checksum` of packet_gen.h and its loop of carries, as arithmetic.
use fpga_network_processing.Base.{
  List, [], ap, arith, bit_and, if◌then◌else◌, refl, suc, zero, ℕ, ◌%◌, ◌*◌, ◌+◌, ◌-◌, ◌/◌, ◌<◌,
  ◌==◌, ◌^◌, ◌∙◌, ◌∷◌, ◌≡◌,
}
use fpga_network_processing.Base.Bits.{bit_and_mask, or_low, bit_or_comm}
use fpga_network_processing.Generator.Checksum.{
  word16, sum_words, fold_carries, fold_fuel, ip_checksum,
}

pub word16-add : (hi lo : ℕ) → hi < 256 → lo < 256 → word16 hi lo ≡ hi * 256 + lo
word16-add hi lo h l = omega (arith, bit_or_comm (hi * 256) lo, or_low 8 hi lo)

fold_carries-suc :
    (fuel sum : ℕ)
    → sum < 2 ^ 32
    → fold_carries (suc fuel) sum
      ≡ (if sum / 2 ^ 16 == 0 then sum else fold_carries fuel (sum % 2 ^ 16 + sum / 2 ^ 16))
unfolding fold_carries
fold_carries-suc fuel sum h =
    let mask : bit_and sum 0xffff ≡ sum % 2 ^ 16 = bit_and_mask 16 sum in
    let small : (sum % 2 ^ 16 + sum / 2 ^ 16) % 2 ^ 32 ≡ sum % 2 ^ 16 + sum / 2 ^ 16 =
      omega arith in
    rw (mask, small)

fold_carries_small : (fuel sum : ℕ) → sum < 2 ^ 16 → fold_carries fuel sum ≡ sum
unfolding fold_carries
fold_carries_small zero sum h = refl
fold_carries_small (suc fuel) sum h = ground arith

-- Adding the high half to the low one.
abbrev pub end_around : ℕ → ℕ
end_around sum = sum % 2 ^ 16 + sum / 2 ^ 16

-- The loop of a sum of 32 bits is over after two rounds: however much fuel there is above that, it
-- returns the sum with the carries added round twice, which has 16 bits.
pub fold_carries_ends :
    (extra sum : ℕ)
    → sum < 2 ^ 32
    → (fold_carries (suc (suc extra)) sum ≡ end_around (end_around sum))
      × (end_around (end_around sum) < 2 ^ 16)
fold_carries_ends extra sum h = ground (
  arith,
  fold_carries-suc (suc extra) sum h,
  fold_carries-suc extra (end_around sum),
  fold_carries_small extra (end_around (end_around sum)),
)

-- The words of a list of bytes, summed without a bound.
abbrev pub words_total : List ℕ → ℕ
words_total [] = 0
words_total (a ∷ []) = a * 256
words_total (a ∷ b ∷ bytes) = a * 256 + b + words_total bytes

abbrev pub AllBytes : List ℕ → Type 0
AllBytes [] = Unit {0}
AllBytes (b ∷ bs) = (b < 256) × AllBytes bs

sum_words-total :
    (sum : ℕ) (bytes : List ℕ)
    → AllBytes bytes
    → sum + words_total bytes < 2 ^ 32
    → sum_words sum bytes ≡ sum + words_total bytes
unfolding sum_words
sum_words-total sum [] b h = omega arith
sum_words-total sum (x ∷ []) b h = omega (arith, word16-add x 0 b.0 (omega arith))
sum_words-total sum (x ∷ y ∷ bytes) b h =
    let e : (sum + word16 x y) % 2 ^ 32 ≡ sum + (x * 256 + y) =
      omega (arith, word16-add x y b.0 b.1.0) in
    rw e (omega (arith, sum_words-total (sum + (x * 256 + y)) bytes b.1.1))

-- The checksum of bytes whose words sum to less than 2 ^ 32 is the complement of that sum with the
-- carries added round.
pub ip_checksum-total :
    (bytes : List ℕ)
    → AllBytes bytes
    → words_total bytes < 2 ^ 32
    → ip_checksum bytes ≡ 2 ^ 16 - 1 - end_around (end_around (words_total bytes))
unfolding ip_checksum
ip_checksum-total bytes b h =
    let total = words_total bytes in
    let sum : sum_words 0 bytes ≡ total = omega (arith, sum_words-total 0 bytes b (omega arith)) in
    let loop : fold_carries fold_fuel (sum_words 0 bytes) ≡ end_around (end_around total) =
      ap (fold_carries fold_fuel) sum ∙ (fold_carries_ends 1 total h).0 in
    rw loop (
      omega (
        arith,
        bit_and_mask 16 (2 ^ 32 - 1 - end_around (end_around total)),
        fold_carries_ends 1 total h,
      ))
