-- ===== src/FlowTable/Hash.antt =====
-- The hash of flow_table.sv without its loops: one word, and six slices of it.
use fpga_network_processing.Base.{ap, arith, bit_xor, ℕ, ◌%◌, ◌*◌, ◌+◌, ◌/◌, ◌<◌, ◌^◌, ◌∙◌, ◌≡◌}
use fpga_network_processing.Base.Bits.{zero-bit_xor, bit_xor_assoc, bit_xor-lt, xor_swap}
use fpga_network_processing.FlowTable.{
  FlowKey, Past, set_idx, tuple_words, accumulate, hash_keys, fold_slice,
}

-- Six bits of a word, below those that are read past its end.
abbrev pub slice : ℕ → ℕ → ℕ → ℕ
slice past s h = (past * 2 ^ 32 + h) / 2 ^ s % 2 ^ 6

-- The fields of a flow in one word, with the exclusive or of the keys that are used.
abbrev pub mixed : FlowKey → ℕ
mixed k =
    bit_xor
      (bit_xor (bit_xor k.src_ip k.dst_ip)
        (bit_xor (k.protocol * 2 ^ 24 + k.src_port * 2 ^ 8) (k.dst_port * 2 ^ 16 % 2 ^ 32)))
      0x9e71fb87

abbrev pub folded : ℕ → ℕ → ℕ
folded past h =
    let part : ℕ → ℕ = λ s. slice past s h in
    bit_xor (bit_xor (bit_xor (bit_xor (bit_xor (part 0) (part 6)) (part 12)) (part 18)) (part 24))
      (part 30)

-- The set of a flow.
unfoldable pub home : Past → FlowKey → ℕ
home p k = folded p.hash (mixed k)

mixed_lem : (k : FlowKey) → accumulate (tuple_words k) hash_keys 0 ≡ mixed k
unfolding accumulate tuple_words
mixed_lem k =
    mix k.src_ip k.dst_ip (k.protocol * 2 ^ 24 + k.src_port * 2 ^ 8) (k.dst_port * 2 ^ 16 % 2 ^ 32)
      0xddaa3f5a 0x6e7f8091 0x8f901234 0xa2345678
  where
    mix :
        (t u v w a b c d : ℕ)
        → bit_xor
            (bit_xor (bit_xor (bit_xor 0 (bit_xor t a)) (bit_xor u b)) (bit_xor v c))
            (bit_xor w d)
          ≡ bit_xor (bit_xor (bit_xor t u) (bit_xor v w)) (bit_xor (bit_xor a b) (bit_xor c d))
    mix t u v w a b c d = cc (
      zero-bit_xor (bit_xor t a),
      xor_swap t a u b,
      bit_xor_assoc (bit_xor (bit_xor t u) (bit_xor a b)) (bit_xor v c) (bit_xor w d),
      xor_swap v c w d,
      xor_swap (bit_xor t u) (bit_xor a b) (bit_xor v w) (bit_xor c d),
    )

-- A word with the bits of `h` above its low six, which are `r`.
abbrev Holds : ℕ → ℕ → ℕ → Type 0
Holds h r a = (a / 2 ^ 6 ≡ h / 2 ^ 6) × (a % 2 ^ 6 ≡ r)

fold_slice_lem :
    (past s h r a : ℕ)
    → ((b : ℕ) → b / 2 ^ 6 ≡ h / 2 ^ 6 → slice past s b ≡ slice past s h)
    → Holds h r a
    → Holds h (bit_xor r (slice past s h)) (fold_slice past s a)
fold_slice_lem past s h r a above (high, low) =
    let e : bit_xor (a % 2 ^ 6) (slice past s a) ≡ bit_xor r (slice past s h) =
      λ i. bit_xor (low i) (above a high i) in
    let small : bit_xor (a % 2 ^ 6) (slice past s a) < 2 ^ 6 =
      bit_xor-lt 6 (a % 2 ^ 6) (slice past s a) (omega arith) (omega arith) in
    (omega (arith, high, small), omega (arith, e, small))

-- The set of a flow is the exclusive or of six slices of its word.
pub set_idx_lem : (p : Past) (k : FlowKey) → set_idx p k ≡ home p k
unfolding set_idx home
set_idx_lem p k =
    let h = mixed k in
    let past = p.hash in
    let start : Holds h (slice past 0 h) (accumulate (tuple_words k) hash_keys 0) =
      let e = mixed_lem k in
      (ap (λ (n : ℕ). n / 2 ^ 6) e, ap (λ (n : ℕ). n % 2 ^ 6) e ∙ omega arith) in
    (fold_slice_lem past 30 h _ _ (λ b e. omega (arith, e))
      (fold_slice_lem past 24 h _ _ (λ b e. omega (arith, e))
        (fold_slice_lem past 18 h _ _ (λ b e. omega (arith, e))
          (fold_slice_lem past 12 h _ _ (λ b e. omega (arith, e))
            (fold_slice_lem past 6 h _ _ (λ b e. omega (arith, e)) start))))).1
