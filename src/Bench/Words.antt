-- ===== src/Bench/Words.antt =====
-- The byte order of a wide port: `vlwide_set_bytes` and `vlwide_get_bytes` of
-- sim/testbenches/tb_axis_fifo.cpp. A port of 512 bits is an array of 32-bit words.
use fpga_network_processing.Base.{
  ==_iff, List, [], arith, bit_and, bit_or, drop, if◌then◌else◌, length, passes_below,
  passes_below_lem, refl, suc, sym, true, zero, ℕ, ◌%◌, ◌*◌, ◌++◌, ◌+◌, ◌-◌, ◌/◌, ◌<◌, ◌==◌, ◌^◌,
  ◌∙◌, ◌∷◌, ◌≡◌, ◌≤◌,
}
use fpga_network_processing.Base.Bits.{bit_and_mask, bit_or_comm, or_low, zero-bit_or}
use fpga_network_processing.Generator.Carries.{AllBytes}

-- The inner loop of `vlwide_set_bytes` from byte `j` of a word on, on the bytes left.
unfoldable pub pack_word : ℕ → ℕ → List ℕ → ℕ → ℕ
pack_word zero j src w = w
pack_word (suc left) j [] w = w
pack_word (suc left) j (b ∷ src) w =
    pack_word left (suc j) src (bit_or w (b * 2 ^ (j * 8) % 2 ^ 32))

-- The loop over the words. Bytes beyond the array, which no caller has, would be dropped.
unfoldable pub vlwide_set_bytes : List ℕ → List ℕ → List ℕ
vlwide_set_bytes [] src = []
vlwide_set_bytes (d ∷ dst) [] = d ∷ dst
vlwide_set_bytes (d ∷ dst) (b ∷ src) = pack_word 4 0 (b ∷ src) 0 ∷ vlwide_set_bytes dst (drop 3 src)

unfoldable pub unpack_word : ℕ → ℕ → ℕ → ℕ → List ℕ
unpack_word zero j w nbytes = []
unpack_word (suc left) j w zero = []
unpack_word (suc left) j w (suc nbytes) =
    bit_and (w / 2 ^ (j * 8)) 0xff ∷ unpack_word left (suc j) w nbytes

-- `nbytes` bytes of the words.
unfoldable pub vlwide_get_bytes : List ℕ → ℕ → List ℕ
vlwide_get_bytes [] nbytes = []
vlwide_get_bytes (w ∷ src) nbytes = unpack_word 4 0 w nbytes ++ vlwide_get_bytes src (nbytes - 4)

-- `for (b = 0; b < dw; b++) if (keep & (1ULL << b)) nbytes++`, from bit `b` on.
unfoldable pub count_keep : ℕ → ℕ → ℕ → ℕ → ℕ
count_keep zero b keep nbytes = nbytes
count_keep (suc left) b keep nbytes =
    count_keep left (suc b) keep (if bit_and keep (2 ^ b) == 0 then nbytes else nbytes + 1)

-- `(1ULL << nb) - 1`
abbrev pub keep_mask : ℕ → ℕ
keep_mask nb = (2 ^ nb - 1) % 2 ^ 64

pub word_sum :
    (a b c d : ℕ)
    → a < 256
    → b < 256
    → c < 256
    → d < 256
    → bit_or
        (bit_or (bit_or (bit_or 0 (a * 1 % 2 ^ 32)) (b * 2 ^ 8 % 2 ^ 32)) (c * 2 ^ 16 % 2 ^ 32))
        (d * 2 ^ 24 % 2 ^ 32)
      ≡ a + b * 2 ^ 8 + c * 2 ^ 16 + d * 2 ^ 24
word_sum a b c d ha hb hc hd =
    let (e0, e1, e2, e3) : (a * 1 % 2 ^ 32 ≡ a)
        × (b * 2 ^ 8 % 2 ^ 32 ≡ b * 2 ^ 8)
        × (c * 2 ^ 16 % 2 ^ 32 ≡ c * 2 ^ 16)
        × (d * 2 ^ 24 % 2 ^ 32 ≡ d * 2 ^ 24) =
      omega arith in
    rw
      (
        e0,
        e1,
        e2,
        e3,
        zero-bit_or a,
        or_low 8 b a ha,
        or_low 16 c (a + b * 2 ^ 8) (omega arith),
        or_low 24 d (a + b * 2 ^ 8 + c * 2 ^ 16) (omega arith),
      )
      refl

byte_of : (w k : ℕ) → bit_and (w / k) 0xff ≡ w / k % 256
byte_of w k = bit_and_mask 8 (w / k)

-- The four bytes of a word of four bytes.
word_bytes :
    (w a b c d : ℕ)
    → a < 256
    → b < 256
    → c < 256
    → d < 256
    → w ≡ a + b * 2 ^ 8 + c * 2 ^ 16 + d * 2 ^ 24
    → (bit_and (w / 1) 0xff ≡ a)
      × (bit_and (w / 2 ^ 8) 0xff ≡ b)
      × (bit_and (w / 2 ^ 16) 0xff ≡ c)
      × (bit_and (w / 2 ^ 24) 0xff ≡ d)
word_bytes w a b c d ha hb hc hd e =
    omega (arith, byte_of w 1, byte_of w (2 ^ 8), byte_of w (2 ^ 16), byte_of w (2 ^ 24))

pub no_bytes : (src : List ℕ) → vlwide_get_bytes src 0 ≡ []
unfolding vlwide_get_bytes unpack_word
no_bytes [] = refl
no_bytes (w ∷ src) = no_bytes src

or_zero : (w : ℕ) → bit_or w 0 ≡ w
or_zero w = bit_or_comm w 0 ∙ zero-bit_or w

-- Words that the bytes do not fill.
pub sum1 : (a : ℕ) → a < 256 → bit_or 0 (a * 1 % 2 ^ 32) ≡ a + 0 * 2 ^ 8 + 0 * 2 ^ 16 + 0 * 2 ^ 24
sum1 a ha = omega (arith, zero-bit_or (a * 1 % 2 ^ 32))

pub sum2 :
    (a b : ℕ)
    → a < 256
    → b < 256
    → bit_or (bit_or 0 (a * 1 % 2 ^ 32)) (b * 2 ^ 8 % 2 ^ 32)
      ≡ a + b * 2 ^ 8 + 0 * 2 ^ 16 + 0 * 2 ^ 24
sum2 a b ha hb =
    let v = bit_or (bit_or 0 (a * 1 % 2 ^ 32)) (b * 2 ^ 8 % 2 ^ 32) in
    sym (or_zero v)
    ∙ sym (or_zero (bit_or v 0))
    ∙ word_sum a b 0 0 ha hb (omega arith) (omega arith)

pub sum3 :
    (a b c : ℕ)
    → a < 256
    → b < 256
    → c < 256
    → bit_or (bit_or (bit_or 0 (a * 1 % 2 ^ 32)) (b * 2 ^ 8 % 2 ^ 32)) (c * 2 ^ 16 % 2 ^ 32)
      ≡ a + b * 2 ^ 8 + c * 2 ^ 16 + 0 * 2 ^ 24
sum3 a b c ha hb hc =
    sym (
      or_zero
        (bit_or (bit_or (bit_or 0 (a * 1 % 2 ^ 32)) (b * 2 ^ 8 % 2 ^ 32)) (c * 2 ^ 16 % 2 ^ 32)))
    ∙ word_sum a b c 0 ha hb hc (omega arith)

-- Bytes that are at most four times as many as the words of an array come back from it as they
-- were put in.
pub get-set_bytes :
    (dst src : List ℕ)
    → AllBytes src
    → length src ≤ 4 * length dst
    → vlwide_get_bytes (vlwide_set_bytes dst src) (length src) ≡ src
unfolding vlwide_get_bytes vlwide_set_bytes unpack_word pack_word
get-set_bytes [] [] b h = refl
get-set_bytes (d ∷ dst) [] b h = no_bytes dst
get-set_bytes [] (x ∷ src) b h = absurd (omega arith)
get-set_bytes (d ∷ dst) (x ∷ []) b h = ground (
  arith,
  word_bytes _ x 0 0 0 b.0 (omega arith) (omega arith) (omega arith) (sum1 x b.0),
  no_bytes (vlwide_set_bytes dst []),
)
get-set_bytes (d ∷ dst) (x ∷ y ∷ []) b h = ground (
  arith,
  word_bytes _ x y 0 0 b.0 b.1.0 (omega arith) (omega arith) (sum2 x y b.0 b.1.0),
  no_bytes (vlwide_set_bytes dst []),
)
get-set_bytes (d ∷ dst) (x ∷ y ∷ z ∷ []) b h = ground (
  arith,
  word_bytes _ x y z 0 b.0 b.1.0 b.1.1.0 (omega arith) (sum3 x y z b.0 b.1.0 b.1.1.0),
  no_bytes (vlwide_set_bytes dst []),
)
get-set_bytes (d ∷ dst) (x ∷ y ∷ z ∷ u ∷ src) b h =
    let w = word_sum x y z u b.0 b.1.0 b.1.1.0 b.1.1.1.0 in
    let less : suc (suc (suc (suc (length src)))) - 4 ≡ length src = omega arith in
    ground (
      arith,
      word_bytes _ x y z u b.0 b.1.0 b.1.1.0 b.1.1.1.0 w,
      get-set_bytes dst src b.1.1.1.1 (omega arith),
    )

masks_count : passes_below (λ nb. count_keep 8 0 (keep_mask nb) 0 == nb) 9 ≡ true
unfolding passes_below count_keep
masks_count = refl

-- A mask of `nb` ones, at most 8, counts as `nb` bytes.
pub count_keep-mask : (nb : ℕ) → nb ≤ 8 → count_keep 8 0 (keep_mask nb) 0 ≡ nb
count_keep-mask nb h =
    (==_iff _ _).0
      (passes_below_lem (λ nb. count_keep 8 0 (keep_mask nb) 0 == nb) 9 masks_count (omega arith))
