-- ===== src/Bench/PipelineDriver/Wide.antt =====
-- The words of the data ports of parser_pipeline.sv, as a number and back.
use fpga_network_processing.Base.{
  List, [], ap, ap₂, arith, drop, length, refl, ℕ, ◌%◌, ◌*◌, ◌+◌, ◌/◌, ◌<◌, ◌^◌, ◌∙◌, ◌∷◌, ◌≡◌,
}
use fpga_network_processing.Generator.Carries.{AllBytes}
use Prim.{tt}
use fpga_network_processing.Pipeline.Sight.{words}
use fpga_network_processing.Bench.FifoDriver.Push.{AllBytes-drop}
use fpga_network_processing.Bench.Words.{vlwide_set_bytes, pack_word, word_sum, sum1, sum2, sum3}
use fpga_network_processing.Bench.PipelineDriver.{wide}

-- Words of 32 bits.
abbrev pub AllWords : List ℕ → Type 0
AllWords [] = Unit {0}
AllWords (w ∷ ws) = (w < 2 ^ 32) × AllWords ws

pub words-wide : (ws : List ℕ) → AllWords ws → words (length ws) (wide ws) ≡ ws
unfolding words wide
words-wide [] h = refl
words-wide (w ∷ ws) h =
    let low : (w + 2 ^ 32 * wide ws) % 2 ^ 32 ≡ w = omega (arith, h.0) in
    let high : (w + 2 ^ 32 * wide ws) / 2 ^ 32 ≡ wide ws = omega (arith, h.0) in
    ap₂ ◌∷◌ low (ap (words (length ws)) high ∙ words-wide ws h.1)

pack_word-lt : (src : List ℕ) → AllBytes src → pack_word 4 0 src 0 < 2 ^ 32
unfolding pack_word
pack_word-lt [] h = omega arith
pack_word-lt (a ∷ []) h = omega (arith, h.0, sum1 a h.0)
pack_word-lt (a ∷ b ∷ []) h = omega (arith, h.0, h.1.0, sum2 a b h.0 h.1.0)
pack_word-lt (a ∷ b ∷ c ∷ []) h = omega (arith, h.0, h.1.0, h.1.1.0, sum3 a b c h.0 h.1.0 h.1.1.0)
pack_word-lt (a ∷ b ∷ c ∷ d ∷ src) h =
    omega (arith, h.0, h.1.0, h.1.1.0, h.1.1.1.0, word_sum a b c d h.0 h.1.0 h.1.1.0 h.1.1.1.0)

pub AllWords-set_bytes :
    (dst src : List ℕ) → AllWords dst → AllBytes src → AllWords (vlwide_set_bytes dst src)
unfolding vlwide_set_bytes
AllWords-set_bytes [] src w b = tt
AllWords-set_bytes (d ∷ dst) [] w b = w
AllWords-set_bytes (d ∷ dst) (x ∷ src) w b =
    (pack_word-lt (x ∷ src) b, AllWords-set_bytes dst (drop 3 src) w.1 (AllBytes-drop 3 src b.1))
