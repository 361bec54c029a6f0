-- ===== src/Crc/Stream.antt =====
-- A whole packet through the circuit, idle cycles included.
use fpga_network_processing.Base.{
  List, [], ap, arith, bit_xor, false, if◌then◌else◌, refl, sym, true, ℕ, ◌&&◌, ◌++◌, ◌<◌, ◌^◌, ◌∙◌,
  ◌∷◌, ◌≡◌,
}
use fpga_network_processing.Base.Bits.{bit_xor-ones}
use fpga_network_processing.Monitor.Crc.{crc32_round, crc32_loop, crc32}
use fpga_network_processing.Crc.{Crc, Inputs, crc_next, posedge}
use fpga_network_processing.Crc.Equivalence.{le_bytes, crc_next-crc32_loop, crc_next-lt}

-- The registers after a list of clock edges.
unfoldable pub run : List Inputs → Crc → Crc
run [] c = c
run (i ∷ is) c = run is (posedge i c)

-- An edge inside a packet: no reset, and either idle or a word that is not the last.
abbrev pub IsMiddle : Inputs → Type 0
IsMiddle i = (i.rst_n ≡ true) × ((i.data_valid && i.data_last) ≡ false) × (i.data_in < 2 ^ 32)

abbrev pub AllMiddle : List Inputs → Type 0
AllMiddle [] = Unit {0}
AllMiddle (i ∷ is) = IsMiddle i × AllMiddle is

-- The bytes that the edges bring.
abbrev pub payload : List Inputs → List ℕ
payload [] = []
payload (i ∷ is) = (if i.data_valid then le_bytes 4 i.data_in else []) ++ payload is

abbrev pub ends_with : ℕ → Inputs
ends_with w = record { rst_n = true; data_in = w; data_valid = true; data_last = true }

pub crc32_loop-append :
    (crc : ℕ) (xs ys : List ℕ) → crc32_loop crc (xs ++ ys) ≡ crc32_loop (crc32_loop crc xs) ys
unfolding crc32_loop
crc32_loop-append crc [] ys = refl
crc32_loop-append crc (x ∷ xs) ys = crc32_loop-append (crc32_round crc x) xs ys

posedge_middle :
    (i : Inputs) (c : Crc)
    → IsMiddle i
    → c.crc_state < 2 ^ 32
    → ((posedge i c).crc_state
        ≡ crc32_loop c.crc_state (if i.data_valid then le_bytes 4 i.data_in else []))
      × ((posedge i c).crc_state < 2 ^ 32)
unfolding posedge crc32_loop
posedge_middle i c m h = ground (arith, crc_next-crc32_loop c i.data_in, crc_next-lt c i.data_in)

run_middle :
    (is : List Inputs) (c : Crc)
    → AllMiddle is
    → c.crc_state < 2 ^ 32
    → ((run is c).crc_state ≡ crc32_loop c.crc_state (payload is)) × ((run is c).crc_state < 2 ^ 32)
unfolding run crc32_loop
run_middle [] c m h = (refl, h)
run_middle (i ∷ is) c m h =
    let (e, k) = posedge_middle i c m.0 h in
    let (e', k') = run_middle is (posedge i c) m.1 k in
    (
      e'
          ∙ ap (λ t. crc32_loop t (payload is)) e
          ∙ sym (
              crc32_loop-append c.crc_state (if i.data_valid then le_bytes 4 i.data_in else [])
                (payload is)),
      k',
    )

pub run-append : (is js : List Inputs) (c : Crc) → run (is ++ js) c ≡ run js (run is c)
unfolding run
run-append [] js c = refl
run-append (i ∷ is) js c = run-append is js (posedge i c)

posedge_last :
    (w : ℕ) (c : Crc)
    → w < 2 ^ 32
    → c.crc_state < 2 ^ 32
    → posedge (ends_with w) c ≡ record {
      crc_state = 0xffffffff;
      crc_out = bit_xor (crc32_loop c.crc_state (le_bytes 4 w)) 0xffffffff;
      crc_valid = true;
    }
unfolding posedge
posedge_last w c h k = ground (
  arith,
  crc_next-crc32_loop c w h,
  crc_next-lt c w k h,
  bit_xor-ones 32 (crc_next c w) (crc_next-lt c w k h),
)

-- From a circuit that is ready for a packet (as after reset), let the clock edges bring any words
-- below 2 ^ 32, idle cycles among them, none of them the last, and then a last word. The circuit
-- then shows `PacketMon::crc32` of the bytes of all the words, lowest byte of a word first, marks
-- it valid, and is ready for the next packet.
pub run-crc32 :
    (is : List Inputs) (w : ℕ) (c : Crc)
    → c.crc_state ≡ 0xffffffff
    → AllMiddle is
    → w < 2 ^ 32
    → run (is ++ ends_with w ∷ []) c ≡ record {
      crc_state = 0xffffffff;
      crc_out = crc32 (payload is ++ le_bytes 4 w);
      crc_valid = true;
    }
unfolding run crc32
run-crc32 is w c ready m h =
    let (e, k) = run_middle is c m (omega arith) in
    run-append is (ends_with w ∷ []) c
    ∙ posedge_last w (run is c) h k
    ∙ ap (λ t. record { crc_state = 0xffffffff; crc_out = bit_xor t 0xffffffff; crc_valid = true })
        (ap (λ t. crc32_loop t (le_bytes 4 w)) e
          ∙ sym (crc32_loop-append c.crc_state (payload is) (le_bytes 4 w))
          ∙ ap (λ t. crc32_loop t (payload is ++ le_bytes 4 w)) ready)

-- An edge with the reset low makes the circuit ready.
pub posedge_reset : (i : Inputs) (c : Crc) → i.rst_n ≡ false → (posedge i c).crc_state ≡ 0xffffffff
unfolding posedge
posedge_reset i c h = ground arith
