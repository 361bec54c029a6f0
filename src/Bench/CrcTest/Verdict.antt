-- ===== src/Bench/CrcTest/Verdict.antt =====
-- A test of the form of tb_crc.cpp, for any words, against the software checksum of packet_mon.h.
use Prim.{tt}
use mathlib.Core.List.{map}
use fpga_network_processing.Base.{
  Bool, List, [], ap, arith, false, refl, sym, true, ℕ, ◌++◌, ◌<◌, ◌==◌, ◌^◌, ◌∙◌, ◌∷◌, ◌≡◌,
}
use fpga_network_processing.Monitor.Crc.{crc32}
use fpga_network_processing.Crc
use fpga_network_processing.Crc.{Crc, Inputs}
use fpga_network_processing.Crc.Equivalence.{le_bytes}
use fpga_network_processing.Crc.Stream.{run, AllMiddle, payload, ends_with, run-crc32, run-append}
use fpga_network_processing.Bench.Clock.{pre, tick, ticks, drive}
use fpga_network_processing.Bench.CrcTest.{Checker, new_checker, reset, send, verdict}

unfoldable pub send_all : List ℕ → Checker → Checker
send_all [] s = s
send_all (w ∷ ws) s = send_all ws (send w false s)

-- The test: a reset, the words, and the comparison.
unfoldable pub test_words : Crc → List ℕ → ℕ → ℕ → Bool
unfolding send_all
test_words dut ws w expected =
    let s = reset (new_checker dut) in
    let ready = record s { ports = record s.ports { data_valid = false } } in
    verdict expected (send w true (send_all ws ready))

abbrev pub AllWords : List ℕ → Type 0
AllWords [] = Unit {0}
AllWords (w ∷ ws) = (w < 2 ^ 32) × AllWords ws

-- The bytes of words, lowest first.
abbrev pub bytes_of : List ℕ → List ℕ
bytes_of [] = []
bytes_of (w ∷ ws) = le_bytes 4 w ++ bytes_of ws

abbrev brings : ℕ → Inputs
brings w = record { rst_n = true; data_in = w; data_valid = true; data_last = false }

payload-brings : (ws : List ℕ) → payload (map brings ws) ≡ bytes_of ws
payload-brings [] = refl
payload-brings (w ∷ ws) = ap (λ t. le_bytes 4 w ++ t) (payload-brings ws)

AllMiddle-brings : (ws : List ℕ) → AllWords ws → AllMiddle (map brings ws)
AllMiddle-brings [] h = tt
AllMiddle-brings (w ∷ ws) h = ((refl, refl, h.0), AllMiddle-brings ws h.1)

-- A word sent is an edge.
dut-send :
    (w : ℕ) (last : Bool) (s : Checker)
    → s.ports.rst_n ≡ true
    → (send w last s).dut
      ≡ Crc.posedge
          (record { rst_n = true; data_in = w; data_valid = true; data_last = last })
          s.dut
unfolding send drive
dut-send w last s on =
    ap
      (λ r.
        Crc.posedge (record { rst_n = r; data_in = w; data_valid = true; data_last = last }) s.dut)
      on

dut-send_all :
    (ws : List ℕ) (s : Checker)
    → s.ports.rst_n ≡ true
    → ((send_all ws s).dut ≡ run (map brings ws) s.dut) × ((send_all ws s).ports.rst_n ≡ true)
unfolding send_all run send drive
dut-send_all [] s on = (refl, on)
dut-send_all (w ∷ ws) s on =
    let (e, on') = dut-send_all ws (send w false s) on in
    (e ∙ ap (run (map brings ws)) (dut-send w false s on), on')

verdict_valid :
    (expected : ℕ) (s : Checker)
    → s.dut.crc_valid ≡ true
    → verdict expected s ≡ (s.dut.crc_out == expected)
unfolding verdict pre
verdict_valid expected s h = ground arith

-- For any words and a last word, all below 2 ^ 32, sent one in a cycle after the reset of a
-- circuit with any registers, the test passes exactly when the number expected is
-- `PacketMon::crc32` of their bytes.
pub test_words_lem :
    (dut : Crc) (ws : List ℕ) (w expected : ℕ)
    → AllWords ws
    → w < 2 ^ 32
    → test_words dut ws w expected ≡ (crc32 (bytes_of ws ++ le_bytes 4 w) == expected)
unfolding test_words reset ticks tick Crc.posedge run
test_words_lem dut ws w expected h k =
    let s = reset (new_checker dut) in
    let ready = record s { ports = record s.ports { data_valid = false } } in
    let (e, on) = dut-send_all ws ready refl in
    let done : (send w true (send_all ws ready)).dut ≡ record {
      crc_state = 0xffffffff;
      crc_out = crc32 (payload (map brings ws) ++ le_bytes 4 w);
      crc_valid = true;
    } =
      dut-send w true (send_all ws ready) on
      ∙ ap (Crc.posedge (ends_with w)) e
      ∙ sym (run-append (map brings ws) (ends_with w ∷ []) ready.dut)
      ∙ run-crc32 (map brings ws) w ready.dut refl (AllMiddle-brings ws h) k in
    verdict_valid expected (send w true (send_all ws ready)) (ap (λ (c : Crc). c.crc_valid) done)
    ∙ ap (λ (c : Crc). c.crc_out == expected) done
    ∙ ap (λ t. crc32 (t ++ le_bytes 4 w) == expected) (payload-brings ws)
