-- ===== src/Bench/FifoTest/Balance.antt =====
-- The packets that the monitor expects, against those whose beats are on their way.
use fpga_network_processing.Base.{
  List, [], ap, ap₂, arith, drop, length, length-append, suc, sym, ℕ, ◌++◌, ◌+◌, ◌∙◌, ◌∷◌, ◌≡◌,
}
use fpga_network_processing.Monitor.Scoreboard.{PacketMon, expect, pending}
use fpga_network_processing.Monitor.Verdict.{
  Beat, receive, receive_lem, packets, leftover, mismatches,
}
use fpga_network_processing.Monitor.Packets.{
  packets-append, leftover-append, mismatches_start, mismatches_self, drop_start,
}
use fpga_network_processing.Bench.FifoDriver.Moves.{Moves}

-- Beats `c` held and a monitor that have seen `k` packets.
pub record IsBalanced (c : List Beat) (m : PacketMon) (k : ℕ) : Type 0 where
  pub clean : m.error_count ≡ 0
  pub awaited : m.expected ≡ packets m.rx_beats c
  pub whole : leftover m.rx_beats c ≡ []
  pub counted : m.pkt_count + length m.expected ≡ k

-- Another packet expected and sent.
pub IsBalanced-Moves :
    {c c' new : List Beat} {m m' : PacketMon} {k : ℕ} (pkt : List ℕ)
    → IsBalanced c m k
    → packets [] new ≡ pkt ∷ []
    → leftover [] new ≡ []
    → Moves c (expect pkt m) c' m' new
    → IsBalanced c' m' (suc k)
unfolding expect
IsBalanced-Moves {c} {c'} {new} {m} {m'} {k} pkt v one none_left p =
    let start = m.rx_beats in
    let ps = packets start p.moved in
    let qs = packets (leftover start p.moved) c' in
    let awaits : m.expected ++ pkt ∷ [] ≡ ps ++ qs =
      ap₂ ◌++◌ v.awaited (sym one)
      ∙ ap (λ l. packets start c ++ packets l new) (sym v.whole)
      ∙ sym (packets-append c new start)
      ∙ ap (packets start) (sym p.balance)
      ∙ packets-append p.moved c' start in
    let (seen, checked, left, part) = receive_lem p.moved (expect pkt m) in
    let error : m'.error_count ≡ 0 = omega (
      arith,
      ap (λ (x : PacketMon). x.error_count) p.got,
      checked,
      v.clean,
      ap (mismatches ps) awaits ∙ mismatches_start ps qs,
    ) in
    let waiting : m'.expected ≡ qs =
      ap (λ (x : PacketMon). x.expected) p.got
      ∙ left
      ∙ ap (drop (length ps)) awaits
      ∙ drop_start ps qs in
    let partial : m'.rx_beats ≡ leftover start p.moved =
      ap (λ (x : PacketMon). x.rx_beats) p.got ∙ part in
    record {
      clean = error;
      awaited = waiting ∙ ap (λ r. packets r c') (sym partial);
      whole =
          ap (λ r. leftover r c') partial
          ∙ sym (leftover-append p.moved c' start)
          ∙ ap (leftover start) p.balance
          ∙ leftover-append c new start
          ∙ ap (λ l. leftover l new) v.whole
          ∙ none_left;
      counted = omega (
        arith,
        ap (λ (x : PacketMon). x.pkt_count) p.got,
        seen,
        ap length waiting,
        ap length awaits,
        length-append ps qs,
        length-append m.expected (pkt ∷ []),
        v.counted,
      );
    }

-- When the beats held have been received, all is counted, without an error.
pub receive-IsBalanced :
    {c : List Beat} {m : PacketMon} {k : ℕ}
    → IsBalanced c m k
    → let m' = receive c m in (m'.pkt_count ≡ k) × (m'.error_count ≡ 0) × (pending m' ≡ 0)
receive-IsBalanced {c} {m} {k} v =
    let (seen, checked, left, _) = receive_lem c m in
    let rs = packets m.rx_beats c in
    let (no_mismatch, none_left) = mismatches_self rs in
    (
      omega (arith, seen, ap length v.awaited, v.counted),
      omega (arith, checked, v.clean, ap (mismatches rs) v.awaited ∙ no_mismatch),
      ap length left ∙ ap (λ es. length (drop (length rs) es)) v.awaited ∙ none_left,
    )
