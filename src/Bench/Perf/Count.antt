-- ===== src/Bench/Perf/Count.antt =====
-- The counts of tb_perf.cpp.
use fpga_network_processing.Base.{
  List, ap, ap₂, arith, length, suc, zero, ℕ, ◌%◌, ◌*◌, ◌+◌, ◌<◌, ◌^◌, ◌∙◌, ◌≡◌,
}
use fpga_network_processing.Bench.Perf.{next, minus, Counts, count_packet}
use fpga_network_processing.Bench.Perf.Push.{later}

pub later_add : (m n c : ℕ) → later n (later m c) ≡ later (m + n) c
later_add zero n c = ap (λ k. later k c) {x = n} {y = 0 + n} (omega arith)
later_add (suc m) n c =
    later_add m n (next c) ∙ ap (λ k. later k c) {x = suc (m + n)} {y = suc m + n} (omega arith)

pub next-later : (n c : ℕ) → next (later n c) ≡ later (n + 1) c
next-later n c = later_add n 1 c

later_mod : (n c : ℕ) → c < 2 ^ 64 → later n c ≡ (c + n) % 2 ^ 64
later_mod zero c h = omega arith
later_mod (suc n) c h = later_mod n (next c) (omega arith) ∙ omega arith

-- The cycles from one count to another.
pub minus-later : (n c : ℕ) → c < 2 ^ 64 → minus (later n c) c ≡ n % 2 ^ 64
minus-later n c h = ap (λ k. minus k c) (later_mod n c h) ∙ omega arith

pub later-lt : (n c : ℕ) → c < 2 ^ 64 → later n c < 2 ^ 64
later-lt n c h = omega (arith, later_mod n c h)

-- The counts after `n` packets.
abbrev pub count_packets : ℕ → List ℕ → Counts → Counts
count_packets zero pkt r = r
count_packets (suc n) pkt r = count_packets n pkt (count_packet pkt r)

pub count_packets_lem :
    (n : ℕ) (pkt : List ℕ) (r : Counts)
    → r.packets < 2 ^ 64
    → r.total_bytes < 2 ^ 64
    → count_packets n pkt r ≡ record r {
      packets = (r.packets + n) % 2 ^ 64;
      total_bytes = (r.total_bytes + n * length pkt) % 2 ^ 64;
    }
count_packets_lem zero pkt r p t =
    ap₂ (λ a b. record r { packets = a; total_bytes = b }) {x = r.packets} (omega arith)
      (omega arith)
count_packets_lem (suc n) pkt r p t =
    count_packets_lem n pkt (count_packet pkt r) (omega arith) (omega arith)
    ∙ ap₂ (λ a b. record r { packets = a; total_bytes = b }) (omega arith) (omega arith)
