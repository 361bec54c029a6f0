-- ===== src/Bench/PipelineTest/Capture.antt =====
-- A packet through `push_and_capture` of tb_pipeline.cpp.
use mathlib.Core.List.{map}
use fpga_network_processing.Base.{
  Bool, Bool-cases, List, Option, [], ap, append-nil, append_assoc, ap₂, arith, drop, false, inl,
  inr, length, length-drop, ltb, none, refl, some, suc, sym, take, true, zero, ℕ, ◌&&◌, ◌++◌, ◌+◌,
  ◌-◌, ◌<◌, ◌∙◌, ◌∷◌, ◌≡◌, ◌≤◌,
}
use fpga_network_processing.Generator.Carries.{AllBytes}
use fpga_network_processing.Monitor.Verdict.{Beat}
use fpga_network_processing.Pipeline.{m_tvalid, m_beat}
use fpga_network_processing.Pipeline.Sight.{see}
use fpga_network_processing.Pipeline.Shift.{line}
use fpga_network_processing.Bench.Clock.{pre, tick, drive}
use fpga_network_processing.Bench.FifoDriver.{chunk_size}
use fpga_network_processing.Bench.FifoDriver.Push.{shorter}
use fpga_network_processing.Bench.PipelineDriver.{
  Bus, edge, with_chunk, to_drain, is_shown, capture, put_beat, append_bytes, push_from,
  drain_timeout,
}
use fpga_network_processing.Bench.PipelineDriver.Edges.{
  IsRunning, any_edge, chunk_edge, wait_ready_lem, gets,
}
use fpga_network_processing.Bench.PipelineDriver.Push.{push_from_lem, push_round, wait_case}
use fpga_network_processing.Bench.PipelineDriver.Drain.{
  Ends, puts, nones, first, put_seen, last_seen, shown_some, shown_none,
}
use fpga_network_processing.Bench.PipelineDriver.Packet.{
  many_chunks, Ends-chunks, Ends-drop, drop_nones, drop-map, gets-nones, gets-some, puts-take-drop,
}
use fpga_network_processing.Bench.PipelineDriver.Session.{IsIdle, IsRunning-to_drain, beats}
use fpga_network_processing.Bench.PipelineDriver.Deliver.{append_beats}
use fpga_network_processing.Bench.PipelineTest.{push_only, read_packet, push_and_capture, push_one}

only_round :
    (fuel : ℕ) (pkt : List ℕ) (pos : ℕ) (s : Bus) (out : List ℕ) (c : Bool)
    → ltb pos (length pkt) ≡ c
    → push_only (suc fuel) 8 pkt pos s out ≡ (elim c [
      | false ↦ (s, out)
      | true ↦
          push_only fuel 8 pkt
            (pos + chunk_size 8 pkt pos)
            (drive edge (with_chunk 8 pkt pos) s)
            (capture append_bytes 8 (pre edge s) out)
    ])
unfolding push_only
only_round fuel pkt pos s out c h =
    ap
      (λ (c : Bool). elim c [
        | false ↦ (s, out)
        | true ↦
            push_only fuel 8 pkt (pos + chunk_size 8 pkt pos) (drive edge (with_chunk 8 pkt pos) s)
              (capture append_bytes 8 (pre edge s) out)
      ])
      h

-- Without waiting for `s_tready` the loop does what the other drivers' does.
same_push :
    (fuel : ℕ) (pkt : List ℕ) (pos : ℕ) (s : Bus) (out : List ℕ)
    → AllBytes pkt
    → IsRunning s
    → length pkt - pos < fuel
    → push_from append_bytes fuel 8 pkt pos s out ≡ some (push_only fuel 8 pkt pos s out)
same_push zero pkt pos s out b v enough = absurd (omega arith)
same_push (suc fuel) pkt pos s out b v enough = elim (Bool-cases (ltb pos (length pkt))) [
  | inr h ↦
      push_round append_bytes fuel pkt pos s out false h
      ∙ ap some (sym (only_round fuel pkt pos s out false h))
  | inl h ↦
      let t = drive edge (with_chunk 8 pkt pos) s in
      let (running, _) = chunk_edge pkt pos s b v in
      let out' = capture append_bytes 8 (pre edge s) out in
      push_round append_bytes fuel pkt pos s out true h
      ∙ ap (wait_case append_bytes fuel pkt pos out') (wait_ready_lem t running)
      ∙ same_push fuel pkt (pos + chunk_size 8 pkt pos) t out' b running
          (shorter pkt pos fuel h enough)
      ∙ ap some (sym (only_round fuel pkt pos s out true h))
]

abbrev read_case : ℕ → Bus → List ℕ → List ℕ → Bool → Bool → Bus × List ℕ
read_case timeout high out out' c last = elim c [
  | true ↦ elim last [ true ↦ (high, out') | false ↦ read_packet timeout 8 high out' ]
  | false ↦ read_packet timeout 8 high out
]

read_round :
    (timeout : ℕ) (s : Bus) (out : List ℕ)
    → read_packet (suc timeout) 8 s out
      ≡ read_case timeout
          (tick edge s)
          out
          (put_beat append_bytes 8 s out)
          (is_shown s)
          (m_beat s.dut).tlast
unfolding read_packet pre
read_round timeout s out = refl

-- A round that reads a beat, and one that finds none.
read_beat_round :
    (timeout : ℕ) (s : Bus) (out : List ℕ) (b : Beat) (l : List (Option Beat))
    → IsRunning s
    → line s.dut ≡ some b ∷ l
    → read_packet (suc timeout) 8 s out ≡ (elim b.1 [
      | true ↦ (tick edge s, out ++ b.0)
      | false ↦ read_packet timeout 8 (tick edge s) (out ++ b.0)
    ])
read_beat_round timeout s out b l v e =
    let (there, same) = shown_some (m_tvalid s.dut) (see (m_beat s.dut)) b (ap first e) in
    read_round timeout s out
    ∙ ap
        (λ c.
          read_case timeout (tick edge s) out (put_beat append_bytes 8 s out) c
            (m_beat s.dut).tlast)
        (ap₂ ◌&&◌ there v.driven.wanted)
    ∙ ap (λ x. read_case timeout (tick edge s) out x true (m_beat s.dut).tlast)
        (put_seen append_bytes s out ∙ ap (λ (x : Beat). out ++ x.0) same)
    ∙ ap (read_case timeout (tick edge s) out (out ++ b.0) true)
        (last_seen append_bytes s ∙ ap (λ (x : Beat). x.1) same)

read_none_round :
    (timeout : ℕ) (s : Bus) (out : List ℕ) (l : List (Option Beat))
    → line s.dut ≡ none ∷ l
    → read_packet (suc timeout) 8 s out ≡ read_packet timeout 8 (tick edge s) out
read_none_round timeout s out l e =
    let hidden = shown_none (m_tvalid s.dut) (see (m_beat s.dut)) (ap first e) in
    read_round timeout s out
    ∙ ap
        (λ c.
          read_case timeout (tick edge s) out (put_beat append_bytes 8 s out)
            (c && s.ports.m_tready) (m_beat s.dut).tlast)
        hidden

-- The loop reads the packet to its end, whatever comes behind it.
read_beats :
    (timeout : ℕ) (bs : List Beat) (l : List (Option Beat)) (s : Bus) (out : List ℕ)
    → IsRunning s
    → line s.dut ≡ map some bs ++ l
    → Ends bs
    → length bs ≤ timeout
    → (read_packet timeout 8 s out).1 ≡ puts append_bytes bs out
read_beats timeout [] l s out v e ends enough = absurd ends
read_beats zero (b ∷ bs) l s out v e ends enough = absurd (omega arith)
read_beats (suc timeout) (b ∷ []) l s out v e ends enough =
    ap (λ r. r.1)
      (read_beat_round timeout s out b l v e
        ∙ ap
            (λ (c : Bool). elim c [
              | true ↦ (tick edge s, out ++ b.0)
              | false ↦ read_packet timeout 8 (tick edge s) (out ++ b.0)
            ])
            ends)
read_beats (suc timeout) (b ∷ c ∷ bs) l s out v e ends enough =
    let (o, v', moved) = any_edge s v in
    let rest = map some (c ∷ bs) in
    ap (λ r. r.1)
      (read_beat_round timeout s out b (rest ++ l) v e
        ∙ ap
            (λ (c : Bool). elim c [
              | true ↦ (tick edge s, out ++ b.0)
              | false ↦ read_packet timeout 8 (tick edge s) (out ++ b.0)
            ])
            ends.0)
    ∙ read_beats timeout (c ∷ bs) (l ++ o ∷ []) (tick edge s) (out ++ b.0) v'
        (moved ∙ ap (λ q. drop 1 q ++ o ∷ []) e ∙ append_assoc rest l (o ∷ [])) ends.1 (omega arith)

-- So does it when the packet is still on its way.
read_late :
    (j timeout : ℕ) (bs : List Beat) (l : List (Option Beat)) (s : Bus) (out : List ℕ)
    → IsRunning s
    → line s.dut ≡ nones j ++ (map some bs ++ l)
    → Ends bs
    → j + length bs ≤ timeout
    → (read_packet timeout 8 s out).1 ≡ puts append_bytes bs out
read_late zero timeout bs l s out v e ends enough =
    read_beats timeout bs l s out v e ends (omega arith)
read_late (suc j) zero bs l s out v e ends enough = absurd (omega arith)
read_late (suc j) (suc timeout) bs l s out v e ends enough =
    let (o, v', moved) = any_edge s v in
    let rest = map some bs ++ l in
    ap (λ r. r.1) (read_none_round timeout s out (nones j ++ rest) e)
    ∙ read_late j timeout bs (l ++ o ∷ []) (tick edge s) out v'
        (moved
          ∙ ap (λ q. drop 1 q ++ o ∷ []) e
          ∙ append_assoc (nones j) rest (o ∷ [])
          ∙ ap (λ q. nones j ++ q) (append_assoc (map some bs) l (o ∷ [])))
        ends (omega arith)

the : {A : Type 0} {x y : A} → some x ≡ some y → x ≡ y
the e = cc

-- From an idle bus, as after a reset, a packet of one byte or more goes through the pipeline, and
-- the driver of the pipeline testbench returns exactly its bytes, although it leaves the last beat
-- at the input.
pub push_one_lem :
    (pkt : List ℕ) (s : Bus) → AllBytes pkt → IsIdle s → 0 < length pkt → (push_one s pkt 8).1 ≡ pkt
unfolding push_one push_and_capture
push_one_lem pkt s b v some_bytes =
    let cs = beats pkt in
    let n = length cs in
    let bs = drop (n - 8) cs in
    let fuel = suc (length pkt) in
    let running = IsRunning-to_drain s v in
    let (r, e, v', l, g) =
      push_from_lem append_bytes fuel pkt 0 (to_drain s) [] b running (omega arith) in
    let same : push_only fuel 8 pkt 0 (to_drain s) [] ≡ r =
      the (sym (same_push fuel pkt 0 (to_drain s) [] b running (omega arith)) ∙ e) in
    let row : line r.0.dut ≡ nones (8 - n) ++ (map some bs ++ []) =
      l
      ∙ ap (λ q. drop n (q ++ map some cs)) v.empty
      ∙ drop_nones n 8 (map some cs)
      ∙ ap (λ q. nones (8 - n) ++ q) (drop-map (n - 8) cs ∙ sym (append-nil (map some bs))) in
    let got : r.1 ≡ puts append_bytes (take (n - 8) cs) [] =
      g
      ∙ ap (λ q. gets append_bytes (take n (q ++ map some cs)) []) v.empty
      ∙ gets-nones append_bytes n 8 (map some cs) []
      ∙ gets-some append_bytes (n - 8) cs [] in
    let one : 0 < n = many_chunks 0 fuel pkt 0 (omega arith) (omega arith) in
    let size = length-drop (n - 8) cs in
    ap (λ (t : Bus × List ℕ). (read_packet drain_timeout 8 t.0 t.1).1) same
    ∙ read_late (8 - n) drain_timeout bs [] r.0 r.1 v' row
        (Ends-drop (n - 8) cs (omega (arith, one))
          (Ends-chunks fuel pkt 0 some_bytes (omega arith)))
        (omega (arith, size, one))
    ∙ ap (puts append_bytes bs) got
    ∙ puts-take-drop append_bytes (n - 8) cs []
    ∙ append_beats pkt
