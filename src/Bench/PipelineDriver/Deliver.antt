-- ===== src/Bench/PipelineDriver/Deliver.antt =====
-- What the testbenches of parser_pipeline.sv start from, and what they get.
use fpga_network_processing.Base.{
  Bool-cases, List, [], ap, append-nil, append_assoc, arith, drop, false, inl, inr, length, ltb,
  refl, some, suc, sym, take, take-append-drop, true, zero, ℕ, ◌++◌, ◌+◌, ◌-◌, ◌<◌, ◌∙◌, ◌∷◌, ◌≡◌,
  ◌≤◌,
}
use fpga_network_processing.Generator.Carries.{AllBytes}
use fpga_network_processing.Pipeline.{Pipeline}
use fpga_network_processing.Pipeline.Tame.{IsTame, IsTame-posedge}
use fpga_network_processing.Pipeline.Reset.{
  IsEmpty, IsEmpty-reset, IsEmpty-posedge, IsTame-reset, line-empty,
}
use fpga_network_processing.FlowTable.{Past}
use fpga_network_processing.Bench.Clock.{tick, ticks}
use fpga_network_processing.Bench.FifoDriver.{chunk_size}
use fpga_network_processing.Bench.FifoDriver.Chunks.{chunks, chunks_more, chunks_done, drop-drop}
use fpga_network_processing.Bench.FifoDriver.Push.{shorter}
use fpga_network_processing.Bench.PipelineDriver.Wide.{AllWords}
use fpga_network_processing.Bench.PipelineDriver.{
  Bus, Ports, pins, edge, reset, new_sim, append_bytes, push_and_capture,
}
use fpga_network_processing.Bench.PipelineDriver.Drain.{puts}
use fpga_network_processing.Bench.PipelineDriver.Session.{beats, IsIdle, push_and_drain_lem}

-- A device in reset or just out of it.
record IsCleared (d : Pipeline) : Type 0 where
  tame : IsTame d
  empty : IsEmpty d

module _ (q : Ports) (quiet : q.s_tvalid ≡ false) where
  IsCleared-edge : (d : Pipeline) → IsCleared d → IsCleared (edge q d)
  unfolding edge
  IsCleared-edge d v = record {
    tame = IsTame-posedge (pins q) d v.tame;
    empty = IsEmpty-posedge (pins q) d v.empty quiet;
  }

  reset_edge : (d : Pipeline) → q.rst_n ≡ false → IsCleared (edge q d)
  unfolding edge
  reset_edge d off = record {
    tame = IsTame-reset (pins q) d off;
    empty = IsEmpty-reset (pins q) d off;
  }

-- Such a device with nothing offered.
record IsResting (s : Bus) : Type 0 where
  cleared : IsCleared s.dut
  quiet : s.ports.s_tvalid ≡ false
  lanes : length s.ports.s_beat.tdata ≡ 16
  small : AllWords s.ports.s_beat.tdata

IsResting-ticks : (n : ℕ) (s : Bus) → IsResting s → IsResting (ticks edge n s)
unfolding ticks
IsResting-ticks zero s v = v
IsResting-ticks (suc n) s v =
    IsResting-ticks n (record { dut = edge s.ports s.dut; ports = s.ports; clk = true })
      (record {
        cleared = IsCleared-edge s.ports v.quiet s.dut v.cleared;
        quiet = v.quiet;
        lanes = v.lanes;
        small = v.small;
      })

IsIdle-out : (s : Bus) → IsResting s → s.ports.rst_n ≡ true → IsIdle (tick edge s)
unfolding tick
IsIdle-out s v on =
    let next = IsCleared-edge s.ports v.quiet s.dut v.cleared in
    record {
      tame = next.tame;
      on = on;
      lanes = v.lanes;
      small = v.small;
      empty = line-empty (edge s.ports s.dut) next.empty;
    }

-- A reset while nothing is offered.
pub reset_any :
    (n : ℕ) (s : Bus)
    → s.ports.s_tvalid ≡ false
    → length s.ports.s_beat.tdata ≡ 16
    → AllWords s.ports.s_beat.tdata
    → IsIdle (reset (suc n) s)
unfolding reset ticks tick
reset_any n s off lanes small =
    let low_ports = record s.ports { rst_n = false } in
    let first : Bus = record { dut = edge low_ports s.dut; ports = low_ports; clk = true } in
    let low = IsResting-ticks n first (record {
      cleared = reset_edge low_ports off s.dut refl;
      quiet = off;
      lanes = lanes;
      small = small;
    }) in
    let t = ticks edge n first in
    IsIdle-out (record t { ports = record t.ports { rst_n = true } })
      (record { cleared = low.cleared; quiet = low.quiet; lanes = low.lanes; small = low.small })
      refl

-- After a reset of one cycle or more, whatever the registers held, the device is idle.
pub reset-IsIdle : (n : ℕ) (d : Pipeline) (past : Past) → IsIdle (reset (suc n) (new_sim d past))
reset-IsIdle n d past = reset_any n (new_sim d past) refl refl (omega arith)

-- The bytes of a packet's beats.
append_chunks :
    (n : ℕ) (pkt : List ℕ) (pos : ℕ) (rx : List ℕ)
    → length pkt - pos < n
    → puts append_bytes (chunks n pkt pos) rx ≡ rx ++ drop pos pkt
append_chunks zero pkt pos rx enough = absurd (omega arith)
append_chunks (suc n) pkt pos rx enough = elim (Bool-cases (ltb pos (length pkt))) [
  | inr h ↦
      ap (λ cs. puts append_bytes cs rx) (chunks_done n pkt pos h)
      ∙ sym (ap (λ q. rx ++ q) (drop_all pos pkt (ground arith)) ∙ append-nil rx)
  | inl h ↦
      let nb = chunk_size 8 pkt pos in
      let piece = take nb (drop pos pkt) in
      ap (λ cs. puts append_bytes cs rx) (chunks_more n pkt pos h)
      ∙ append_chunks n pkt (pos + nb) (rx ++ piece) (shorter pkt pos n h enough)
      ∙ append_assoc rx piece (drop (pos + nb) pkt)
      ∙ ap (λ q. rx ++ (piece ++ q)) (sym (drop-drop pos nb pkt))
      ∙ ap (λ q. rx ++ q) (take-append-drop nb (drop pos pkt))
]
  where
    drop_all : (n : ℕ) (bs : List ℕ) → length bs ≤ n → drop n bs ≡ []
    drop_all zero [] h = refl
    drop_all zero (b ∷ bs) h = absurd (omega arith)
    drop_all (suc n) [] h = refl
    drop_all (suc n) (b ∷ bs) h = drop_all n bs (omega arith)

pub append_beats : (pkt : List ℕ) → puts append_bytes (beats pkt) [] ≡ pkt
append_beats pkt = append_chunks (suc (length pkt)) pkt 0 [] (omega arith)

-- From an idle bus, as after a reset, a packet of more than 40 bytes goes through the pipeline:
-- the driver ends, it returns exactly the packet's bytes, and the bus is idle again.
pub push_and_capture_lem :
    (pkt : List ℕ) (s : Bus)
    → AllBytes pkt
    → IsIdle s
    → 40 < length pkt
    → (s' : Bus) × (push_and_capture s pkt 8 ≡ some (s', pkt)) × IsIdle s'
unfolding push_and_capture
push_and_capture_lem pkt s b v long =
    let (r, e, (idle, got)) = push_and_drain_lem append_bytes pkt s [] b v long in
    (r.0, e ∙ ap (λ rx. some (r.0, rx)) (got ∙ append_beats pkt), idle)
