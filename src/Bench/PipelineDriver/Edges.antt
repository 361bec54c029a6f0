-- ===== src/Bench/PipelineDriver/Edges.antt =====
-- The clock edges of the drivers of parser_pipeline.sv.
use fpga_network_processing.Base.{
  Bool, List, Option, [], ap, drop, false, if◌then◌else◌, leb, length, none, refl, some, sym, take,
  true, ℕ, ◌&&◌, ◌++◌, ◌+◌, ◌∙◌, ◌∷◌, ◌≡◌,
}
use fpga_network_processing.Generator.Carries.{AllBytes}
use fpga_network_processing.Monitor.Verdict.{Beat}
use fpga_network_processing.Pipeline.{Pipeline, s_tready, m_tvalid}
use fpga_network_processing.Pipeline.Sight.{see, words}
use fpga_network_processing.Pipeline.Tame.{IsTame, IsTame-posedge}
use fpga_network_processing.Pipeline.Shift.{slot, line, line-posedge, offered}
use fpga_network_processing.Bench.Clock.{pre, tick, drive}
use fpga_network_processing.Bench.FifoDriver.{read_beat, beat_at, chunk_size}
use fpga_network_processing.Bench.FifoDriver.Push.{AllBytes-take, AllBytes-drop, read_beat-beat_at}
use fpga_network_processing.Bench.FifoDriver.Edges.{length-set_bytes}
use fpga_network_processing.Bench.PipelineDriver.{
  Ports, Bus, wide, pins, edge, with_chunk, quiet, wait_ready, ready_fuel, capture, put_beat,
}
use fpga_network_processing.Bench.PipelineDriver.Wide.{AllWords, words-wide, AllWords-set_bytes}

-- Ports in use by a driver that wants the output.
pub record IsDriven (q : Ports) : Type 0 where
  pub on : q.rst_n ≡ true
  pub wanted : q.m_tready ≡ true
  pub lanes : length q.s_beat.tdata ≡ 16
  pub small : AllWords q.s_beat.tdata

pub record IsRunning (s : Bus) : Type 0 where
  pub tame : IsTame s.dut
  pub driven : IsDriven s.ports

IsDriven-chunk :
    (pkt : List ℕ) (pos : ℕ) (q : Ports)
    → AllBytes pkt
    → IsDriven q
    → IsDriven (with_chunk 8 pkt pos q)
unfolding beat_at
IsDriven-chunk pkt pos q b v =
    let src = take (chunk_size 8 pkt pos) (drop pos pkt) in
    record {
      on = v.on;
      wanted = v.wanted;
      lanes = length-set_bytes q.s_beat.tdata src ∙ v.lanes;
      small =
          AllWords-set_bytes q.s_beat.tdata src v.small
            (AllBytes-take (chunk_size 8 pkt pos) (drop pos pkt) (AllBytes-drop pos pkt b));
    }

-- What the circuit is offered is the beat at the ports.
offered_lem :
    (q : Ports)
    → IsDriven q
    → offered (pins q) ≡ (if q.s_tvalid then some (read_beat 8 q.s_beat) else none)
unfolding see read_beat
offered_lem q v =
    let there : words 16 (wide q.s_beat.tdata) ≡ q.s_beat.tdata =
      ap (λ n. words n (wide q.s_beat.tdata)) (sym v.lanes) ∙ words-wide q.s_beat.tdata v.small in
    ap
      (λ (ws : List ℕ).
        if q.s_tvalid
        then some
            (read_beat 8 (record { tdata = ws; tkeep = q.s_beat.tkeep; tlast = q.s_beat.tlast }))
        else none)
      there

-- An edge under the ports `q`.
under :
    (q : Ports) (d : Pipeline)
    → IsTame d
    → IsDriven q
    → IsTame (edge q d)
      × (line (edge q d)
          ≡ drop 1 (line d) ++ (if q.s_tvalid then some (read_beat 8 q.s_beat) else none) ∷ [])
unfolding edge
under q d t v = (
  IsTame-posedge (pins q) d t,
  line-posedge (pins q) d t (record { on = v.on; wanted = v.wanted })
      ∙ ap (λ (o : Option Beat). drop 1 (line d) ++ o ∷ []) (offered_lem q v),
)

-- An edge that puts a piece of a packet in.
pub chunk_edge :
    (pkt : List ℕ) (pos : ℕ) (s : Bus)
    → AllBytes pkt
    → IsRunning s
    → let t = drive edge (with_chunk 8 pkt pos) s in
      let nb = chunk_size 8 pkt pos in
      IsRunning t
      × (line t.dut
          ≡ drop 1 (line s.dut) ++ some (take nb (drop pos pkt), leb (length pkt) (pos + nb)) ∷ [])
unfolding drive
chunk_edge pkt pos s b v =
    let q = with_chunk 8 pkt pos s.ports in
    let driven = IsDriven-chunk pkt pos s.ports b v.driven in
    let (tame, e) = under q s.dut v.tame driven in
    (
      record { tame = tame; driven = driven },
      e
          ∙ ap (λ (x : Beat). drop 1 (line s.dut) ++ some x ∷ [])
              (read_beat-beat_at pkt pos s.ports.s_beat.tdata b v.driven.lanes),
    )

-- An edge that puts nothing in.
pub quiet_edge :
    (s : Bus)
    → IsRunning s
    → let t = drive edge quiet s in
      IsRunning t × (t.ports.s_tvalid ≡ false) × (line t.dut ≡ drop 1 (line s.dut) ++ none ∷ [])
unfolding drive
quiet_edge s v =
    let driven : IsDriven (quiet s.ports) = record {
      on = v.driven.on;
      wanted = v.driven.wanted;
      lanes = v.driven.lanes;
      small = v.driven.small;
    } in
    let (tame, e) = under (quiet s.ports) s.dut v.tame driven in
    (record { tame = tame; driven = driven }, refl, e)

-- An edge under the ports as they are.
pub any_edge :
    (s : Bus)
    → IsRunning s
    → let t = tick edge s in
      (o : Option Beat) × IsRunning t × (line t.dut ≡ drop 1 (line s.dut) ++ o ∷ [])
unfolding tick
any_edge s v =
    let (tame, e) = under s.ports s.dut v.tame v.driven in
    (
      if s.ports.s_tvalid then some (read_beat 8 s.ports.s_beat) else none,
      record { tame = tame; driven = v.driven },
      e,
    )

pub tick-edge :
    (s : Bus)
    → IsRunning s
    → s.ports.s_tvalid ≡ false
    → let t = tick edge s in
      IsRunning t × (t.ports.s_tvalid ≡ false) × (line t.dut ≡ drop 1 (line s.dut) ++ none ∷ [])
unfolding tick
tick-edge s v h =
    let (tame, e) = under s.ports s.dut v.tame v.driven in
    (
      record { tame = tame; driven = v.driven },
      h,
      e
          ∙ ap
              (λ (c : Bool).
                drop 1 (line s.dut) ++ (if c then some (read_beat 8 s.ports.s_beat) else none) ∷ [])
              h,
    )

-- With the output wanted the input is ready.
pub wait_ready_lem : (s : Bus) → IsRunning s → wait_ready ready_fuel s ≡ some s
unfolding wait_ready s_tready
wait_ready_lem s v =
    ap (λ (m : Bool). elim (s_tready m s.dut) [ true ↦ some s | false ↦ none ]) v.driven.wanted

module _ {Acc : Type 0} (put : List ℕ → Bool → Acc → Acc) where
  -- What becomes of the beats that are shown, edge by edge.
  abbrev pub got : Option Beat → Acc → Acc
  got none acc = acc
  got (some b) acc = put b.0 b.1 acc

  abbrev pub gets : List (Option Beat) → Acc → Acc
  gets [] acc = acc
  gets (o ∷ l) acc = gets l (got o acc)

  pub capture_lem :
      (s : Bus) (acc : Acc)
      → IsRunning s
      → capture put 8 (pre edge s) acc ≡ got (slot see s.dut.flow_inst.stage) acc
  unfolding capture pre see read_beat
  capture_lem s acc v =
      ap (λ m. if m_tvalid s.dut && m then put_beat put 8 s acc else acc) v.driven.wanted
      ∙ shown (m_tvalid s.dut)
    where
      shown :
          (c : Bool)
          → (if c && true then put_beat put 8 s acc else acc)
            ≡ got (if c then some (see s.dut.flow_inst.stage.pipe) else none) acc
      shown true = refl
      shown false = refl
