-- ===== src/Bench/FifoDriver/Push.antt =====
-- The rounds of `push_packet` of tb_axis_fifo.cpp, 8 bytes to a beat as the tests do.
use mathlib.Core.List.{map, map-append}
use Prim.{tt}
use mathlib.Core.Path.{subst}
use fpga_network_processing.Base.{
  Bool, Bool-cases, List, Option, [], ap, append-nil, arith, drop, false, inl, inr, leb, length,
  length-drop, length-take, ltb, none, refl, some, suc, sym, take, true, zero, ℕ, ◌++◌, ◌+◌, ◌-◌,
  ◌<◌, ◌∙◌, ◌∷◌, ◌≡◌,
}
use fpga_network_processing.Generator.Carries.{AllBytes}
use fpga_network_processing.Fifo.{depth, Inputs}
use fpga_network_processing.Fifo.Queue
use fpga_network_processing.Fifo.Refine.{contents, posedge_refines}
use fpga_network_processing.Monitor.Scoreboard.{PacketMon}
use fpga_network_processing.Monitor.Verdict.{Beat}
use fpga_network_processing.Bench.Words.{
  vlwide_set_bytes, vlwide_get_bytes, count_keep-mask, get-set_bytes,
}
use fpga_network_processing.Bench.FifoDriver.{
  AxisBeat, SimContext, read_beat, beat_at, chunk_size, offer, make_room, room_fuel, push_from,
  push_packet, eval_pre, eval_post, count_cycle,
}
use fpga_network_processing.Bench.FifoDriver.Chunks.{chunks, chunks_done, chunks_more}
use fpga_network_processing.Bench.FifoDriver.Moves.{Moves, Moves-none, Moves-in, Moves-trans}
use fpga_network_processing.Bench.FifoDriver.Edges.{
  held, after_edge, pins, eval_pre_lem, IsLive-after_edge, IsLive,
}
use fpga_network_processing.Bench.FifoDriver.Beats.{offer_lem, make_room_lem}

pub AllBytes-take : (n : ℕ) (bs : List ℕ) → AllBytes bs → AllBytes (take n bs)
AllBytes-take zero bs h = tt
AllBytes-take (suc n) [] h = tt
AllBytes-take (suc n) (b ∷ bs) h = (h.0, AllBytes-take n bs h.1)

pub AllBytes-drop : (n : ℕ) (bs : List ℕ) → AllBytes bs → AllBytes (drop n bs)
AllBytes-drop zero bs h = h
AllBytes-drop (suc n) [] h = tt
AllBytes-drop (suc n) (b ∷ bs) h = AllBytes-drop n bs h.1

-- The bytes that come out of a beat are those put in it.
pub read_beat-beat_at :
    (pkt : List ℕ) (pos : ℕ) (words : List ℕ)
    → AllBytes pkt
    → length words ≡ 16
    → let nb = chunk_size 8 pkt pos in
      read_beat 8 (beat_at 8 pkt pos words) ≡ (take nb (drop pos pkt), leb (length pkt) (pos + nb))
unfolding read_beat beat_at
read_beat-beat_at pkt pos words b lanes =
    let nb = chunk_size 8 pkt pos in
    let src = take nb (drop pos pkt) in
    let size : length src ≡ nb =
      omega (arith, length-take nb (drop pos pkt), length-drop pos pkt) in
    ap (λ bs. (bs, leb (length pkt) (pos + nb)))
      (ap (vlwide_get_bytes (vlwide_set_bytes words src))
          (count_keep-mask nb (omega arith) ∙ sym size)
        ∙ get-set_bytes words src (AllBytes-take nb (drop pos pkt) (AllBytes-drop pos pkt b))
            (omega arith))

abbrev push_case :
    ℕ → List ℕ → ℕ → Option (SimContext × PacketMon) → Option (SimContext × PacketMon)
push_case fuel pkt pos o = elim o [
  | none ↦ none
  | some (s', m') ↦
      push_from fuel 8 pkt (pos + chunk_size 8 pkt pos) (record s' { m_tready = false }) m'
]

push_step :
    (fuel : ℕ) (pkt : List ℕ) (pos : ℕ) (s : SimContext) (m : PacketMon)
    → ltb pos (length pkt) ≡ true
    → push_from (suc fuel) 8 pkt pos s m
      ≡ push_case fuel pkt pos (make_room room_fuel 8 (offer 8 pkt pos s) m)
unfolding push_from
push_step fuel pkt pos s m h =
    ap
      (λ (c : Bool). elim c [
        | false ↦ some (s, m)
        | true ↦ push_case fuel pkt pos (make_room room_fuel 8 (offer 8 pkt pos s) m)
      ])
      h

push_stop :
    (fuel : ℕ) (pkt : List ℕ) (pos : ℕ) (s : SimContext) (m : PacketMon)
    → ltb pos (length pkt) ≡ false
    → push_from (suc fuel) 8 pkt pos s m ≡ some (s, m)
unfolding push_from
push_stop fuel pkt pos s m h =
    ap
      (λ (c : Bool). elim c [
        | false ↦ some (s, m)
        | true ↦ push_case fuel pkt pos (make_room room_fuel 8 (offer 8 pkt pos s) m)
      ])
      h

-- A driver between two beats: nothing is read while beats are put in.
pub record IsFilling (s : SimContext) : Type 0 where
  pub live : IsLive s
  pub kept : s.m_tready ≡ false
  pub room : length (contents s.dut) < depth

held-offer :
    (pkt : List ℕ) (pos : ℕ) (s : SimContext)
    → AllBytes pkt
    → IsFilling s
    → let nb = chunk_size 8 pkt pos in
      held (offer 8 pkt pos s)
      ≡ held s ++ (take nb (drop pos pkt), leb (length pkt) (pos + nb)) ∷ []
held-offer pkt pos s b v =
    let beat = beat_at 8 pkt pos s.s_beat.tdata in
    ap (map (read_beat 8)) (offer_lem pkt pos s v.live v.kept v.room).1
    ∙ map-append (read_beat 8) (contents s.dut) (beat ∷ [])
    ∙ ap (λ (x : Beat). held s ++ x ∷ []) (read_beat-beat_at pkt pos s.s_beat.tdata b v.live.lanes)

pub shorter :
    (pkt : List ℕ) (pos fuel : ℕ)
    → ltb pos (length pkt) ≡ true
    → length pkt - pos < suc fuel
    → length pkt - (pos + chunk_size 8 pkt pos) < fuel
shorter pkt pos fuel h enough = ground arith

-- The loop ends, and the beats of the packet are on their way.
push_from_lem :
    (fuel : ℕ) (pkt : List ℕ) (pos : ℕ) (s : SimContext) (m : PacketMon)
    → AllBytes pkt
    → IsFilling s
    → length pkt - pos < fuel
    → (r : SimContext × PacketMon) × (push_from fuel 8 pkt pos s m ≡ some r)
      × IsFilling r.0
      × Moves (held s) m (held r.0) r.1 (chunks fuel pkt pos)
push_from_lem zero pkt pos s m b v enough = absurd (omega arith)
push_from_lem (suc fuel) pkt pos s m b v enough = elim (Bool-cases (ltb pos (length pkt))) [
  | inr h ↦ (
    (s, m),
    push_stop fuel pkt pos s m h,
    v,
    subst (Moves (held s) m (held s) m) (sym (chunks_done fuel pkt pos h)) Moves-none,
  )
  | inl h ↦
      let t = offer 8 pkt pos s in
      let nb = chunk_size 8 pkt pos in
      let beat : Beat = (take nb (drop pos pkt), leb (length pkt) (pos + nb)) in
      let (r, e, live, room, kept) =
        make_room_lem (contents t.dut) t m (offer_lem pkt pos s v.live v.kept v.room).0 refl in
      let next = record r.0 { m_tready = false } in
      let next_filling : IsFilling next = record {
        live = record { valid = live.valid; on = live.on; lanes = live.lanes };
        kept = refl;
        room = room;
      } in
      let (r', e', v', rest) =
        push_from_lem fuel pkt (pos + nb) next r.1 b next_filling (shorter pkt pos fuel h enough) in
      let first : Moves (held s) m (held r.0) r.1 (beat ∷ []) =
        Moves-trans (Moves-in beat)
          (subst (λ c. Moves c m (held r.0) r.1 []) (held-offer pkt pos s b v) kept) in
      (
        r',
        push_step fuel pkt pos s m h ∙ ap (push_case fuel pkt pos) e ∙ e',
        v',
        subst (Moves (held s) m (held r'.0) r'.1) (sym (chunks_more fuel pkt pos h))
            (Moves-trans first rest),
      )
]

step_idle :
    (i : Inputs AxisBeat) (q : List AxisBeat)
    → i.s_tvalid ≡ false
    → i.m_tready ≡ false
    → Queue.step i q ≡ q
unfolding Queue.step Queue.takes
step_idle i [] kept unread = ground arith
step_idle i (b ∷ q) kept unread = ground (arith, append-nil q)

-- The last edge of `push_packet`.
abbrev idle : SimContext → SimContext
idle s = record s { s_tvalid = false; m_tready = false; clk = false }

push_end :
    (s : SimContext)
    → count_cycle (eval_post (record (eval_pre s) { s_tvalid = false; m_tready = false }))
      ≡ after_edge (idle s)
unfolding eval_post
push_end s =
    ap
      (λ (low : SimContext).
        count_cycle (eval_post (record low { s_tvalid = false; m_tready = false })))
      (eval_pre_lem s)

contents-idle : (s : SimContext) → IsLive s → contents (after_edge (idle s)).dut ≡ contents s.dut
contents-idle s v =
    posedge_refines (pins (idle s)) v.valid v.on
    ∙ step_idle (pins (idle s)) (contents s.dut) refl refl

IsFilling-idle : (s : SimContext) → IsFilling s → IsFilling (after_edge (idle s))
IsFilling-idle s v = record {
  live =
      IsLive-after_edge (idle s)
        (record { valid = v.live.valid; on = v.live.on; lanes = v.live.lanes });
  kept = refl;
  room = subst (λ q. length q < depth) (sym (contents-idle s v.live)) v.room;
}

abbrev end_case : Option (SimContext × PacketMon) → Option (SimContext × PacketMon)
end_case o = elim o [
  | none ↦ none
  | some (s', m') ↦
      some
        (count_cycle (eval_post (record (eval_pre s') { s_tvalid = false; m_tready = false })), m')
]

-- `push_packet` returns, and the beats of the packet are on their way.
pub push_packet_lem :
    (pkt : List ℕ) (s : SimContext) (m : PacketMon)
    → AllBytes pkt
    → IsFilling s
    → (r : SimContext × PacketMon) × (push_packet s m pkt 8 ≡ some r)
      × IsFilling r.0
      × (r.0.s_tvalid ≡ false)
      × Moves (held s) m (held r.0) r.1 (chunks (suc (length pkt)) pkt 0)
unfolding push_packet
push_packet_lem pkt s m b v =
    let (r, e, v', moves) = push_from_lem (suc (length pkt)) pkt 0 s m b v (omega arith) in
    (
      (after_edge (idle r.0), r.1),
      ap end_case e ∙ ap (λ t. some (t, r.1)) (push_end r.0),
      IsFilling-idle r.0 v',
      refl,
      subst (λ q. Moves (held s) m (map (read_beat 8) q) r.1 (chunks (suc (length pkt)) pkt 0))
          (sym (contents-idle r.0 v'.live)) moves,
    )
