-- ===== src/Bench/Random/Passes.antt =====
-- The test of tb_random.cpp.
use Prim.{tt}
use fpga_network_processing.Base.{
  Bool, List, Option, [], ap, ap₂, arith, drop, false, if◌then◌else◌, length, none, refl, some, suc,
  true, zero, ℕ, ◌%◌, ◌&&◌, ◌++◌, ◌+◌, ◌<◌, ◌==◌, ◌∙◌, ◌∷◌, ◌≡◌,
}
use fpga_network_processing.Base.Bits.{bit_and_mask}
use fpga_network_processing.Generator.Carries.{AllBytes}
use fpga_network_processing.Generator.Build.{
  Packet, PacketGen, make_udp_packet, make_tcp_packet, make_arp_packet, draw_bytes,
}
use fpga_network_processing.Monitor.Scoreboard
use fpga_network_processing.Monitor.Scoreboard.{PacketMon, expect, push_beat}
use fpga_network_processing.Monitor.Verdict.{
  Beat, receive, receive_lem, packets, leftover, mismatches,
}
use fpga_network_processing.Monitor.Packets.{mismatches_self}
use fpga_network_processing.Pipeline.{Pipeline}
use fpga_network_processing.FlowTable.{Past}
use fpga_network_processing.Bench.FifoTest.{smac, dmac}
use fpga_network_processing.Bench.FifoDriver.Chunks.{packets-chunks}
use fpga_network_processing.Bench.PipelineDriver.{Bus}
use fpga_network_processing.Bench.PipelineDriver.Drain.{puts}
use fpga_network_processing.Bench.PipelineDriver.Session.{IsIdle, beats, push_and_drain_lem}
use fpga_network_processing.Bench.PipelineDriver.Deliver.{reset-IsIdle}
use fpga_network_processing.Bench.Stress.Passes.{IsLong, udp-IsLong, tcp-IsLong, arp-IsLong}
use fpga_network_processing.Bench.Random.{
  Env, Draws, reset, gen_pkt, drain_packet, run_packets, passes, run, new_env, main,
}

AllBytes-draw_bytes : (byte : ℕ → ℕ) (i n : ℕ) → AllBytes (draw_bytes byte i n)
AllBytes-draw_bytes byte i zero = tt
AllBytes-draw_bytes byte i (suc n) =
    (omega (arith, bit_and_mask 8 (byte i)), AllBytes-draw_bytes byte (i + 1) n)

gen_pkt-IsLong : (g : PacketGen) (d : Draws) → IsLong (gen_pkt g d).0
unfolding gen_pkt
gen_pkt-IsLong g d = by_type (d.type % 4 == 0) (d.type % 4 == 1) (d.type % 4 == 2)
  where
    payload : List ℕ
    payload = draw_bytes d.byte 0 d.len

    bytes : AllBytes payload
    bytes = AllBytes-draw_bytes d.byte 0 d.len

    by_type :
        (a b c : Bool)
        → IsLong
            (if a
              then make_udp_packet g smac dmac d.ip1 d.ip2 d.port1 d.port2 payload
              else if b
              then make_tcp_packet g smac dmac d.ip1 d.ip2 d.port1 d.port2 payload 0x02
              else if c
              then (make_arp_packet smac dmac d.ip1 d.ip2, g)
              else make_udp_packet g smac dmac d.ip1 d.ip2 d.port1 53 payload).0
    by_type true b c = udp-IsLong g d.ip1 d.ip2 d.port1 d.port2 payload bytes
    by_type false true c = tcp-IsLong g d.ip1 d.ip2 d.port1 d.port2 payload bytes
    by_type false false true = arp-IsLong d.ip1 d.ip2
    by_type false false false = udp-IsLong g d.ip1 d.ip2 d.port1 53 payload bytes

-- The monitor with nothing received in part, no error, and nothing pending.
record IsClean (m : PacketMon) : Type 0 where
  whole : m.rx_beats ≡ []
  clean : m.error_count ≡ 0
  settled : m.expected ≡ []

puts-receive : (bs : List Beat) (m : PacketMon) → puts push_beat bs m ≡ receive bs m
unfolding receive
puts-receive [] m = refl
puts-receive (b ∷ bs) m = puts-receive bs (push_beat b.0 b.1 m)

-- A packet that is expected, and comes.
IsClean-packet :
    (pkt : Packet) (m : PacketMon)
    → 0 < length pkt
    → IsClean m
    → IsClean (receive (beats pkt) (expect pkt m))
unfolding expect
IsClean-packet pkt m some_bytes v =
    let (one, none_left) = packets-chunks (suc (length pkt)) pkt 0 [] some_bytes (omega arith) in
    let m' = expect pkt m in
    let (_, errors, rest, part) = receive_lem (beats pkt) m' in
    let waiting : m'.expected ≡ pkt ∷ [] = ap (λ es. es ++ pkt ∷ []) v.settled in
    let came : packets m'.rx_beats (beats pkt) ≡ pkt ∷ [] =
      ap (λ start. packets start (beats pkt)) v.whole ∙ one in
    record {
      whole = part ∙ ap (λ start. leftover start (beats pkt)) v.whole ∙ none_left;
      clean =
          errors ∙ ap₂ ◌+◌ v.clean (ap₂ mismatches came waiting ∙ (mismatches_self (pkt ∷ [])).0);
      settled = rest ∙ ap₂ (λ rs es. drop (length rs) es) came waiting;
    }

record IsReady (e : Env) : Type 0 where
  idle : IsIdle e.sim
  clean : IsClean e.mon

abbrev drain_case : Option (Bus × PacketMon) → Option Env
drain_case o = elim o [
  | none ↦ none
  | some (s, m) ↦
      some (record { sim = record s { ports = record s.ports { m_tready = false } }; mon = m })
]

drain_packet_lem :
    (pkt : Packet) (e : Env)
    → IsLong pkt
    → IsReady e
    → (e' : Env) × (drain_packet (record e { mon = expect pkt e.mon }) pkt ≡ some e') × IsReady e'
unfolding drain_packet
drain_packet_lem pkt e long v =
    let (r, ran, (idle, got)) =
      push_and_drain_lem push_beat pkt e.sim (expect pkt e.mon) long.bytes v.idle long.long in
    let m = receive (beats pkt) (expect pkt e.mon) in
    let s = r.0 in
    (
      record { sim = record s { ports = record s.ports { m_tready = false } }; mon = m },
      ap drain_case
          (ran ∙ ap (λ m. some (s, m)) (got ∙ puts-receive (beats pkt) (expect pkt e.mon))),
      record {
        idle = record {
          tame = idle.tame;
          on = idle.on;
          lanes = idle.lanes;
          small = idle.small;
          empty = idle.empty;
        };
        clean = IsClean-packet pkt e.mon (omega (arith, long.long)) v.clean;
      },
    )

abbrev packets_case : List Draws → PacketGen → Option Env → Option Env
packets_case ds g o = elim o [ none ↦ none | some e ↦ run_packets ds g e ]

run_packets_lem :
    (ds : List Draws) (g : PacketGen) (e : Env)
    → IsReady e
    → (e' : Env) × (run_packets ds g e ≡ some e') × IsReady e'
unfolding run_packets
run_packets_lem [] g e v = (e, refl, v)
run_packets_lem (d ∷ ds) g e v =
    let (pkt, g') = gen_pkt g d in
    let (e1, ran, v1) = drain_packet_lem pkt e (gen_pkt-IsLong g d) v in
    let (e2, ran2, v2) = run_packets_lem ds g' e1 v1 in (e2, ap (packets_case ds g') ran ∙ ran2, v2)

passes_clean : (m : PacketMon) → IsClean m → passes m ≡ true
passes_clean m v = ap₂ (λ n es. n == 0 && length es == 0) v.clean v.settled

abbrev run_case : Option Env → Option ℕ
run_case o =
    let pass : Option Bool = elim o [ none ↦ none | some e ↦ some (passes e.mon) ] in
    elim pass [ none ↦ none | some pass ↦ some (if pass then 0 else 1) ]

-- Whatever is drawn, for any number of packets, and whatever the device's registers held before
-- its reset, the random testbench ends and returns 0.
pub random_passes : (d : Pipeline) (past : Past) (ds : List Draws) → main d past ds ≡ some 0
unfolding main run reset Scoreboard.reset
random_passes d past ds =
    let e = reset (new_env d past) in
    let (e', ran, v) =
      run_packets_lem ds (record { ip_id_counter = 0 }) e
        (record {
          idle = reset-IsIdle 7 d past;
          clean = record { whole = refl; clean = refl; settled = refl };
        }) in
    ap run_case ran ∙ ap (λ (c : Bool). some (if c then 0 else 1)) (passes_clean e'.mon v.clean)
