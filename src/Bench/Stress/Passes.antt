-- ===== src/Bench/Stress/Passes.antt =====
-- The tests of tb_stress.cpp.
use Prim.{tt}
use fpga_network_processing.Base.Bits.{bit_and_mask}
use fpga_network_processing.Base.{
  Bool, List, Option, ap, ap₂, arith, bit_and, false, if◌then◌else◌, length, none, refl, replicate,
  some, suc, true, zero, ℕ, ◌%◌, ◌+◌, ◌<◌, ◌==◌, ◌^◌, ◌∙◌, ◌≡◌,
}
use fpga_network_processing.Generator.Header.{mac_bytes}
use fpga_network_processing.Generator.Carries.{AllBytes}
use fpga_network_processing.Generator.Build.{
  PacketGen, make_udp_packet, make_tcp_packet, make_arp_packet,
}
use fpga_network_processing.Generator.Bytes.{
  AllBytes-make_udp_packet, AllBytes-make_tcp_packet, AllBytes-make_arp_packet,
}
use fpga_network_processing.Pipeline.{Pipeline}
use fpga_network_processing.FlowTable.{Past}
use fpga_network_processing.Bench.FifoTest.{smac, dmac}
use fpga_network_processing.Bench.PipelineDriver.{Bus, same_size}
use fpga_network_processing.Bench.PipelineDriver.Session.{IsIdle}
use fpga_network_processing.Bench.PipelineDriver.Deliver.{reset-IsIdle, push_and_capture_lem}
use fpga_network_processing.Bench.Stress.{
  Maker, Round, start, filled, small_udp, mixed, jumbo, batched, push_each, batches, round,
  exit_code, main,
}

-- Packets of bytes that keep the eight stages busy.
pub record IsLong (pkt : List ℕ) : Type 0 where
  pub bytes : AllBytes pkt
  pub long : 40 < length pkt

pub AllBytes-replicate : (n b : ℕ) → b < 256 → AllBytes (replicate n b)
AllBytes-replicate zero b h = tt
AllBytes-replicate (suc n) b h = (h, AllBytes-replicate n b h)

AllBytes-filled : (n i : ℕ) → AllBytes (filled n i)
AllBytes-filled n i = AllBytes-replicate n (bit_and i 0xff) (omega (arith, bit_and_mask 8 i))

same_size_self : (pkt : List ℕ) → same_size pkt pkt ≡ true
same_size_self pkt = ground arith

abbrev each_case : Maker → ℕ → ℕ → Round → List ℕ → PacketGen → Option (Bus × List ℕ) → Option Round
each_case make left i r pkt gen o = elim o [
  | none ↦ none
  | some (sim, rx) ↦
      push_each make left (suc i)
        (record { gen = gen; sim = sim; fail = if same_size rx pkt then r.fail else r.fail + 1 })
]

-- A loop over long packets ends without a failure.
pub push_each_lem :
    (make : Maker) (left i : ℕ) (r : Round)
    → ((j : ℕ) (g : PacketGen) → IsLong (make j g).0)
    → IsIdle r.sim
    → (r' : Round) × (push_each make left i r ≡ some r') × (r'.fail ≡ r.fail) × IsIdle r'.sim
unfolding push_each
push_each_lem make zero i r long v = (r, refl, refl, v)
push_each_lem make (suc left) i r long v =
    let (pkt, gen) = make i r.gen in
    let ok = long i r.gen in
    let (sim, e, v') = push_and_capture_lem pkt r.sim ok.bytes v ok.long in
    let next : Round = record { gen = gen; sim = sim; fail = r.fail } in
    let (r', e', same, v'') = push_each_lem make left (suc i) next long v' in
    (
      r',
      ap (each_case make left i r pkt gen) e
          ∙ ap
              (λ (c : Bool).
                push_each make left (suc i)
                  (record { gen = gen; sim = sim; fail = if c then r.fail else r.fail + 1 }))
              (same_size_self pkt)
          ∙ e',
      same,
      v'',
    )

pub smac_bytes : AllBytes (mac_bytes smac)
smac_bytes = omega arith

pub dmac_bytes : AllBytes (mac_bytes dmac)
dmac_bytes = omega arith

pub udp-IsLong :
    (g : PacketGen) (src dst sport dport : ℕ) (payload : List ℕ)
    → AllBytes payload
    → IsLong (make_udp_packet g smac dmac src dst sport dport payload).0
udp-IsLong g src dst sport dport payload h =
    let (b, size) =
      AllBytes-make_udp_packet g smac dmac src dst sport dport payload smac_bytes dmac_bytes h in
    record { bytes = b; long = omega (arith, size) }

pub tcp-IsLong :
    (g : PacketGen) (src dst sport dport : ℕ) (payload : List ℕ)
    → AllBytes payload
    → IsLong (make_tcp_packet g smac dmac src dst sport dport payload 0x02).0
tcp-IsLong g src dst sport dport payload h =
    let (b, size) =
      AllBytes-make_tcp_packet g smac dmac src dst sport dport payload 0x02 smac_bytes dmac_bytes h
        (omega arith) in
    record { bytes = b; long = omega (arith, size) }

pub arp-IsLong : (sender target : ℕ) → IsLong (make_arp_packet smac dmac sender target)
arp-IsLong sender target =
    let (b, size) = AllBytes-make_arp_packet smac dmac sender target smac_bytes dmac_bytes in
    record { bytes = b; long = omega (arith, size) }

mixed-IsLong : (i : ℕ) (g : PacketGen) → IsLong (mixed i g).0
unfolding mixed
mixed-IsLong i g = by_kind (i % 3 == 0) (i % 3 == 1)
  where
    by_kind :
        (c d : Bool)
        → IsLong
            (if c
              then make_tcp_packet g smac dmac 0xc0a80001 0xc0a80002 80 55555 (filled 30 i) 0x02
              else if d
              then (make_arp_packet smac dmac 0xc0a80001 0xc0a80002, g)
              else make_udp_packet g smac dmac 0xc0a80001 0xc0a80002 53 1234 (filled 15 i)).0
    by_kind true d =
        tcp-IsLong g 0xc0a80001 0xc0a80002 80 55555 (filled 30 i) (AllBytes-filled 30 i)
    by_kind false true = arp-IsLong 0xc0a80001 0xc0a80002
    by_kind false false =
        udp-IsLong g 0xc0a80001 0xc0a80002 53 1234 (filled 15 i) (AllBytes-filled 15 i)

small_udp-IsLong : (i : ℕ) (g : PacketGen) → IsLong (small_udp i g).0
unfolding small_udp
small_udp-IsLong i g =
    udp-IsLong g 0xc0a80001 0xc0a80002 ((100 + i) % 2 ^ 16) ((200 + i) % 2 ^ 16) (filled 20 i)
      (AllBytes-filled 20 i)

jumbo-IsLong : (i : ℕ) (g : PacketGen) → IsLong (jumbo i g).0
unfolding jumbo
jumbo-IsLong i g =
    udp-IsLong g 0xc0a80001 0xc0a80002 ((100 + i) % 2 ^ 16) ((200 + i) % 2 ^ 16) (filled 1450 i)
      (AllBytes-filled 1450 i)

batched-IsLong : (i : ℕ) (g : PacketGen) → IsLong (batched i g).0
unfolding batched
batched-IsLong i g =
    tcp-IsLong g 0xc0a80001 0xc0a80002 80 55555 (filled 30 i) (AllBytes-filled 30 i)

abbrev batch_case : ℕ → Option Round → Option Round
batch_case left o = elim o [ none ↦ none | some r ↦ batches left r ]

batches_lem :
    (left : ℕ) (r : Round)
    → IsIdle r.sim
    → (r' : Round) × (batches left r ≡ some r') × (r'.fail ≡ r.fail)
unfolding batches
batches_lem zero r v = (r, refl, refl)
batches_lem (suc left) r v =
    let (r1, e1, same1, v1) = push_each_lem batched 5 0 r batched-IsLong v in
    let (r2, e2, same2) = batches_lem left r1 v1 in
    (r2, ap (batch_case left) e1 ∙ e2, same2 ∙ same1)

abbrev last_case : Round → Round → Round → Option Round → Option ℕ
last_case r1 r2 r3 o = elim o [
  | none ↦ none
  | some r4 ↦ some (exit_code r1.fail r2.fail r3.fail r4.fail)
]

module _ (d3 d4 : Pipeline) (past : Past) where
  abbrev jumbo_case : Round → Round → Option Round → Option ℕ
  jumbo_case r1 r2 o = elim o [
    | none ↦ none
    | some r3 ↦ last_case r1 r2 r3 (batches 10 (round r3.gen d4 past))
  ]

  abbrev mixed_case : Round → Option Round → Option ℕ
  mixed_case r1 o = elim o [
    | none ↦ none
    | some r2 ↦ jumbo_case r1 r2 (push_each jumbo 50 0 (round r2.gen d3 past))
  ]

-- Whatever the registers of the four devices held before their resets, the stress testbench ends
-- and returns 0: of its 400 packets each comes out with the size it went in with.
pub stress_passes : (d1 d2 d3 d4 : Pipeline) (past : Past) → main d1 d2 d3 d4 past ≡ some 0
unfolding main start
stress_passes d1 d2 d3 d4 past =
    let g : PacketGen = record { ip_id_counter = 0 } in
    let idle = λ (d : Pipeline). reset-IsIdle 7 d past in
    let (r1, e1, f1, _) =
      push_each_lem small_udp 200 0 (round g d1 past) small_udp-IsLong (idle d1) in
    let (r2, e2, f2, _) = push_each_lem mixed 100 0 (round r1.gen d2 past) mixed-IsLong (idle d2) in
    let (r3, e3, f3, _) = push_each_lem jumbo 50 0 (round r2.gen d3 past) jumbo-IsLong (idle d3) in
    let (r4, e4, f4) = batches_lem 10 (round r3.gen d4 past) (idle d4) in
    ap
      (λ (o : Option Round). elim o [
        | none ↦ none
        | some r1 ↦ mixed_case d3 d4 past r1 (push_each mixed 100 0 (round r1.gen d2 past))
      ])
      e1
    ∙ ap (mixed_case d3 d4 past r1) e2
    ∙ ap (jumbo_case d3 d4 past r1 r2) e3
    ∙ ap (last_case r1 r2 r3) e4
    ∙ ap some (ap₂ (λ a b. exit_code a b r3.fail r4.fail) f1 f2 ∙ ap₂ (exit_code 0 0) f3 f4)
