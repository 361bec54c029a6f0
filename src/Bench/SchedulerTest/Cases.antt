-- ===== src/Bench/SchedulerTest/Cases.antt =====
-- The tests of tb_scheduler.cpp, and its `main`.
use fpga_network_processing.Base.{
  Bool, Option, [], if◌then◌else◌, length, none, some, suc, zero, ℕ, ◌%◌, ◌&&◌, ◌+◌, ◌==◌, ◌∷◌,
}
use fpga_network_processing.Generator.Build.{Packet, PacketGen, make_udp_packet, make_tcp_packet}
use fpga_network_processing.Scheduler.{Scheduler}
use fpga_network_processing.Bench.FifoTest.{smac, dmac}
use fpga_network_processing.Bench.FifoDriver.{AxisBeat}
use fpga_network_processing.Bench.SchedulerTest.{Bus, push_packet, drain_one, drain_all, start}

abbrev pub udp : PacketGen → ℕ → ℕ → ℕ → Packet × PacketGen
udp g sport dport byte = make_udp_packet g smac dmac 0xc0a80001 0xc0a80002 sport dport (byte ∷ [])

-- The flags are those of the default argument.
abbrev pub tcp : PacketGen → ℕ → ℕ → ℕ → Packet × PacketGen
tcp g sport dport byte =
    make_tcp_packet g smac dmac 0xc0a80001 0xc0a80002 sport dport (byte ∷ []) 0x02

abbrev pub new_gen : PacketGen
new_gen = record { ip_id_counter = 0 }

-- Three packets read, one after the other: do they have these sizes?
abbrev pub three_sizes : Bus → ℕ → ℕ → ℕ → Bool
three_sizes s a b c =
    let (s1, r1) = drain_one s 8 in
    let (s2, r2) = drain_one s1 8 in
    let (s3, r3) = drain_one s2 8 in length r1 == a && length r2 == b && length r3 == c

-- "L", "M" and "H".
unfoldable pub test_strict_priority : ℕ → Scheduler AxisBeat → Option Bool
unfolding push_packet start drain_one
test_strict_priority wait d =
    let (low, g) = udp new_gen 53 1234 76 in
    let (med, g') = tcp g 80 55555 77 in
    let (high, g'') = tcp g' 443 55555 72 in
    elim (push_packet wait (start d) low 8 0) [
      | none ↦ none
      | some s1 ↦ elim (push_packet wait s1 med 8 2) [
        | none ↦ none
        | some s2 ↦ elim (push_packet wait s2 high 8 3) [
          | none ↦ none
          | some s3 ↦ some (three_sizes s3 (length high) (length med) (length low))
        ]
      ]
    ]

-- "T".
unfoldable pub test_wrr_order : ℕ → Scheduler AxisBeat → Option Bool
unfolding push_packet start drain_one
test_wrr_order wait d =
    let pkt = (udp new_gen 53 1234 84).0 in
    elim (push_packet wait (start d) pkt 8 1) [
      | none ↦ none
      | some s ↦ some (length (drain_one s 8).1 == length pkt)
    ]

-- Packet `i` of the third test: "A", "B" and "C".
abbrev pub lettered : ℕ → PacketGen → Packet × PacketGen
lettered i g = udp g (100 + i) (200 + i) (65 + i)

-- The first loop, `left` rounds of it.
unfoldable pub push_each : ℕ → ℕ → ℕ → PacketGen → Bus → Option (Bus × PacketGen)
unfolding push_packet
push_each wait zero i g s = some (s, g)
push_each wait (suc left) i g s =
    let (p, g') = lettered i g in
    elim (push_packet wait s p 8 (i % 3)) [
      | none ↦ none
      | some s' ↦ push_each wait left (i + 1) g' s'
    ]

-- The second loop: the sum of the sizes.
unfoldable pub sizes : ℕ → ℕ → PacketGen → ℕ
sizes zero i g = 0
sizes (suc left) i g = let (p, g') = lettered i g in length p + sizes left (i + 1) g'

unfoldable pub test_multi_queue : ℕ → Scheduler AxisBeat → Option Bool
unfolding push_each start drain_all sizes
test_multi_queue wait d = elim (push_each wait 3 0 new_gen (start d)) [
  | none ↦ none
  | some (s, g) ↦ some (length (drain_all s 8 []).1 == sizes 3 0 g)
]

-- The exit code; each test has a new device, whose registers may hold anything.
unfoldable pub main : ℕ → Scheduler AxisBeat → Scheduler AxisBeat → Scheduler AxisBeat → Option ℕ
unfolding test_strict_priority test_wrr_order test_multi_queue
main wait d1 d2 d3 = elim (test_strict_priority wait d1) [
  | none ↦ none
  | some a ↦ elim (test_wrr_order wait d2) [
    | none ↦ none
    | some b ↦ elim (test_multi_queue wait d3) [
      | none ↦ none
      | some c ↦ some (if a && b && c then 0 else 1)
    ]
  ]
]
