-- ===== src/Bench/PipelineTest.antt =====
-- sim/testbenches/tb_pipeline.cpp. What goes to the terminal is left out.
pub mod Capture
pub mod Passes
mod Tests
use fpga_network_processing.Base.{
  Bool, List, [], false, if◌then◌else◌, length, ltb, suc, true, zero, ℕ, ◌&&◌, ◌+◌, ◌∷◌,
}
use fpga_network_processing.Generator.Build.{
  Packet, PacketGen, make_udp_packet, make_tcp_packet, make_arp_packet,
}
use fpga_network_processing.Pipeline.{Pipeline, m_beat}
use fpga_network_processing.FlowTable.{Past}
use fpga_network_processing.Bench.Clock.{pre, tick, ticks, drive}
use fpga_network_processing.Bench.FifoTest.{smac, dmac}
use fpga_network_processing.Bench.FifoDriver.{chunk_size}
use fpga_network_processing.Bench.PipelineDriver.{
  Bus, edge, reset, new_sim, with_chunk, to_drain, is_shown, capture, put_beat, append_bytes,
  same_size, drain_timeout,
}

-- `while (pos < pkt.size())`, on fuel: the packet's length is enough.
unfoldable pub push_only : ℕ → ℕ → List ℕ → ℕ → Bus → List ℕ → Bus × List ℕ
unfolding capture edge
push_only zero dw pkt pos s out = (s, out)
push_only (suc fuel) dw pkt pos s out = elim (ltb pos (length pkt)) [
  | false ↦ (s, out)
  | true ↦
      push_only fuel dw pkt (pos + chunk_size dw pkt pos) (drive edge (with_chunk dw pkt pos) s)
        (capture append_bytes dw (pre edge s) out)
]

-- `while (timeout--)`, to the end of a packet; the last beat stays at the input.
unfoldable pub read_packet : ℕ → ℕ → Bus → List ℕ → Bus × List ℕ
unfolding edge
read_packet zero dw s out = (s, out)
read_packet (suc timeout) dw s out =
    let low = pre edge s in
    let high = tick edge s in
    let out' = put_beat append_bytes dw low out in
    elim (is_shown low) [
      | true ↦ elim (m_beat low.dut).tlast [
        | true ↦ (high, out')
        | false ↦ read_packet timeout dw high out'
      ]
      | false ↦ read_packet timeout dw high out
    ]

unfoldable pub push_and_capture : Bus → List ℕ → List ℕ → ℕ → Bus × List ℕ
unfolding push_only read_packet edge
push_and_capture s pkt out dw =
    let (s1, out1) = push_only (suc (length pkt)) dw pkt 0 (to_drain s) out in
    let (s2, out2) = read_packet drain_timeout dw s1 out1 in (ticks edge 8 s2, out2)

unfoldable pub push_one : Bus → List ℕ → ℕ → Bus × List ℕ
push_one s pkt dw = push_and_capture s pkt [] dw

-- `Sim sim; sim.reset();`
unfoldable pub start : Pipeline → Past → Bus
start d past = reset 4 (new_sim d past)

-- A packet through a new device: what every test does.
unfoldable pub goes_through : Pipeline → Past → Packet → Bool
unfolding start push_one
goes_through d past pkt = same_size (push_one (start d past) pkt 8).1 pkt

abbrev pub src_ip : ℕ
src_ip = 0xc0a80001

abbrev pub dst_ip : ℕ
dst_ip = 0xc0a80002

abbrev pub new_gen : PacketGen
new_gen = record { ip_id_counter = 0 }

abbrev pub udp : PacketGen → ℕ → ℕ → List ℕ → Packet × PacketGen
udp g sport dport payload = make_udp_packet g smac dmac src_ip dst_ip sport dport payload

-- The flags are those of the default argument.
abbrev pub tcp : PacketGen → ℕ → ℕ → List ℕ → Packet × PacketGen
tcp g sport dport payload = make_tcp_packet g smac dmac src_ip dst_ip sport dport payload 0x02

abbrev pub arp : Packet
arp = make_arp_packet smac dmac src_ip dst_ip

-- "Hi", "data", "DNS" and "HTTP".
unfoldable pub test_udp : Pipeline → Past → Bool
unfolding goes_through
test_udp d past = goes_through d past (udp new_gen 1234 80 (72 ∷ 105 ∷ [])).0

unfoldable pub test_tcp : Pipeline → Past → Bool
unfolding goes_through
test_tcp d past = goes_through d past (tcp new_gen 4321 443 (100 ∷ 97 ∷ 116 ∷ 97 ∷ [])).0

unfoldable pub test_arp : Pipeline → Past → Bool
unfolding goes_through
test_arp d past = goes_through d past arp

unfoldable pub test_dns : Pipeline → Past → Bool
unfolding goes_through
test_dns d past = goes_through d past (udp new_gen 1234 53 (68 ∷ 78 ∷ 83 ∷ [])).0

unfoldable pub test_http : Pipeline → Past → Bool
unfolding goes_through
test_http d past = goes_through d past (tcp new_gen 55555 80 (72 ∷ 84 ∷ 84 ∷ 80 ∷ [])).0

unfoldable pub test_multi : Pipeline → Pipeline → Pipeline → Past → Bool
unfolding goes_through
test_multi du dt da past =
    let (u, g) = udp new_gen 53 1234 (68 ∷ 78 ∷ 83 ∷ []) in
    let (t, g') = tcp g 80 55555 (72 ∷ 84 ∷ 84 ∷ 80 ∷ []) in
    goes_through du past u && goes_through dt past t && goes_through da past arp

-- The exit code; the device of each test, whose registers may hold anything, is given.
unfoldable pub main : (ℕ → Pipeline) → Past → ℕ
unfolding test_udp test_tcp test_arp test_dns test_http test_multi
main d past =
    let all =
      test_tcp (d 0) past
      && test_udp (d 1) past
      && test_arp (d 2) past
      && test_dns (d 3) past
      && test_http (d 4) past
      && test_multi (d 5) (d 6) (d 7) past in
    if all then 0 else 1
