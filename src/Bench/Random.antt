-- ===== src/Bench/Random.antt =====
-- sim/testbenches/tb_random.cpp: `Env`. What the random engines give is an argument; the code does
-- not fix the order in which the arguments of a builder are drawn. What goes to the terminal is
-- left out.
pub mod Passes
mod Tests
use fpga_network_processing.Base.{
  Bool, List, Option, [], false, if◌then◌else◌, none, some, ℕ, ◌%◌, ◌&&◌, ◌==◌, ◌∷◌,
}
use fpga_network_processing.Generator.Header.{Mac}
use fpga_network_processing.Generator.Build.{
  Packet, PacketGen, make_udp_packet, make_tcp_packet, make_arp_packet, draw_bytes,
}
use fpga_network_processing.Monitor.Scoreboard.{PacketMon, expect, pending, push_beat}
use fpga_network_processing.Monitor.Scoreboard
use fpga_network_processing.Pipeline.{Pipeline}
use fpga_network_processing.FlowTable.{Past}
use fpga_network_processing.Bench.FifoTest.{smac, dmac}
use fpga_network_processing.Bench.PipelineDriver
use fpga_network_processing.Bench.PipelineDriver.{Bus, new_sim, push_and_drain}

pub record Env : Type 0 where
  pub sim : Bus
  pub mon : PacketMon

-- What is drawn for a packet.
pub record Draws : Type 0 where
  pub type : ℕ
  pub len : ℕ
  pub byte : ℕ → ℕ
  pub ip1 : ℕ
  pub ip2 : ℕ
  pub port1 : ℕ
  pub port2 : ℕ

unfoldable pub reset : Env → Env
reset e = record { sim = PipelineDriver.reset 8 e.sim; mon = Scoreboard.reset e.mon }

unfoldable pub gen_pkt : PacketGen → Draws → Packet × PacketGen
gen_pkt g d =
    let payload = draw_bytes d.byte 0 d.len in
    if d.type % 4 == 0
    then make_udp_packet g smac dmac d.ip1 d.ip2 d.port1 d.port2 payload
    else if d.type % 4 == 1
    then make_tcp_packet g smac dmac d.ip1 d.ip2 d.port1 d.port2 payload 0x02
    else if d.type % 4 == 2
    then (make_arp_packet smac dmac d.ip1 d.ip2, g)
    else make_udp_packet g smac dmac d.ip1 d.ip2 d.port1 53 payload

-- `Env::push_and_drain`: the beats go to the monitor, and then the output is not wanted.
unfoldable pub drain_packet : Env → Packet → Option Env
drain_packet e pkt = elim (push_and_drain push_beat e.sim e.mon pkt 8) [
  | none ↦ none
  | some (s, m) ↦
      some (record { sim = record s { ports = record s.ports { m_tready = false } }; mon = m })
]

-- `for (i < num_packets)`, over what is drawn for each.
unfoldable pub run_packets : List Draws → PacketGen → Env → Option Env
run_packets [] g e = some e
run_packets (d ∷ ds) g e =
    let (pkt, g') = gen_pkt g d in
    elim (drain_packet (record e { mon = expect pkt e.mon }) pkt) [
      | none ↦ none
      | some e' ↦ run_packets ds g' e'
    ]

abbrev pub passes : PacketMon → Bool
passes m = m.error_count == 0 && pending m == 0

unfoldable pub run : List Draws → Env → Option Bool
unfolding run_packets
run ds e = elim (run_packets ds (record { ip_id_counter = 0 }) e) [
  | none ↦ none
  | some e' ↦ some (passes e'.mon)
]

-- `Env env;`
abbrev pub new_env : Pipeline → Past → Env
new_env d past = record {
  sim = new_sim d past;
  mon = record { rx_beats = []; rx_bytes = []; expected = []; pkt_count = 0; error_count = 0 };
}

-- The exit code of `main`.
unfoldable pub main : Pipeline → Past → List Draws → Option ℕ
unfolding reset run
main d past ds = elim (run ds (reset (new_env d past))) [
  | none ↦ none
  | some pass ↦ some (if pass then 0 else 1)
]
