-- ===== src/Lib.antt =====
-- The FPGA network processing engine: a packet generator and a packet monitor in C++, circuits in
-- SystemVerilog, and testbenches in C++ that send the generator's packets through the circuits to the
-- monitor. Numbers are natural numbers, with the wrap-around of the machine's width written out; a
-- vector of bytes is a list.
--
-- Parts, with the code that each is about:
--   Base        shared names, Boolean tests, lists under native indices, laws of bitwise operations.
--   Generator   sim/packet_generators/packet_gen.h. Checksum is `ip_checksum`, Header the structs in
--               memory order, Build the builders by `resize` and `memcpy`; Layout says what they put
--               on the wire, Carries what the checksum is, Bytes and Random are about sizes and bytes.
--   Monitor     sim/packet_monitors/packet_mon.h. Scoreboard is `PacketMon` as a record with one
--               function for each method, Table and Crc the CRC; Verdict and Packets compare the
--               scoreboard with two lists of packets.
--   Crc         rtl/interfaces/crc32.sv. `posedge` is the always_ff block; Poly, Equivalence and Stream
--               relate it to the monitor's table-driven CRC.
--   Fifo        rtl/interfaces/axis_fifo.sv at depth 16. `posedge` is its always_ff blocks; Queue is
--               what the FIFO promises, Invariant, Refine and Trace that it keeps it.
--   RegisterIface  rtl/top/register_iface.sv, a write block and a read block.
--   Stage       rtl/interfaces/axis_register.sv, the register stage that every stage of the pipeline
--               repeats; Flow is what it keeps.
--   Meta        `packet_metadata_t` of rtl/common/npe_pkg.sv.
--   Ipv4Parser  rtl/parsers/ipv4_parser.sv over Stage; Fields is what it reads from a packet of
--               Generator.
--   Parsers     the other parsers of rtl/parsers over Stage: Ethernet, Vlan, and Transport for UDP and
--               TCP; Chain runs them one after the other on a packet of Generator.
--   MatchTable  rtl/classifiers/match_table.sv with the rules that it fixes; Rules compares its loop
--               with the first rule that matches.
--   Modifier    rtl/classifiers/packet_modifier.sv, with a function for each action;
--               Bytes, Tag and Parsed are about the bytes it writes and the VLAN tag.
--   FlowTable   rtl/memory/flow_table.sv; `update` is what a packet does to the row of its set. Found,
--               Lookup and Unique are about rows and their flows, Hash is the hash
--               without its loops, Placed is about the sets of the flows.
--   Stats       rtl/stats/stats_engine.sv over Stage; Count is what its counters say.
--   Pipeline    rtl/top/parser_pipeline.sv: the eight stages above in a row. Sight is what a testbench
--               reads of a beat, Tame what the stages keep, Balance and Order are about any edges,
--               Shift about edges at which the output is wanted, Reset about the registers after a
--               reset; Blank has test data.
--   Classifier  rtl/classifiers/packet_classifier.sv and rtl/filters/rule_engine.sv, register stages like
--               the parsers; Same compares them with the match table.
--   Scheduler   rtl/schedulers/packet_scheduler.sv, three queues of Fifo and an arbiter. Order is about
--               the entries of a queue, Arbiter about which queue is served, Priority about what strict
--               mode promises.
--   TokenBucket rtl/filters/token_bucket.sv; Bounds and Rate say what it lets through.
--   Bench       sim/testbenches. Words is the byte order of a wide port, FifoDriver and FifoTest are
--               tb_axis_fifo.cpp over Fifo, Clock the clocking that tb_axi_lite.cpp (AxiLite),
--               tb_rate_limiter.cpp (RateLimiter) and tb_crc.cpp (CrcTest) share. PipelineDriver is
--               the driver over Pipeline that tb_match_action.cpp (MatchAction), tb_flow.cpp (Flow),
--               tb_stress.cpp (Stress) and tb_random.cpp (Random) share; PipelineTest, which is
--               tb_pipeline.cpp, has one of its own. SchedulerTest is tb_scheduler.cpp over Scheduler:
--               Cases has its tests; Edges, Push, Fits and Drain are about the driver, Start and Hangs
--               about the tests. Perf is tb_perf.cpp: its `Sim` has the driver's bus and the count of
--               cycles. Push, Rounds, Preheat, Track and Latency are about its loops, Count about
--               differences of counts, Measure about one run; Report has `PerfResult` and `main`, with
--               a record `Double` of what the code does with a double; Runs, Alternate and Reported
--               are about `main`.
--
-- A circuit is a record of registers and a function `posedge` of its inputs; a port that depends on
-- registers alone is a function of them. A testbench's evaluation with the clock high is one edge.
-- A testbench has `Sim` as a record of the device, its input ports and the clock; the registers of a
-- new device may hold anything. A driver takes the packets of Generator into the device, and the beats
-- that leave to Monitor, or to a list of the bytes.
--
-- Loops on fuel: the carry loop of the checksum has fuel 3, and two rounds are enough; the loop that
-- waits for the FIFO to have room has 2, and one beat out makes room; the loop that waits for the
-- pipeline has 1, since it is ready while its output is wanted; the loop over a packet has one more
-- than its bytes, and each round takes one byte at least. A loop that runs out gives `none`.
-- The loop of tb_perf.cpp that reads to the end has 9, for the eight stages; the loop of
-- tb_scheduler.cpp that waits for room has any, an argument of each function around it.
-- `drain_all` has the 10000 rounds of the code, the pipeline's drain loops their 100000; 9 are enough.
--
-- What the flow table reads past its vectors is an input, `past`, the same at every edge of a
-- testbench.
--
-- Not modelled: what goes to the standard streams, so `print_result` of tb_perf.cpp as well; the random
-- engines, whose numbers are arguments; the command line of tb_random.cpp; the values of registers read
-- past the register file and past the action table of the rule engine, which are arguments; formal/,
-- scripts/, synth/ and waveforms/, which are a harness, scripts and data.
pub mod Base
pub mod Generator
pub mod Monitor
pub mod Crc
pub mod Fifo
pub mod Bench
pub mod Stage
pub mod RegisterIface
pub mod Meta
pub mod Stats
pub mod Parsers
pub mod MatchTable
pub mod Modifier
pub mod FlowTable
pub mod Pipeline
pub mod Classifier
pub mod Scheduler
pub mod Ipv4Parser
pub mod TokenBucket
