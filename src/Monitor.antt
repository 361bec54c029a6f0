-- ===== src/Monitor.antt =====
-- sim/packet_monitors/packet_mon.h.
pub mod Table
pub mod Crc
pub mod Scoreboard
pub mod Verdict
pub mod Packets
mod Tests
