-- ===== src/Generator.antt =====
-- sim/packet_generators/packet_gen.h: the headers, the checksum and the packet builders of
-- `PacketGen`. A vector of bytes is a list. A header goes into a packet by `memcpy` of its struct,
-- on a little-endian host; the structs have no padding.
pub mod Checksum
pub mod Header
pub mod Carries
pub mod Build
pub mod Layout
pub mod Bytes
pub mod Random
mod Tests
