-- ===== src/Packet.antt =====
-- libpcapcapture/packet.cpp and packet.h: the decoder of captured frames and its statistics.
pub mod Fields
pub mod Checksum
pub mod Stat
pub mod Report
pub mod Decode
pub mod Sums
pub mod Accepts
pub mod Results
pub mod Layout
pub mod Print
pub mod Lines
pub mod Examples
