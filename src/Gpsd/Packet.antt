-- ===== src/Gpsd/Packet.antt =====
-- gpsd-3.16/packet.c: the packet sniffer.
pub mod State
pub mod Nmea
pub mod Binary
pub mod Framed
pub mod Json
pub mod Ground
pub mod Sums
pub mod Stuffed
pub mod Parse
pub mod Moves
pub mod Rounds
pub mod Frame
mod Tests
