-- ===== src/Gpsd.antt =====
-- The receiver daemon in gpsd-3.16: its checksums, and the layer that finds words in a bit stream.
pub mod Lexer
pub mod Packet
pub mod Crc24q
pub mod Isgps
pub mod Rtcm2
pub mod Hex
pub mod Bits
mod Tests
