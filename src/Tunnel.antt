-- ===== src/Tunnel.antt =====
-- The tunnel programs tapudp.c, tunudp.c and br_select.c: the system calls they share, then one
-- module for each program, and the theorems about two of them joined by a network.
pub mod Kernel
pub mod Frames
pub mod CString
pub mod TunAlloc
pub mod Setup
pub mod Tap
pub mod Tun
pub mod Bridge
mod Tests
