-- ===== src/Gdb.antt =====
-- The GDB remote protocol: src/gdb.
pub mod Packet
pub mod Transport
mod Tests
