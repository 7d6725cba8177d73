-- ===== src/Bridge/Commands.antt =====
-- src/xbox/bridge/gdb_bridge.cpp: the handlers of the commands of GDB, and `HandlePacket`.
pub mod Memory
pub mod Threads
pub mod RegisterAccess
pub mod Breakpoints
pub mod Queries
pub mod Features
pub mod VCont
pub mod Dispatch
pub mod Notifications
