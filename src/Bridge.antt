-- ===== src/Bridge.antt =====
-- src/xbox/bridge: how the registers of a thread are shown to the debugger, and the commands of
-- GDB.
pub mod Interface
pub mod State
pub mod Numbers
pub mod Commands
pub mod Registers
pub mod Serialize
mod ConcreteBoost
mod Tests
