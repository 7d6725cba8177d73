-- ===== src/Net.antt =====
-- src/net: the connection that the transports are built on.
pub mod Connection
mod Tests
