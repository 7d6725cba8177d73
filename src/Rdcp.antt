-- ===== src/Rdcp.antt =====
-- src/rdcp: the requests to the debug monitor and its replies.
pub mod Response
pub mod Request
pub mod Requests
pub mod MapResponse
pub mod Transport
mod Tests
