-- ===== src/Types.antt =====
-- The records of src/rdcp/types that several components share.
pub mod ThreadContext
pub mod MemoryRegion
mod Tests
