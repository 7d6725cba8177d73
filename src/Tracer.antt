-- ===== src/Tracer.antt =====
-- src/tracer: the pixels of captured frames.
pub mod Image
mod Tests
