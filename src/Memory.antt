-- ===== src/Memory.antt =====
-- memory-plane/src: the queue of durable writes.
pub mod WriteQueue
mod Tests
