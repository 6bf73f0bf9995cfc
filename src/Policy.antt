-- ===== src/Policy.antt =====
-- policy-plane/src/service.ts
pub mod Breaker
pub mod Cache
pub mod Service
mod Tests
