-- ===== src/Shared.antt =====
-- packages/shared/src: what the services share.
pub mod Audit
pub mod Budget
pub mod FeatureFlags
pub mod Jwt
pub mod Namespaces
pub mod Quotas
pub mod RateLimiter
pub mod Semaphore
mod Tests
