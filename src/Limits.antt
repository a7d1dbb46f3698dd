-- ===== src/Limits.antt =====
-- The rate limiter of src/resilience: the strategies, and the limiter that runs one of them.
pub mod Request
pub mod TokenBucket
pub mod FixedWindow
pub mod WindowLog
pub mod Limiter
