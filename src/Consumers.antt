-- ===== src/Consumers.antt =====
-- src/consumers: what happens to a delivery.
pub mod Sequential
pub mod Workers
pub mod Retry
pub mod Settling
pub mod Prefetch
pub mod Registry
pub mod Ordered
pub mod Parallel
