-- ===== src/Messaging.antt =====
-- src/messaging: what is published.
pub mod Batch
pub mod Codec
pub mod Rpc
pub mod Publisher
pub mod Routable
pub mod Responder
pub mod Topology
