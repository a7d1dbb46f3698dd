-- ===== src/Connection.antt =====
-- src/connection: the connection and its channels.
pub mod Machine
pub mod Channels
