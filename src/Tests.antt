-- ===== src/Tests.antt =====
-- Runs of the models at concrete inputs.
mod Limits
mod Connection
mod Consumers
mod Workers
mod Channels
mod Manager
mod Messaging
mod Facade
mod Registry
mod Publishing
mod Ordered
mod Parallel
