-- ===== src/Broker.antt =====
-- The package broker.
pub mod Writes
pub mod State
pub mod Range
pub mod Queues
pub mod Invariant
pub mod Core
pub mod Channels
pub mod Connections
pub mod Handshake
pub mod Collector
pub mod Runs
pub mod Tests
pub mod Exchanges
pub mod Consumers
