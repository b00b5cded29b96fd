-- ===== src/Bench/Engine.antt =====
-- internal/bench/engine.go: the summary of a run, how a run opens and closes its clients, and the drain.
pub mod Summary
pub mod Planned
pub mod Sampler
pub mod Sums
pub mod Clients
pub mod Closing
pub mod Drain
