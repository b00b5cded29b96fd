-- ===== src/Bench.antt =====
-- internal/bench: the benchmark, as far as it plans and validates a run.
pub mod Config
pub mod Placement
pub mod Topology
pub mod Validation
pub mod Tests
pub mod Header
pub mod Float
pub mod Latency
pub mod Counters
pub mod Stats
pub mod Worker
pub mod Csv
pub mod Engine
