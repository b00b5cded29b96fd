-- ===== src/Bench/Engine/Planned.antt =====
-- The statistics and the summary of a run on the slots that Build laid out: Build of
-- internal/bench/topology.go, and newStats and buildSummary as Run of internal/bench/engine.go calls
-- them.
use golang_mq.Base.{ℕ, ◌≡◌, Option, none, some, string_eq}
use golang_mq.Bench.Config.{Config}
use golang_mq.Bench.Float.{Float}
use golang_mq.Bench.Counters.{Stats}
use golang_mq.Bench.Stats.Runs.{Event, publishes, delivers, acks, begins_measured, samples}
use golang_mq.Bench.Topology.{Topology}
use golang_mq.Bench.Engine.Summary.{Summary, slot_at}

-- The slot of an event is one of the topology.
unfoldable pub IsOn : {F : Type 0} → Topology → Event F → Type 0
IsOn t (publishes sl seq v) = (i : ℕ) × (slot_at i t.slots ≡ some sl)
IsOn t (delivers sl seq v dup) = (i : ℕ) × (slot_at i t.slots ≡ some sl)
IsOn t (acks seq v) = Unit
IsOn t (begins_measured seq) = Unit
IsOn t (samples ts end) = Unit

get : {A : Type 0} → A → Option A → A
get d none = d
get d (some a) = a
