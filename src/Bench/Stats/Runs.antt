-- ===== src/Bench/Stats/Runs.antt =====
-- A run of the benchmark as its calls of stats of internal/bench/metrics.go: the record calls of the
-- workers, the boundary of the warmup and the samples, one after another in any order.
use golang_mq.Base.{ℕ, ◌<◌, ◌≡◌, refl, ap, Bool, Option, none, some, List, [], ◌∷◌, ◌++◌, All}
use golang_mq.Bench.Float.{Float}
use golang_mq.Bench.Topology.{ChannelSlot}
use golang_mq.Bench.Stats.{
  record_publish, record_deliver, record_ack, begin_measured, sample_window,
}
use golang_mq.Bench.Counters.{Stats, IntervalRecord, new_stats}
use golang_mq.Bench.Stats.Ledger.{
  publication, delivery, answer_to_ack, Log, empty_log, note, begin_log, sample_log, stats_of,
}
use golang_mq.Bench.Stats.Refines.{
  IsNumbered, record_publish-stats, record_deliver-stats, record_ack-stats, begin_measured-stats,
  sample_window-stats, new_stats-stats,
}

pub data Event (F : Type 0) : Type 0 where
  publishes : ChannelSlot → ℕ → F → Event F
  delivers : ChannelSlot → ℕ → F → Bool → Event F
  acks : ℕ → F → Event F
  begins_measured : ℕ → Event F
  samples : ℕ → ℕ → Event F

-- The slot of an event stands in the topology that the statistics were made for.
unfoldable pub IsPlaced : {F : Type 0} → ℕ → ℕ → Event F → Type 0
unfolding IsNumbered
IsPlaced conns capable (publishes sl seq v) =
    (sl.conn < conns) × IsNumbered capable sl.publish_cap_idx
IsPlaced conns capable (delivers sl seq v dup) = sl.conn < conns
IsPlaced conns capable (acks seq v) = Unit
IsPlaced conns capable (begins_measured seq) = Unit
IsPlaced conns capable (samples ts end) = Unit

-- One event on a log.
unfoldable pub log_event : {F : Type 0} → Event F → Log F → Log F
unfolding note begin_log sample_log
log_event (publishes sl seq v) l = note seq (publication sl) l
log_event (delivers sl seq v dup) l = note seq (delivery sl v dup) l
log_event (acks seq v) l = note seq (answer_to_ack v) l
log_event (begins_measured seq) l = begin_log seq l
log_event (samples ts end) l = sample_log l

unfoldable pub log_of : {F : Type 0} → List (Event F) → Log F → Log F
unfolding log_event
log_of [] l = l
log_of (e ∷ es) l = log_of es (log_event e l)

module _ {F : Type 0} ⦃f : Float F⦄ where
  unfoldable pub no_row : Option (Stats F) → Option (List (IntervalRecord F) × Stats F)
  no_row none = none
  no_row (some s) = some ([], s)

  -- One event: the rows that it makes, and the statistics after it.
  unfoldable pub step : Event F → Stats F → Option (List (IntervalRecord F) × Stats F)
  unfolding no_row record_publish record_deliver record_ack begin_measured sample_window
  step (publishes sl seq v) s = no_row (record_publish sl seq v s)
  step (delivers sl seq v dup) s = no_row (record_deliver sl seq v dup s)
  step (acks seq v) s = some ([], record_ack seq v s)
  step (begins_measured seq) s = some ([], begin_measured seq s)
  step (samples ts end) s = let r = sample_window ts end s in some (r.0 ∷ [], r.1)

  -- The rows of the events that follow an event, after those of the event.
  unfoldable pub after_rows :
      List (IntervalRecord F)
      → Option (List (IntervalRecord F) × Stats F)
      → Option (List (IntervalRecord F) × Stats F)
  after_rows rows none = none
  after_rows rows (some r) = some (rows ++ r.0, r.1)

  unfoldable pub run : List (Event F) → Stats F → Option (List (IntervalRecord F) × Stats F)
  unfolding step after_rows
  run [] s = some ([], s)
  run (e ∷ es) s = elim (step e s) [ none ↦ none | some r ↦ after_rows r.0 (run es r.1) ]

  -- The row of the window that an event ends.
  unfoldable pub rows_of : ℕ → ℕ → ℕ → Event F → Log F → List (IntervalRecord F)
  unfolding sample_window stats_of
  rows_of conns capable total (samples ts end) l =
      (sample_window ts end (stats_of conns capable total l)).0 ∷ []
  rows_of conns capable total (publishes sl seq v) l = []
  rows_of conns capable total (delivers sl seq v dup) l = []
  rows_of conns capable total (acks seq v) l = []
  rows_of conns capable total (begins_measured seq) l = []

  module _ (conns capable total : ℕ) where
    -- The rows of all windows that a run ends.
    unfoldable pub rows_along : List (Event F) → Log F → List (IntervalRecord F)
    unfolding rows_of log_event
    rows_along [] l = []
    rows_along (e ∷ es) l = rows_of conns capable total e l ++ rows_along es (log_event e l)

    pub step-stats :
        (e : Event F) (l : Log F)
        → IsPlaced conns capable e
        → step e (stats_of conns capable total l)
          ≡ some (rows_of conns capable total e l, stats_of conns capable total (log_event e l))
    unfolding step no_row IsPlaced log_event rows_of
    step-stats (publishes sl seq v) l placed =
        rw (record_publish-stats conns capable total sl seq v l placed.0 placed.1) refl
    step-stats (delivers sl seq v dup) l placed =
        rw (record_deliver-stats conns capable total sl seq v dup l placed) refl
    step-stats (acks seq v) l placed = rw (record_ack-stats conns capable total seq v l) refl
    step-stats (begins_measured seq) l placed =
        rw (begin_measured-stats conns capable total seq l) refl
    step-stats (samples ts end) l placed =
        ap (λ s. some ((sample_window ts end (stats_of conns capable total l)).0 ∷ [], s))
          (sample_window-stats conns capable total ts end l)

    pub run-stats :
        (es : List (Event F)) (l : Log F)
        → All (IsPlaced conns capable) es
        → run es (stats_of conns capable total l)
          ≡ some (rows_along es l, stats_of conns capable total (log_of es l))
    unfolding run after_rows log_of rows_along
    run-stats [] l placed = refl
    run-stats (e ∷ es) l placed =
        rw (step-stats e l placed.0, run, run-stats es (log_event e l) placed.1) refl

    -- A run of record calls, boundaries of the warmup and samples, in any order, whose slots stand
    -- in the topology, does not panic, and leaves in every counter, latency set and row of the
    -- statistics what a log of the recorded entries says of it: the entries since the last
    -- boundary above its cutoff, those since the last sample, and all. Each row that a sample
    -- makes is that of the log at the time.
    pub run-new_stats :
        (es : List (Event F))
        → All (IsPlaced conns capable) es
        → run es (new_stats conns capable total)
          ≡ some (rows_along es empty_log, stats_of conns capable total (log_of es empty_log))
    run-new_stats es placed =
        rw (new_stats-stats conns capable total) (run-stats es empty_log placed)
