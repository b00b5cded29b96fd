-- ===== src/Bench/Stats/Windows.antt =====
-- The rows of the CSV against the totals: sampleWindow and totals of internal/bench/metrics.go.
use golang_mq.Base.{
  ℕ, ◌+◌, ◌≡◌, refl, Bool, some, List, [], ◌∷◌, ◌++◌, All, inl, inr, leb, Bool-cases, arith,
}
use golang_mq.Bench.Float.{Float}
use golang_mq.Bench.Stats.{sample_window, begin_measured}
use golang_mq.Bench.Counters.{Stats, IntervalRecord, new_stats}
use golang_mq.Bench.Stats.Ledger.{
  Entry, publication, delivery, answer_to_ack, Log, count, wrap, empty_log, note, begin_log,
  sample_log, stats_of, is_publication, is_delivery, is_duplicate, is_consumption,
}
use golang_mq.Bench.Stats.Refines.{begin_measured-stats}
use golang_mq.Bench.Stats.Runs.{
  Event, publishes, delivers, acks, begins_measured, samples, IsPlaced, log_event, log_of, run,
  rows_of, rows_along, run-stats, run-new_stats,
}

-- The counters that a row shows.
pub data Counter : Type 0 where
  of_published of_delivered of_consumed of_duplicates : Counter

-- The run stays in one phase.
unfoldable pub IsUnbroken : {F : Type 0} → Event F → Type 0
IsUnbroken (publishes sl seq v) = Unit
IsUnbroken (delivers sl seq v dup) = Unit
IsUnbroken (acks seq v) = Unit
IsUnbroken (samples ts end) = Unit
IsUnbroken (begins_measured seq) = ⊥

module _ {F : Type 0} where
  unfoldable pub in_row : Counter → IntervalRecord F → ℕ
  in_row of_published r = r.published
  in_row of_delivered r = r.delivered
  in_row of_consumed r = r.consumed
  in_row of_duplicates r = r.duplicates

  unfoldable pub in_window : Counter → Stats F → ℕ
  in_window of_published s = s.pub_w
  in_window of_delivered s = s.del_w
  in_window of_consumed s = s.cons_w
  in_window of_duplicates s = s.dup_w

  unfoldable pub in_total : Counter → Stats F → ℕ
  in_total of_published s = s.published
  in_total of_delivered s = s.delivered
  in_total of_consumed s = s.consumed
  in_total of_duplicates s = s.duplicates

  unfoldable pub sum_rows : Counter → List (IntervalRecord F) → ℕ
  unfolding in_row
  sum_rows c [] = 0
  sum_rows c (r ∷ rs) = in_row c r + sum_rows c rs

  test : Counter → Entry F → Bool
  test of_published = is_publication
  test of_delivered = is_delivery
  test of_consumed = is_consumption
  test of_duplicates = is_duplicate

  sum_rows-append :
      (c : Counter) (rs ts : List (IntervalRecord F))
      → sum_rows c (rs ++ ts) ≡ sum_rows c rs + sum_rows c ts
  unfolding sum_rows
  sum_rows-append c [] ts = omega arith
  sum_rows-append c (r ∷ rs) ts = omega (arith, sum_rows-append c rs ts)

module _ {F : Type 0} ⦃f : Float F⦄ where
  module _ (conns capable total : ℕ) where
    window-stats :
        (c : Counter) (l : Log F)
        → in_window c (stats_of conns capable total l) ≡ wrap (count (test c) l.window)
    unfolding in_window stats_of test
    window-stats of_published l = refl
    window-stats of_delivered l = refl
    window-stats of_consumed l = refl
    window-stats of_duplicates l = refl

    total-stats :
        (c : Counter) (l : Log F)
        → in_total c (stats_of conns capable total l) ≡ wrap (count (test c) l.measured)
    unfolding in_total stats_of test
    total-stats of_published l = refl
    total-stats of_delivered l = refl
    total-stats of_consumed l = refl
    total-stats of_duplicates l = refl

    row-window :
        (c : Counter) (ts end : ℕ) (s : Stats F)
        → in_row c (sample_window ts end s).0 ≡ in_window c s
    unfolding in_row in_window sample_window
    row-window of_published ts end s = refl
    row-window of_delivered ts end s = refl
    row-window of_consumed ts end s = refl
    row-window of_duplicates ts end s = refl

    note-both :
        (c : Counter) (seq : ℕ) (e : Entry F) (l : Log F)
        → count (test c) (note seq e l).measured + count (test c) l.window
          ≡ count (test c) l.measured + count (test c) (note seq e l).window
    unfolding note count
    note-both c seq e l = elim (Bool-cases (leb seq l.cutoff)) [
      | inl small ↦ rw small refl
      | inr large ↦ rw large (elim (Bool-cases (test c e)) [
        | inl hit ↦ rw hit (omega arith)
        | inr miss ↦ rw miss refl
      ])
    ]

    -- Of one event: what the total gains is what the row and the window gain.
    event-window :
        (c : Counter) (e : Event F) (l : Log F)
        → IsUnbroken e
        → wrap (
            count (test c) l.measured
            + sum_rows c (rows_of conns capable total e l)
            + count (test c) (log_event e l).window)
          ≡ wrap (count (test c) (log_event e l).measured + count (test c) l.window)
    unfolding log_event rows_of sum_rows IsUnbroken sample_log count
    event-window c (publishes sl seq v) l h = omega (arith, note-both c seq (publication sl) l)
    event-window c (delivers sl seq v dup) l h =
        omega (arith, note-both c seq (delivery sl v dup) l)
    event-window c (acks seq v) l h = omega (arith, note-both c seq (answer_to_ack v) l)
    event-window c (samples ts end) l h =
        rw (row-window c ts end (stats_of conns capable total l), window-stats c l) (omega arith)
    event-window c (begins_measured seq) l h = absurd h

    run-window :
        (c : Counter) (es : List (Event F)) (l : Log F)
        → All IsUnbroken es
        → wrap (
            count (test c) l.measured
            + sum_rows c (rows_along conns capable total es l)
            + count (test c) (log_of es l).window)
          ≡ wrap (count (test c) (log_of es l).measured + count (test c) l.window)
    unfolding log_of rows_along sum_rows
    run-window c [] l h = omega arith
    run-window c (e ∷ es) l h =
        let now = event-window c e l h.0 in
        let later = run-window c es (log_event e l) h.1 in
        rw
          (sum_rows-append c (rows_of conns capable total e l)
            (rows_along conns capable total es (log_event e l)))
          (omega (arith, now, later))

    -- In a measured phase after any warmup, all on slots of the topology, the published,
    -- delivered, consumed or duplicate messages of all rows that were sampled, with those of the
    -- open window, add up to the total of the phase modulo 2^64: no sample loses a message or
    -- counts it twice.
    pub windows-totals :
        (c : Counter) (seq : ℕ) (warmup measured : List (Event F))
        → All (IsPlaced conns capable) warmup
        → All (IsPlaced conns capable) measured
        → All IsUnbroken measured
        → (warm : List (IntervalRecord F) × Stats F) × (end : List (IntervalRecord F) × Stats F)
          × (run warmup (new_stats conns capable total) ≡ some warm)
          × (run measured (begin_measured seq warm.1) ≡ some end)
          × (in_total c end.1 ≡ wrap (sum_rows c end.0 + in_window c end.1))
    unfolding begin_log count
    windows-totals c seq warmup measured placed_warmup placed unbroken =
        let l = log_of warmup empty_log in
        let fresh = begin_log seq l in
        let last = log_of measured fresh in
        (
          (rows_along conns capable total warmup empty_log, stats_of conns capable total l),
          (rows_along conns capable total measured fresh, stats_of conns capable total last),
          run-new_stats conns capable total warmup placed_warmup,
          rw (begin_measured-stats conns capable total seq l)
              (run-stats conns capable total measured fresh placed),
          rw (total-stats c last, window-stats c last)
              (omega (arith, run-window c measured fresh unbroken)),
        )
