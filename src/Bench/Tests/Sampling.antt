-- ===== src/Bench/Tests/Sampling.antt =====
-- A run of the sampler: one window of two calls, and one to the end.
use golang_mq.Base.{ℕ, ◌≡◌, false, some, List, [], ◌∷◌, All, arith}
use golang_mq.Json.{codes}
use golang_mq.Bench.Csv.{goes, breaks, csv_columns, line_of}
use golang_mq.Bench.Csv.Sessions.{open_with}
use golang_mq.Bench.Stats.Ledger.{empty_log, stats_of}
use golang_mq.Bench.Stats.Refines.{IsNumbered}
use golang_mq.Bench.Stats.Runs.{publishes, delivers, IsPlaced, log_of, rows_along}
use golang_mq.Bench.Engine.Sampler.{Sampler, Turn, works, ticks, sample_all}
use golang_mq.Bench.Engine.Sampler.Windows.{
  last_start, IsCalm, events, written, sample_all-rows_along,
}
use golang_mq.Bench.Engine.Sampler.Faults.{IsWork, IsPartly, accepted, sample_all-IsPartly}
use golang_mq.Bench.Float.Hundredths.{hundredths}
use golang_mq.Bench.Tests.Measuring.{publisher_slot, consumer_slot}
use golang_mq.Bench.Tests.Working.{plain}

abbrev turns : List (Turn ℕ)
turns =
    works (publishes publisher_slot 1 200)
    ∷ works (delivers consumer_slot 1 500 false)
    ∷ ticks 1_000_000 (goes 7) (goes 0)
    ∷ works (publishes publisher_slot 2 200)
    ∷ []

abbrev header : List ℕ
header = codes (line_of csv_columns)

turns-IsCalm : All IsCalm turns
unfolding IsCalm
turns-IsCalm = (tt, (tt, (tt, (tt, tt))))

turns-IsPlaced : All (IsPlaced 2 1) (events 0 turns 1_500_000)
unfolding IsPlaced IsNumbered events
turns-IsPlaced =
    ((omega arith, omega arith), (omega arith, (tt, ((omega arith, omega arith), (tt, tt)))))

sample_all-rows_along_example :
    sample_all turns 1_500_000 (goes 0) (goes 0) (record {
      window_start = 0;
      stats = stats_of 2 1 2 empty_log;
      csv = open_with header [] 0;
      returned = false;
    })
    ≡ written header 0 1_000_000 (
        some (
          rows_along 2 1 2 (events 0 turns 1_500_000) empty_log,
          stats_of 2 1 2 (log_of (events 0 turns 1_500_000) empty_log),
        ))
unfolding last_start
sample_all-rows_along_example =
    sample_all-rows_along 2 1 2 turns 1_500_000 0 0 0 0 header empty_log turns-IsCalm turns-IsPlaced

-- The flush after the first row fails.
abbrev failing : List (Turn ℕ)
failing =
    works (publishes publisher_slot 1 200)
    ∷ ticks 1_000_000 (goes 7) (breaks 2 "disk full")
    ∷ works (delivers consumer_slot 1 500 false)
    ∷ ticks 2_000_000 (goes 0) (goes 0)
    ∷ []

failing-IsWork : All IsWork failing
unfolding IsWork
failing-IsWork = (tt, (tt, (tt, (tt, tt))))

failing-IsPlaced : All (IsPlaced 2 1) (events 0 failing 2_500_000)
unfolding IsPlaced IsNumbered events
failing-IsPlaced = ((omega arith, omega arith), (tt, (omega arith, (tt, (tt, tt)))))

sample_all-IsPartly_example :
    (end : Sampler ℕ) × (sample_all failing 2_500_000 (goes 0) (goes 0) (record {
      window_start = 0;
      stats = stats_of 2 1 2 empty_log;
      csv = open_with header [] 0;
      returned = false;
    })
      ≡ some end)
    × IsPartly 2 1 2 0 (rows_along 2 1 2 (events 0 failing 2_500_000) empty_log) header end
unfolding accepted
sample_all-IsPartly_example =
    sample_all-IsPartly 2 1 2 failing 2_500_000 0 0 (goes 0) (goes 0) header empty_log
      failing-IsWork failing-IsPlaced
