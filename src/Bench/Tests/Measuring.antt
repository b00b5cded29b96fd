-- ===== src/Bench/Tests/Measuring.antt =====
-- The statistics and the summary of a short run, in hundredths.
use golang_mq.Base.{ℕ, ◌+◌, ◌≡◌, refl, true, false, none, some, List, [], ◌∷◌, String, All, arith}
use golang_mq.Base.Int.{ℤ, pos}
use golang_mq.Bench.Config.{Config, default_config}
use golang_mq.Bench.Float.Hundredths.{hundredths, hundredths-IsIeee}
use golang_mq.Bench.Latency.{percentile, sorted_samples, summary}
use golang_mq.Bench.Latency.Summaries.{gather, IsOrdered, summary-IsOrdered}
use golang_mq.Bench.Topology.{ChannelSlot, Topology, publish, consume, publish_only, consume_only}
use golang_mq.Bench.Stats.{begin_measured}
use golang_mq.Bench.Counters.{Stats, IntervalRecord, new_stats}
use golang_mq.Bench.Stats.Ledger.{empty_log, wrap, stats_of}
use golang_mq.Bench.Stats.Refines.{IsNumbered}
use golang_mq.Bench.Stats.Runs.{
  Event, publishes, delivers, acks, samples, IsPlaced, log_of, run, rows_along, run-new_stats,
}
use golang_mq.Bench.Stats.Windows.{
  of_consumed, IsUnbroken, sum_rows, in_window, in_total, windows-totals,
}
use golang_mq.Bench.Stats.Balance.{IsBalanced, run-IsBalanced}
use golang_mq.Bench.Engine.Summary.{Summary}

summary-IsOrdered_example : IsOrdered {F = ℕ} (summary (gather (500 ∷ 300 ∷ 900 ∷ [])))
summary-IsOrdered_example =
    summary-IsOrdered hundredths-IsIeee 500 (300 ∷ 900 ∷ []) (refl, (refl, (refl, tt)))
      (omega arith)

-- The median of five samples.
median : percentile {F = ℕ} (sorted_samples (500 ∷ 300 ∷ 900 ∷ 100 ∷ 700 ∷ [])) 50_00 ≡ 500
unfolding percentile sorted_samples
median = refl

abbrev pub publisher_slot : ChannelSlot
publisher_slot = record {
  conn = 0;
  ch = 0;
  global_index = 0;
  role = publish;
  pub_goroutines = 0 ∷ [];
  cons_goroutines = [];
  publish_cap_idx = some 0;
}

abbrev pub consumer_slot : ChannelSlot
consumer_slot = record {
  conn = 1;
  ch = 0;
  global_index = 1;
  role = consume;
  pub_goroutines = [];
  cons_goroutines = 0 ∷ [];
  publish_cap_idx = none;
}

-- Two messages, the second one delivered twice.
abbrev short_run : List (Event ℕ)
short_run =
    publishes publisher_slot 1 200
    ∷ delivers consumer_slot 1 500 false
    ∷ acks 1 100
    ∷ samples 0 1_000_000
    ∷ publishes publisher_slot 2 200
    ∷ delivers consumer_slot 2 700 false
    ∷ delivers consumer_slot 2 900 true
    ∷ []

short_run-IsPlaced : All (IsPlaced 2 1) short_run
unfolding IsPlaced IsNumbered
short_run-IsPlaced = (
  (omega arith, omega arith),
  (omega arith, (tt, (tt, ((omega arith, omega arith), (omega arith, (omega arith, tt)))))),
)

short_run-IsUnbroken : All IsUnbroken short_run
unfolding IsUnbroken
short_run-IsUnbroken = (tt, (tt, (tt, (tt, (tt, (tt, (tt, tt)))))))

run-new_stats_example :
    run short_run (new_stats 2 1 2)
    ≡ some (rows_along 2 1 2 short_run empty_log, stats_of 2 1 2 (log_of short_run empty_log))
run-new_stats_example = run-new_stats 2 1 2 short_run short_run-IsPlaced

windows-totals_example :
    (warm : List (IntervalRecord ℕ) × Stats ℕ) × (end : List (IntervalRecord ℕ) × Stats ℕ) × (run
        short_run
        (new_stats 2 1 2)
      ≡ some warm)
    × (run short_run (begin_measured 0 warm.1) ≡ some end)
    × (in_total of_consumed end.1 ≡ wrap (sum_rows of_consumed end.0 + in_window of_consumed end.1))
windows-totals_example =
    windows-totals 2 1 2 of_consumed 0 short_run short_run short_run-IsPlaced short_run-IsPlaced
      short_run-IsUnbroken

run-IsBalanced_example :
    (end : List (IntervalRecord ℕ) × Stats ℕ) × (run short_run (new_stats 2 1 2) ≡ some end)
    × IsBalanced end.1
run-IsBalanced_example = run-IsBalanced 2 1 2 short_run short_run-IsPlaced

abbrev two_slots : Topology
two_slots = record {
  conn_roles = publish_only ∷ consume_only ∷ [];
  conn_channels = (0 ∷ []) ∷ (1 ∷ []) ∷ [];
  slots = publisher_slot ∷ consumer_slot ∷ [];
  publish_capable = 0 ∷ [];
  consume_capable = 1 ∷ [];
}

abbrev no_duration : ℤ → String
no_duration z = "0s"

-- A connection for a publisher and one for a consumer.
abbrev apart : Config
apart = record default_config {
  conns = pos 2;
  pub_conns = pos 1;
  cons_conns = pos 1;
  channels = pos 2;
  publishers = pos 1;
  consumers = pos 1;
}
