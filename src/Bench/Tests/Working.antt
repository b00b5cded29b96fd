-- ===== src/Bench/Tests/Working.antt =====
-- The workers, the CSV and the clients of a short run.
use golang_mq.Base.{
  ℕ, ◌+◌, ◌^◌, ◌≤◌, ◌<◌, ◌≡◌, refl, true, false, Option, none, some, List, [], ◌∷◌, ◌++◌, inl, inr,
  arith, ltb, nat_beq, if◌then◌else◌,
}
use golang_mq.Base.Int.{ℤ, pos, below}
use golang_mq.Bench.Config.{Config, default_config}
use golang_mq.Bench.Float.Hundredths.{hundredths}
use golang_mq.Bench.Header.{put_bytes, drop_bytes, to_u64}
use golang_mq.Bench.Stats.{record_publish, record_deliver, record_ack, drained, sample_window}
use golang_mq.Bench.Counters.{IntervalRecord, repeat}
use golang_mq.Bench.Stats.Ledger.{delivery, empty_log, Log, note, stats_of}
use golang_mq.Bench.Stats.Refines.{IsNumbered, new_stats-stats}
use golang_mq.Bench.Worker.{
  Shared, PublishWorker, ConsumeWorker, Turn, Arrival, fine, panics, mint, finish_publish,
  publish_run, receive, acknowledge, consume_once, index_of, seen_at,
}
use golang_mq.Bench.Worker.Publishing.{IsServed, IsAdvanced, publish_run-IsAdvanced}
use golang_mq.Bench.Worker.Receiving.{since, mint-consume_once}
use golang_mq.Bench.Worker.Flags.{count_true}
use golang_mq.Bench.Worker.Tally.{Reach-consumed}
use golang_mq.Bench.Worker.Runs.{
  new_shared, Reach, starts, goes, mints, finishes, receives, acknowledges,
}
use golang_mq.Bench.Worker.Drain.{drained-seen_at}
use golang_mq.Json.{codes}
use golang_mq.Bench.Csv.{Format, Io, goes, breaks, CsvWriter, csv_columns, line_of, new_csv_writer}
use golang_mq.Bench.Csv.Sessions.{
  Call, writes, flushes, session, answers, IsWritten, session-IsWritten,
}
use golang_mq.Bench.Engine.Clients.{
  Sdk, Course, timer_fired, client, csv_file, acquires, releases, run_benchmark,
}
use golang_mq.Bench.Engine.Closing.{acquired, released, run_benchmark-balance}
use golang_mq.Bench.Engine.Drain.{Poll, DrainEnd, drain_loop, EndsAt, GoesOn, drain_loop-EndsAt}
use golang_mq.Bench.Tests.Measuring.{publisher_slot, consumer_slot}

-- Two connections and a budget of two messages.
abbrev fresh : Shared ℕ
fresh = new_shared 2 1 2

abbrev publisher : PublishWorker
publisher = record { slot = publisher_slot; exchange = "e"; routing_key = "k"; size = 16; msgs = 2 }

abbrev consumer : ConsumeWorker
consumer = record { slot = consumer_slot; ack = false }

abbrev quiet_turn : ℕ → Turn ℕ
quiet_turn i = record { stopped = false; now = pos (5 + i); publish_error = none; took_us = 100 }

quiet_turn-IsServed : IsServed quiet_turn
quiet_turn-IsServed = record { goes_on = λ i. refl; taken = λ i. refl }

publish_run-IsAdvanced_example :
    (end : Shared ℕ) × (end_log : Log ℕ) × (publish_run publisher quiet_turn fresh ≡ (fine tt, end))
    × IsAdvanced 2 1 2 2 fresh empty_log end end_log
unfolding new_shared repeat IsNumbered
publish_run-IsAdvanced_example =
    publish_run-IsAdvanced 2 1 2 publisher quiet_turn fresh empty_log (omega arith) (omega arith)
      quiet_turn-IsServed (omega arith) (omega arith) (omega arith) (new_stats-stats 2 1 2)

-- The body of the first message, which is sent at 5.
abbrev first_body : List ℕ
first_body = put_bytes 8 1 ++ (put_bytes 8 5 ++ [])

abbrev minted : Shared ℕ
minted = (mint (pos 5) (repeat 16 0) fresh).1

first_minted : mint (pos 5) (repeat 16 0) fresh ≡ (fine first_body, minted)
unfolding mint new_shared repeat put_bytes to_u64 drop_bytes
first_minted = refl

abbrev arrival : ℤ → Arrival ℕ
arrival t = record { body = first_body; recv_nanos = t; ack_error = none; took_us = 100 }

mint-consume_once_example :
    (first : Shared ℕ) × (last : Shared ℕ) × (consume_once consumer (arrival (pos 9)) minted
      ≡ (fine tt, first))
    × (consume_once consumer (arrival (pos 12)) first ≡ (fine tt, last))
    × (last.stats
        ≡ stats_of 2 1 2 (
            note 1
              (delivery consumer_slot (since 2 1 2 5 (pos 12)) true)
              (note 1 (delivery consumer_slot (since 2 1 2 5 (pos 9)) false) empty_log)))
unfolding new_shared repeat seen_at
mint-consume_once_example =
    mint-consume_once 2 1 2 (repeat 16 0) first_body 5 fresh minted empty_log consumer consumer
      (arrival (pos 9)) (arrival (pos 12)) (omega arith) refl (omega arith) refl
      (new_stats-stats 2 1 2) (omega arith) (omega arith) (omega arith) first_minted (omega arith)
      (omega arith) refl refl refl refl

-- The first message is sent, delivered and acknowledged.
abbrev sent : Shared ℕ
sent = (finish_publish publisher (quiet_turn 0) 1 first_body minted).1

abbrev or_else : Shared ℕ → Option (Shared ℕ) → Shared ℕ
or_else s none = s
or_else s (some r) = r

abbrev delivered : Shared ℕ
delivered = or_else sent (receive consumer_slot 1 (pos 9) sent)

abbrev acknowledged : Shared ℕ
acknowledged = (acknowledge true 1 (arrival (pos 9)) delivered).1

receive_sent : receive consumer_slot 1 (pos 9) sent ≡ some delivered
unfolding receive finish_publish record_deliver record_publish mint new_shared repeat
receive_sent = refl

acknowledged-Reach : Reach 2 1 2 acknowledged
unfolding IsNumbered new_shared mint finish_publish record_publish
acknowledged-Reach =
    goes
      (goes
        (goes (goes starts (mints (pos 5) (repeat 16 0) (omega arith)))
          (finishes publisher (quiet_turn 0) 1 first_body (omega arith) (omega arith)))
        (receives consumer_slot 0 (pos 9) (omega arith) (omega arith) (omega arith) receive_sent))
      (acknowledges true 1 (arrival (pos 9)))

Reach-consumed_example :
    (acknowledged.stats.all_consumed ≡ count_true acknowledged.seen)
    × (acknowledged.stats.all_consumed ≤ 2)
Reach-consumed_example = Reach-consumed 2 1 2 (omega arith) acknowledged-Reach

acknowledged_drained : drained true acknowledged.stats ≡ true
unfolding drained acknowledge receive finish_publish record_deliver record_publish record_ack mint
    new_shared repeat
acknowledged_drained = refl

acknowledged_recorded : acknowledged.stats.all_published ≡ acknowledged.seq_gen
unfolding acknowledge receive finish_publish record_deliver record_publish record_ack mint
    new_shared repeat
acknowledged_recorded = refl

one_given : 0 < acknowledged.seq_gen
unfolding acknowledge receive finish_publish record_deliver record_publish record_ack mint
    new_shared repeat
one_given = omega arith

drained-seen_at_example : seen_at 0 acknowledged.seen ≡ true
drained-seen_at_example =
    drained-seen_at 2 1 2 (omega arith) acknowledged-Reach acknowledged_recorded
      acknowledged_drained 0 one_given

-- A number above 2^63 is a negative index, on which the code panics; 2^63 itself is one above the range.
large_number_panics : (index_of (2 ^ 63 + 1) 2 ≡ panics) × (index_of (2 ^ 63) 2 ≡ fine none)
unfolding index_of
large_number_panics = (refl, refl)

-- Numbers that are not printed.
instance abbrev pub plain : Format ℕ
plain = record { fixed = λ digits x. "x"; rfc3339 = λ t. "t" }

abbrev row : IntervalRecord ℕ
row = (sample_window 0 1_000_000 acknowledged.stats).0

-- The destination has no room for the second row, of which it takes five characters.
abbrev calls : List (Call ℕ × Io)
calls =
    (writes row, goes 0)
    ∷ (flushes, goes 0)
    ∷ (writes row, goes 2)
    ∷ (flushes, breaks 3 "disk full")
    ∷ (flushes, goes 0)
    ∷ []

session-IsWritten_example :
    (c : CsvWriter) × (end : CsvWriter) × (new_csv_writer (goes 0) (goes 0) ≡ some (inr c))
    × (session calls c ≡ some (answers calls, end))
    × IsWritten calls (codes (line_of csv_columns)) [] 0 end
session-IsWritten_example = session-IsWritten 0 0 calls

-- The second connection is refused.
abbrev refusing : Sdk
refusing = record {
  connect = λ k. if nat_beq k 2 then some "refused" else none;
  open_channel = λ k j. none;
  declare_exchange = none;
  declare_queue = none;
  bind_queue = none;
  consume = λ k. none;
}

abbrev course : Course ℕ
course = record {
  create = none;
  header = goes 0;
  header_flush = goes 0;
  allocates = λ n. true;
  wake = timer_fired;
  cutoff = 0;
  interrupted = false;
  worker_errors = [];
  csv_close = none;
  file_close = none;
  stats = acknowledged.stats;
}

abbrev two_connections : Config
two_connections = record default_config { conns = pos 2; channels = pos 2 }

two_connections_refused :
    (run_benchmark refusing course "r" two_connections).1
    ≡ acquires (client 0) ∷ releases (client 0) ∷ acquires (client 1) ∷ releases (client 1) ∷ []
unfolding run_benchmark default_config below
two_connections_refused = refl

-- Every connection is accepted, and the CSV is a file.
abbrev accepting : Sdk
accepting = record refusing { connect = λ k. none }

run_benchmark-balance_example :
    acquired csv_file (run_benchmark accepting course "r" two_connections).1
    ≡ released csv_file (run_benchmark accepting course "r" two_connections).1
run_benchmark-balance_example =
    run_benchmark-balance accepting course "r" two_connections csv_file (inl refl)

-- A poll that never sees the run drained; the deadline passes at the third.
abbrev polls : ℕ → Poll ℕ
polls i = record { stats = sent.stats; before_deadline = ltb i 2; context_done = false }

drain_loop-EndsAt_example :
    (k : ℕ) × (end : DrainEnd) × (k ≤ 2)
    × (drain_loop true polls 0 3 ≡ some end)
    × EndsAt true (polls k) end
    × ((j : ℕ) → j < k → GoesOn true (polls j))
drain_loop-EndsAt_example = drain_loop-EndsAt true polls 2 refl
