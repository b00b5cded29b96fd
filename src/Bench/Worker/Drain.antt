-- ===== src/Bench/Worker/Drain.antt =====
-- When the drain of an acking run may end: drained of internal/bench/metrics.go, as Run of
-- internal/bench/engine.go polls it.
use golang_mq.Base.{ℕ, ◌^◌, ◌≤◌, ◌<◌, ◌≡◌, true, arith}
use golang_mq.Bench.Float.{Float}
use golang_mq.Bench.Stats.{drained}
use golang_mq.Bench.Counters.{Stats}
use golang_mq.Bench.Worker.{Shared, seen_at}
use golang_mq.Bench.Worker.Flags.{all_seen}
use golang_mq.Bench.Worker.Tally.{Reach-IsTallied, Reach-consumed}
use golang_mq.Bench.Worker.Runs.{Reach}

module _ {F : Type 0} ⦃f : Float F⦄ where
  drained-enough : (s : Stats F) → drained true s ≡ true → s.all_published ≤ s.all_consumed
  unfolding drained
  drained-enough s h = ground arith

  -- If the budget is below 2^63, and the workers have come to a state in which each sequence
  -- number that was given out is recorded as published, and an acking run counts as drained, then
  -- every message whose number was given out has been received by a consumer.
  pub drained-seen_at :
      (conns capable total : ℕ) {s : Shared F}
      → total < 2 ^ 63
      → Reach conns capable total s
      → s.stats.all_published ≡ s.seq_gen
      → drained true s.stats ≡ true
      → (g : ℕ) → g < s.seq_gen
      → seen_at g s.seen ≡ true
  drained-seen_at conns capable total {s} bound r recorded done g given =
      let (l, h) = Reach-IsTallied conns capable total bound r in
      let consumed = (Reach-consumed conns capable total bound r).0 in
      let enough = drained-enough s.stats done in
      all_seen s.seq_gen s.seen h.unseen (omega (arith, consumed, recorded, enough)) g given
