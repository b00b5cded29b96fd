-- ===== src/Bench/Worker/Runs.antt =====
-- The workers of a run in any order: each step is one of the parts of an iteration of a worker of
-- internal/bench/worker.go, or a call of the engine on the statistics.
use golang_mq.Base.{ℕ, suc, ◌^◌, ◌<◌, ◌≡◌, Bool, false, some, List, [], length}
use golang_mq.Base.Int.{ℤ, pos}
use golang_mq.Bench.Float.{Float}
use golang_mq.Bench.Topology.{ChannelSlot}
use golang_mq.Bench.Stats.{begin_measured, sample_window}
use golang_mq.Bench.Counters.{repeat, new_stats}
use golang_mq.Bench.Stats.Refines.{IsNumbered}
use golang_mq.Bench.Worker.{
  Shared, PublishWorker, Turn, Arrival, mint, finish_publish, receive, acknowledge,
}

module _ {F : Type 0} ⦃f : Float F⦄ (conns capable total : ℕ) where
  -- Before the workers start: `total` is the budget.
  unfoldable pub new_shared : Shared F
  unfolding repeat new_stats
  new_shared = record {
    seq_gen = 0;
    sent_times = repeat total (pos 0);
    seen = repeat total false;
    stats = new_stats conns capable total;
    sent = [];
  }

  -- The mint may fail, and so may Publish and Ack. A delivery is of a message whose number was given
  -- out within the budget. Fewer than 2^63 numbers are given out.
  pub data Step (s : Shared F) : Shared F → Type 0 where
    mints : (now : ℤ) (body : List ℕ) → suc s.seq_gen < 2 ^ 63 → Step s (mint now body s).1
    finishes :
        (w : PublishWorker) (t : Turn F) (seq : ℕ) (body : List ℕ)
        → w.slot.conn < conns
        → IsNumbered capable w.slot.publish_cap_idx
        → Step s (finish_publish w t seq body s).1
    receives :
        (sl : ChannelSlot) (g : ℕ) (recv : ℤ) {s' : Shared F}
        → sl.conn < conns
        → g < s.seq_gen
        → g < length s.sent_times
        → receive sl (suc g) recv s ≡ some s'
        → Step s s'
    acknowledges : (ack : Bool) (seq : ℕ) (a : Arrival F) → Step s (acknowledge ack seq a s).1
    begins_measured : Step s (record s { stats = begin_measured s.seq_gen s.stats })
    samples : (ts end : ℕ) → Step s (record s { stats = (sample_window ts end s.stats).1 })

  -- What the workers can come to.
  pub data Reach : Shared F → Type 0 where
    starts : Reach new_shared
    goes : {s s' : Shared F} → Reach s → Step s s' → Reach s'
