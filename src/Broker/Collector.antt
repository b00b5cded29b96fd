-- ===== src/Broker/Collector.antt =====
-- The state collector of broker/metrics.go: the gauges that a scrape reads off the server.
pub mod Totals
use golang_mq.Base.{ℕ, String, List, [], ◌∷◌, ◌++◌, length}
use golang_mq.Base.Int.{ℤ}
use golang_mq.Base.Map.{values}
use golang_mq.Broker.Range.{Range}
use golang_mq.Broker.State.{Server, Consumer}

-- A metric with its labels and its value.
pub data Gauge : Type 0 where
  connections queues exchanges : ℕ → Gauge
  queue_messages queue_consumers : String → ℕ → Gauge
  consumer_inflight : String → String → ℤ → Gauge

-- The loop over the consumers of a queue.
unfoldable pub collect_consumers : String → (ℕ → Consumer) → List ℕ → List Gauge
collect_consumers name f [] = []
collect_consumers name f (k ∷ ks) =
    consumer_inflight name (f k).tag (f k).inflight ∷ collect_consumers name f ks

module _ (range : Range) where
  unfoldable pub collect_queue : Server → ℕ → List Gauge
  unfolding collect_consumers
  collect_queue s i =
      let q = s.queue i in
      queue_messages q.name (length q.messages)
      ∷ queue_consumers q.name (length q.consumers)
      ∷ collect_consumers q.name s.consumer (range.visit _ q.consumers)

  -- The loop over the queues.
  unfoldable pub collect_queues : Server → List ℕ → List Gauge
  unfolding collect_queue
  collect_queues s [] = []
  collect_queues s (i ∷ is) = collect_queue s i ++ collect_queues s is

  unfoldable pub collect : Server → List Gauge
  unfolding collect_queues
  collect s =
      connections (length s.connections)
      ∷ queues (length s.broker.queues)
      ∷ exchanges (length s.broker.exchanges)
      ∷ collect_queues s (values (range.visit _ s.broker.queues))
