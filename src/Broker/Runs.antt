-- ===== src/Broker/Runs.antt =====
-- The runs of the server: the goroutines of connections and of queues, one step after another, in
-- any order. broker/server.go, broker/connection.go and dispatchLoop of broker/queue.go.
pub mod Bounds
use golang_mq.Base.{ℕ, ◌≡◌, true, false, some, [], nat_eq}
use golang_mq.Base.Map.{member, lookup}
use golang_mq.Protocol.{Envelope}
use golang_mq.Broker.Range.{Range}
use golang_mq.Broker.State.{Server, await_protocol_header}
use golang_mq.Broker.Consumers.{new_consumer}
use golang_mq.Broker.Exchanges.{new_exchange}
use golang_mq.Broker.Queues.{Delivery, new_queue, take, finish}
use golang_mq.Broker.Queues.Delivers.{IsFresh}
use golang_mq.Broker.Connections.{connect, handle, disconnect}

-- NewServer and NewBroker: no name and no connection is known. What stands at the addresses that have
-- not been given out is never read.
unfoldable pub new_server : Server
unfolding new_queue new_consumer new_exchange
new_server = record {
  queue = λ i. new_queue "" "" "";
  consumer = λ k. new_consumer "unused" 0 0 0 0;
  exchange = λ x. new_exchange "";
  channel = λ h. record { id = 0; conn = 0; consumers = [] };
  connection = λ n. record { state = await_protocol_header; channels = []; closed = false };
  next = 0;
  broker = record { queues = []; exchanges = [] };
  connections = [];
  counts = [];
  frames = [];
}

-- One step: a connection begins, sends an envelope, or ends; a queue hands a message to a consumer
-- that has nothing pending under the tag; or it learns that the write succeeded, or that it failed,
-- while the message is still pending.
pub data Step (range : Range) (s : Server) : Server → Type 0 where
  connects : Step range s (connect s)
  receives : (n : ℕ) (env : Envelope) → Step range s (handle range n env s)
  takes :
      {s' : Server} (i : ℕ) (d : Delivery)
      → take range i s ≡ some (d, s')
      → IsFresh d s
      → Step range s s'
  written : (i : ℕ) (d : Delivery) → Step range s (finish i d true s)
  fails :
      (i : ℕ) (d : Delivery)
      → member d.consumer (s.queue i).consumers ≡ true
      → lookup d.message.delivery_tag (s.consumer d.consumer).pending_messages ≡ some d.message
      → Step range s (finish i d false s)
  ends : (n : ℕ) → Step range s (disconnect range n s)

-- What the server can come to from its start.
pub data Reach (range : Range) : Server → Type 0 where
  begins : Reach range new_server
  goes : {s s' : Server} → Reach range s → Step range s s' → Reach range s'
