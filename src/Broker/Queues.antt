-- ===== src/Broker/Queues.antt =====
-- broker/queue.go. The loop of dispatchLoop is two steps: what it does under the lock of the queue,
-- and what it does with the result of the write.
pub mod Held
pub mod Dispatch
pub mod Keeps
pub mod Settles
pub mod Returns
pub mod Unregister
pub mod Delivers
use golang_mq.Base.{
  ℕ, String, Bool, true, false, Option, none, some, List, [], ◌∷◌, ◌++◌, nat_eq, if◌then◌else◌,
}
use golang_mq.Base.Int.{dec}
use golang_mq.Base.Map.{values, member, add, remove}
use golang_mq.Base.Search.{find_first}
use golang_mq.Broker.Range.{Range}
use golang_mq.Broker.State.{
  Message, Consumer, Queue, Server, Frame, enqueued, delivered, deliver_errors,
  consumers_unregistered, deliver, set_queue, set_consumer, count, write,
}
use golang_mq.Broker.Consumers.{is_free, hold, settle}

unfoldable pub new_queue : String → String → String → Queue
new_queue name dlx dlx_routing_key = record {
  name = name;
  messages = [];
  consumers = [];
  next_tag = 1;
  dlx = dlx;
  dlx_routing_key = dlx_routing_key;
}

-- q.messages = append([]Message{msg}, q.messages...)
unfoldable pub push_front : Message → Queue → Queue
push_front m q = record q { messages = m ∷ q.messages }

unfoldable pub enqueue : ℕ → Message → Server → Server
enqueue i m s =
    let q = s.queue i in
    set_queue i (record q { messages = q.messages ++ m ∷ [] }) (count (enqueued q.name) s)

unfoldable pub register_consumer : ℕ → ℕ → Server → Server
unfolding add
register_consumer i c s =
    let q = s.queue i in set_queue i (record q { consumers = add c q.consumers }) s

-- The loop of unregisterConsumer over the pending messages of the consumer.
unfoldable pub give_back : List Message → Queue → Consumer → Queue × Consumer
unfolding push_front remove dec
give_back [] q c = (q, c)
give_back (m ∷ ms) q c =
    give_back ms (push_front m q) (record c {
      inflight_tags = remove m.delivery_tag c.inflight_tags;
      inflight = dec c.inflight;
    })

-- The envelope of basic.deliver, on the channel of the consumer.
unfoldable pub deliver_frame : Message → Consumer → Server → Frame
deliver_frame m c s = record {
  conn = (s.channel c.channel).conn;
  channel_id = (s.channel c.channel).id;
  request_id = 0;
  reply = deliver (record {
    delivery_tag = m.delivery_tag;
    body = m.body;
    exchange = m.exchange;
    routing_key = m.routing_key;
    consumer_tag = c.tag;
  });
}

-- The consumer at `k` gets the message `m`, and `rest` stays in line.
unfoldable pub begin : ℕ → ℕ → Message → List Message → Server → Server
unfolding hold deliver_frame
begin i k m rest s = write (deliver_frame m (s.consumer k) s) (
    set_consumer k (hold m (s.consumer k)) (set_queue i (record (s.queue i) { messages = rest }) s))

-- A delivery that dispatchLoop has under way.
pub record Delivery : Type 0 where
  pub consumer : ℕ
  pub message : Message

module _ (range : Range) where
  -- The queue without the consumer, and the consumer, once the loop has run.
  unfoldable pub leave : ℕ → ℕ → Server → Queue × Consumer
  unfolding give_back remove
  leave i k s =
      let q = s.queue i in
      let c = s.consumer k in
      give_back (values (range.visit _ c.pending_messages))
        (record q { consumers = remove k q.consumers }) c

  unfoldable pub unregister_consumer : ℕ → ℕ → Server → Server
  unfolding leave member
  unregister_consumer i k s =
      let q = s.queue i in
      let r = leave i k s in
      if member k q.consumers
      then count (consumers_unregistered q.name)
          (set_consumer k (record r.1 { pending_messages = [] }) (set_queue i r.0 s))
      else s

  unfoldable pub select_consumer : ℕ → Server → Option ℕ
  unfolding find_first is_free
  select_consumer i s =
      find_first (λ k. is_free (s.consumer k)) (range.visit _ (s.queue i).consumers)

  unfoldable pub take_from : ℕ → Server → List Message → Option (Delivery × Server)
  unfolding select_consumer begin
  take_from i s [] = none
  take_from i s (m ∷ rest) = elim (select_consumer i s) [
    | none ↦ none
    | some k ↦ some (record { consumer = k; message = m }, begin i k m rest s)
  ]

  -- dispatchLoop up to the write: `none` if the loop waits, and otherwise what it is to deliver.
  -- The frame is handed to the connection here; what the connection answers is read in `finish`.
  unfoldable pub take : ℕ → Server → Option (Delivery × Server)
  unfolding take_from
  take i s = take_from i s (s.queue i).messages

-- dispatchLoop after the write: it succeeded, or the message goes back to the front.
unfoldable pub finish : ℕ → Delivery → Bool → Server → Server
unfolding push_front settle
finish i d true s = count (delivered (s.queue i).name) s
finish i d false s =
    let q = s.queue i in
    let c = s.consumer d.consumer in
    count (deliver_errors q.name) (
      set_consumer d.consumer (settle d.message.delivery_tag c)
        (set_queue i (push_front d.message q) s))
