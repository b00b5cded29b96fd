-- ===== src/Broker/Core.antt =====
-- broker/broker.go. A method that returns an error returns it beside the server, `none` for nil.
pub mod Acks
pub mod Declaring
pub mod Registering
pub mod Publishing
use golang_mq.Base.{
  ℕ, suc, ◌+◌, ◌%◌, String, Bool, Option, none, some, List, [], ◌∷◌, string_eq, nat_eq,
  if◌then◌else◌,
}
use golang_mq.Base.Map.{member, lookup, insert}
use golang_mq.Base.Search.{find_first}
use golang_mq.Base.{length}
use golang_mq.Protocol.{u16_mod}
use golang_mq.Broker.Range.{Range}
use golang_mq.Broker.State.{
  Consumer, Server, Error, exchange_not_found, queue_not_found, unknown_exchange, unknown_queue,
  tag_in_use, tag_not_found, published, publish_unroutable, publish_errors, acked,
  consumers_registered, update, set_queue, set_consumer, set_exchange, set_channel, count,
}
use golang_mq.Broker.Consumers.{new_consumer, settle}
use golang_mq.Broker.Exchanges.{new_exchange, bind, get_queues}
use golang_mq.Broker.Queues.{new_queue, enqueue, register_consumer}

unfoldable pub declare_queue : String → String → String → Server → Server
unfolding lookup insert new_queue
declare_queue name dlx dlx_routing_key s = elim (lookup name s.broker.queues) [
  | some _ ↦ s
  | none ↦ record s {
    queue = update s.next (new_queue name dlx dlx_routing_key) s.queue;
    next = suc s.next;
    broker = record s.broker { queues = insert name s.next s.broker.queues };
  }
]

unfoldable pub declare_exchange : String → Server → Server
unfolding lookup insert new_exchange
declare_exchange name s = elim (lookup name s.broker.exchanges) [
  | some _ ↦ s
  | none ↦ record s {
    exchange = update s.next (new_exchange name) s.exchange;
    next = suc s.next;
    broker = record s.broker { exchanges = insert name s.next s.broker.exchanges };
  }
]

unfoldable pub bind_queue : String → String → String → Server → Option Error × Server
unfolding lookup bind
bind_queue exchange_name queue_name routing_key s = elim (lookup exchange_name s.broker.exchanges) [
  | none ↦ (some exchange_not_found, s)
  | some x ↦ elim (lookup queue_name s.broker.queues) [
    | none ↦ (some queue_not_found, s)
    | some i ↦ (none, set_exchange x (bind (s.queue i).name i routing_key (s.exchange x)) s)
  ]
]

-- The section of Publish that takes a tag: a `uint16`, which wraps around.
unfoldable pub take_tag : ℕ → Server → Server
take_tag i s =
    let q = s.queue i in set_queue i (record q { next_tag = (q.next_tag + 1) % u16_mod }) s

-- The body of the loop of Publish, for one queue.
unfoldable pub publish_to : String → String → List ℕ → ℕ → Server → Server
unfolding take_tag enqueue
publish_to exchange_name routing_key body i s =
    enqueue i
      (record {
        delivery_tag = (s.queue i).next_tag;
        body = body;
        exchange = exchange_name;
        routing_key = routing_key;
      })
      (take_tag i s)

unfoldable pub publish_all : String → String → List ℕ → List ℕ → Server → Server
unfolding publish_to
publish_all exchange_name routing_key body [] s = s
publish_all exchange_name routing_key body (i ∷ is) s =
    publish_all exchange_name routing_key body is (publish_to exchange_name routing_key body i s)

-- count the publication that no queue gets
unfoldable pub count_unroutable : String → List ℕ → Server → Server
count_unroutable exchange_name [] s = count (publish_unroutable exchange_name) s
count_unroutable exchange_name (i ∷ is) s = s

module _ (range : Range) where
  unfoldable pub publish : String → String → List ℕ → Server → Option Error × Server
  unfolding lookup get_queues count_unroutable publish_all
  publish exchange_name routing_key body s = elim (lookup exchange_name s.broker.exchanges) [
    | none ↦ (some (unknown_exchange exchange_name), count publish_errors s)
    | some x ↦
        let queues = get_queues range routing_key (s.exchange x) in
        (
          none,
          publish_all exchange_name routing_key body queues
              (count_unroutable exchange_name queues (count (published exchange_name) s)),
        )
  ]

-- The new consumer of RegisterConsumer, once its tag is known to be free on the channel.
add_consumer : ℕ → ℕ → String → Consumer → Server → Server
unfolding insert register_consumer
add_consumer i h queue_name c s =
    let k = s.next in
    let s' = register_consumer i k (record s { consumer = update k c s.consumer; next = suc k }) in
    let ch = s.channel h in
    count (consumers_registered queue_name)
      (set_channel h (record ch { consumers = insert c.tag k ch.consumers }) s')

-- The tag of the consumer, or the error.
unfoldable pub register : String → String → ℕ → Server → Option Error × String × Server
unfolding lookup new_consumer add_consumer
register consumer_tag queue_name h s = elim (lookup queue_name s.broker.queues) [
  | none ↦ (some queue_not_found, "", s)
  | some i ↦
      let ch = s.channel h in
      let c = new_consumer consumer_tag i ch.id (length ch.consumers) h in
      elim (lookup c.tag ch.consumers) [
        | some _ ↦ (some (tag_in_use c.tag ch.id), "", s)
        | none ↦ (none, c.tag, add_consumer i h queue_name c s)
      ]
]

-- _, found := c.inflightTags[deliveryTag]
unfoldable pub holds : ℕ → Server → ℕ → Bool
unfolding member
holds tag s k = member tag (s.consumer k).inflight_tags

module _ (range : Range) where
  unfoldable pub ack : String → ℕ → Server → Option Error × Server
  unfolding lookup find_first holds settle
  ack queue_name tag s = elim (lookup queue_name s.broker.queues) [
    | none ↦ (some (unknown_queue queue_name), s)
    | some i ↦ elim (find_first (holds tag s) (range.visit _ (s.queue i).consumers)) [
      | none ↦ (some (tag_not_found tag queue_name), s)
      | some k ↦ (none, count (acked queue_name) (set_consumer k (settle tag (s.consumer k)) s))
    ]
  ]
