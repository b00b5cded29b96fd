-- ===== src/Broker/Channels.antt =====
-- broker/channel.go: the handlers of a channel, which is given by its address.
pub mod Nacks
pub mod Cleanup
pub mod Handles
use golang_mq.Base.{
  ℕ, String, Bool, true, false, Option, none, some, List, [], ◌∷◌, ◌==◌, string_eq, nat_eq,
  if◌then◌else◌,
}
use golang_mq.Base.Map.{values, lookup}
use golang_mq.Base.Search.{find_first}
use golang_mq.Protocol.{
  basic_publish, basic_consume, basic_ack, basic_nack, queue_declare, exchange_declare, queue_bind,
  Method, Envelope,
}
use golang_mq.Protocol.Unmarshal.{
  unmarshal_publish, unmarshal_consume, unmarshal_ack, unmarshal_nack, unmarshal_queue_declare,
  unmarshal_exchange_declare, unmarshal_queue_bind,
}
use golang_mq.Broker.Range.{Range}
use golang_mq.Broker.State.{
  Message, Server, Error, bad_payload, Reply, consume_ok, exchange_declare_ok, queue_declare_ok,
  queue_bind_ok, failure, nacked, dead_lettered, dropped, set_queue, set_consumer, count, write,
}
use golang_mq.Broker.Consumers.{settle}
use golang_mq.Broker.Queues.{push_front, unregister_consumer}
use golang_mq.Broker.Core.{
  declare_queue, declare_exchange, bind_queue, publish, register, holds, ack,
}

-- WriteEnvelope in answer to an envelope.
unfoldable pub respond : ℕ → Envelope → Reply → Server → Server
respond h env r s =
    write
      (record {
        conn = (s.channel h).conn;
        channel_id = env.channel_id;
        request_id = env.request_id;
        reply = r;
      })
      s

-- An answer that reports an error, if there is one.
unfoldable pub report : ℕ → Envelope → Option Error × Server → Server
unfolding respond
report h env (none, s) = s
report h env (some e, s) = respond h env (failure e) s

-- The answer to basic.consume.
unfoldable pub answer_consume : ℕ → Envelope → Option Error × String × Server → Server
unfolding respond
answer_consume h env (none, tag, s) = respond h env (consume_ok tag) s
answer_consume h env (some e, tag, s) = respond h env (failure e) s

-- The first consumer that has a message pending under the tag, and that message.
unfoldable pub first_pending : ℕ → Server → List ℕ → Option (ℕ × Message)
unfolding lookup
first_pending tag s [] = none
first_pending tag s (k ∷ ks) = elim (lookup tag (s.consumer k).pending_messages) [
  | none ↦ first_pending tag s ks
  | some m ↦ some (k, m)
]

-- A nack without a flag asks for requeueing.
unfoldable pub wants_requeue : Option Bool → Bool
wants_requeue none = true
wants_requeue (some b) = b

module _ (range : Range) where
  unfoldable pub cleanup_all : List ℕ → Server → Server
  unfolding unregister_consumer
  cleanup_all [] s = s
  cleanup_all (k ∷ ks) s = cleanup_all ks (unregister_consumer range (s.consumer k).queue k s)

  -- Channel.cleanup
  unfoldable pub cleanup : ℕ → Server → Server
  unfolding cleanup_all
  cleanup h s = cleanup_all (values (range.visit _ (s.channel h).consumers)) s

  unfoldable pub handle_publish : ℕ → Envelope → Server → Server
  unfolding publish report
  handle_publish h env s =
      let d = unmarshal_publish env.payload in
      let p = d.value in
      if d.failed then s else report h env (publish range p.exchange p.routing_key p.body s)

  unfoldable pub handle_ack : ℕ → Envelope → Server → Server
  unfolding respond find_first holds ack
  handle_ack h env s =
      let d = unmarshal_ack env.payload in
      let tag = d.value.delivery_tag in
      if d.failed
      then respond h env (failure bad_payload) s
      else elim (find_first (holds tag s) (values (range.visit _ (s.channel h).consumers))) [
        | none ↦ s
        | some k ↦ (ack range (s.queue (s.consumer k).queue).name tag s).1
      ]

  -- What a nack does with its message: back to the front, to the dead-letter exchange, or nowhere.
  unfoldable pub dispose : ℕ → Message → Bool → Server → Server
  unfolding push_front publish
  dispose i m true s = set_queue i (push_front m (s.queue i)) s
  dispose i m false s =
      let q = s.queue i in
      if q.dlx == ""
      then count (dropped q.name) s
      else (publish range q.dlx
          (if q.dlx_routing_key == "" then m.routing_key else q.dlx_routing_key) m.body
          (count (dead_lettered q.name) s)).1

  unfoldable pub nack : ℕ → ℕ → Bool → Server → Server
  unfolding first_pending settle dispose
  nack h tag requeue s =
      elim (first_pending tag s (values (range.visit _ (s.channel h).consumers))) [
        | none ↦ s
        | some (k, m) ↦
            let c = s.consumer k in
            dispose c.queue m requeue
              (count (nacked (s.queue c.queue).name requeue) (set_consumer k (settle tag c) s))
      ]

  unfoldable pub handle_nack : ℕ → Envelope → Server → Server
  unfolding respond nack
  handle_nack h env s =
      let d = unmarshal_nack env.payload in
      if d.failed
      then respond h env (failure bad_payload) s
      else nack h d.value.delivery_tag (wants_requeue d.value.requeue) s

unfoldable pub handle_consume : ℕ → Envelope → Server → Server
unfolding respond register answer_consume
handle_consume h env s =
    let d = unmarshal_consume env.payload in
    if d.failed
    then respond h env (failure bad_payload) s
    else answer_consume h env (register d.value.consumer_tag d.value.queue h s)

-- The error of Unmarshal is logged, and the declaration goes on with what was read.
unfoldable pub handle_exchange_declare : ℕ → Envelope → Server → Server
unfolding respond declare_exchange
handle_exchange_declare h env s =
    let name = (unmarshal_exchange_declare env.payload).value.name in
    respond h env (exchange_declare_ok name) (declare_exchange name s)

unfoldable pub handle_queue_declare : ℕ → Envelope → Server → Server
unfolding respond declare_queue
handle_queue_declare h env s =
    let p = (unmarshal_queue_declare env.payload).value in
    respond h env (queue_declare_ok p.name)
      (declare_queue p.name p.dead_letter_exchange p.dead_letter_routing_key s)

-- The error of BindQueue is not looked at.
unfoldable pub handle_queue_bind : ℕ → Envelope → Server → Server
unfolding respond bind_queue
handle_queue_bind h env s =
    let d = unmarshal_queue_bind env.payload in
    if d.failed
    then respond h env (failure bad_payload) s
    else respond h env queue_bind_ok
        (bind_queue d.value.exchange d.value.queue d.value.routing_key s).1

module _ (range : Range) where
  -- The switch of Route, on the type of the envelope.
  unfoldable pub route_type : Method → ℕ → Envelope → Server → Server
  unfolding handle_publish handle_consume handle_ack handle_nack handle_queue_declare
      handle_exchange_declare handle_queue_bind
  route_type basic_publish h env s = handle_publish range h env s
  route_type basic_consume h env s = handle_consume h env s
  route_type basic_ack h env s = handle_ack range h env s
  route_type basic_nack h env s = handle_nack range h env s
  route_type queue_declare h env s = handle_queue_declare h env s
  route_type exchange_declare h env s = handle_exchange_declare h env s
  route_type queue_bind h env s = handle_queue_bind h env s
  route_type _ h env s = s

  unfoldable pub route : ℕ → Envelope → Server → Server
  unfolding route_type
  route h env s = route_type env.type h env s
