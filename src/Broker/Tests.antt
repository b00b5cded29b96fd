-- ===== src/Broker/Tests.antt =====
-- A run of the server on a few envelopes.
pub mod Dispatching
pub mod Answering
pub mod Greeting
mod Writing
use golang_mq.Base.{ℕ, ◌≡◌, refl, true, String, nat_eq, some, none, List, [], ◌∷◌, length}
use golang_mq.Base.Map.{member, lookup}
use golang_mq.Json.{Json, num, str, obj, end, field, names, parse_uint, base64_decode}
use golang_mq.Protocol.Unmarshal.{
  unmarshal_channel_open, unmarshal_queue_bind, unmarshal_exchange_declare, unmarshal_queue_declare,
  unmarshal_consume, unmarshal_publish,
}
use golang_mq.Protocol.{
  Method, Envelope, channel_open, exchange_declare, queue_declare, queue_bind, basic_consume,
  basic_publish,
}
use golang_mq.Broker.Range.{in_order}
use golang_mq.Broker.State.{Server, Message}
use golang_mq.Broker.Queues.{Delivery, begin, take}
use golang_mq.Broker.Connections.{connect, handle}
use golang_mq.Broker.Invariant.{IsWell}
use golang_mq.Broker.Runs.{new_server, Step, Reach}
use golang_mq.Broker.Runs.Bounds.{Reach-IsWell}

abbrev pub envelope : Method → Json → Envelope
envelope t payload = record { channel_id = 1; request_id = 9; type = t; payload = some payload }

-- The connection at the address 0 sends the envelopes.
unfoldable pub serve : List Envelope → Server → Server
unfolding handle
serve [] s = s
serve (env ∷ envs) s = serve envs (handle in_order 0 env s)

serve-Reach : (envs : List Envelope) {s : Server} → Reach in_order s → Reach in_order (serve envs s)
unfolding serve
serve-Reach [] r = r
serve-Reach (env ∷ envs) r = serve-Reach envs (Reach.goes r (Step.receives 0 env))

abbrev text : String → String → Json
text key value = obj (field key (str value) end)

abbrev bind_payload : Json
bind_payload =
    obj (
      field "queue" (str "jobs")
        (field "exchange" (str "work") (field "routing_key" (str "k") end)))

abbrev queue_payload : Json
queue_payload = obj (field "name" (str "jobs") (field "dead_letter_exchange" (str "work") end))

abbrev pub publish_payload : Json
publish_payload =
    obj (
      field "exchange" (str "work") (field "routing_key" (str "k") (field "body" (str "aGk=") end)))

abbrev set_up : List Envelope
set_up =
    envelope channel_open (obj (field "id" (num (b'1' ∷ [])) end))
    ∷ envelope exchange_declare (text "name" "work")
    ∷ envelope queue_declare queue_payload
    ∷ envelope queue_bind bind_payload
    ∷ envelope basic_consume (text "queue" "jobs")
    ∷ envelope basic_publish publish_payload
    ∷ []

abbrev pub served : Server
served = serve set_up (connect new_server)

pub served-Reach : Reach in_order served
served-Reach = serve-Reach set_up (Reach.goes Reach.begins Step.connects)

pub served-IsWell : IsWell served
served-IsWell = Reach-IsWell in_order served-Reach

abbrev pub hi : Message
hi = record { delivery_tag = 1; body = b'h' ∷ b'i' ∷ []; exchange = "work"; routing_key = "k" }

pub served_messages : (served.queue 3).messages ≡ hi ∷ []
unfolding serve connect new_server unmarshal_channel_open names parse_uint unmarshal_queue_bind
    unmarshal_exchange_declare unmarshal_queue_declare unmarshal_consume unmarshal_publish
    base64_decode
served_messages = refl

pub served_consumers : (served.queue 3).consumers ≡ 4 ∷ []
unfolding serve connect new_server unmarshal_channel_open names parse_uint unmarshal_queue_bind
    unmarshal_exchange_declare unmarshal_queue_declare unmarshal_consume unmarshal_publish
    base64_decode
served_consumers = refl

served_tag : (served.consumer 4).tag ≡ "ch.1.consumer.1"
unfolding serve connect new_server unmarshal_channel_open names parse_uint unmarshal_queue_bind
    unmarshal_exchange_declare unmarshal_queue_declare unmarshal_consume unmarshal_publish
    base64_decode
served_tag = refl

-- The queue hands the message to its consumer.
abbrev pub delivery : Delivery
delivery = record { consumer = 4; message = hi }

abbrev pub delivering : Server
delivering = begin 3 4 hi [] served

pub served_takes : take in_order 3 served ≡ some (delivery, delivering)
unfolding serve connect new_server unmarshal_channel_open names parse_uint unmarshal_queue_bind
    unmarshal_exchange_declare unmarshal_queue_declare unmarshal_consume unmarshal_publish
    base64_decode take
served_takes = refl

pub served_fresh : lookup 1 (served.consumer 4).pending_messages ≡ none
unfolding serve connect new_server unmarshal_channel_open names parse_uint unmarshal_queue_bind
    unmarshal_exchange_declare unmarshal_queue_declare unmarshal_consume unmarshal_publish
    base64_decode
served_fresh = refl

pub delivering-Reach : Reach in_order delivering
delivering-Reach = Reach.goes served-Reach (Step.takes 3 delivery served_takes served_fresh)

pub delivering-IsWell : IsWell delivering
delivering-IsWell = Reach-IsWell in_order delivering-Reach

pub delivering_pends : lookup 1 (delivering.consumer 4).pending_messages ≡ some hi
unfolding serve connect new_server unmarshal_channel_open names parse_uint unmarshal_queue_bind
    unmarshal_exchange_declare unmarshal_queue_declare unmarshal_consume unmarshal_publish
    base64_decode begin
delivering_pends = refl

pub delivering_consumer : member 4 (delivering.queue 3).consumers ≡ true
unfolding serve connect new_server unmarshal_channel_open names parse_uint unmarshal_queue_bind
    unmarshal_exchange_declare unmarshal_queue_declare unmarshal_consume unmarshal_publish
    base64_decode begin member
delivering_consumer = refl
