-- ===== src/Protocol/Unmarshal.antt =====
-- json.Unmarshal into the structs of protocol/events.go. A field that does not fit keeps its value,
-- the other fields are set all the same, and the error is reported at the end.
use golang_mq.Base.{
  ℕ, String, Bool, true, false, ◌||◌, Option, none, some, List, [], ◌∷◌, ◌==◌, string_eq,
  if◌then◌else◌,
}
use golang_mq.Protocol.{
  u16_mod, Method, basic_publish, basic_consume, basic_ack, basic_nack, basic_deliver,
  basic_consume_ok, channel_open, channel_close, channel_open_ok, channel_close_ok, queue_declare,
  exchange_declare, queue_bind, queue_declare_ok, exchange_declare_ok, queue_bind_ok, error, other,
  Publish, Consume, Ack, Nack, QueueDeclare, ExchangeDeclare, QueueBind, ChannelOpen, Envelope,
}
use golang_mq.Json.{
  Json, null, bool, num, str, arr, obj, Items, nil, cons, Fields, end, field, codes, parse_uint,
  names, base64_decode,
}

-- What a call leaves in its target, and whether it returned an error.
pub record Decoded (A : Type 0) : Type 0 where
  pub value : A
  pub failed : Bool

abbrev pub fits : {A : Type 0} → A → Decoded A
fits a = record { value = a; failed = false }

abbrev pub misfits : {A : Type 0} → A → Decoded A
misfits a = record { value = a; failed = true }

abbrev pub via : {A B : Type 0} → (A → B) → Decoded A → Decoded B
via f d = record { value = f d.value; failed = d.failed }

unfoldable pub or_misfit : {A : Type 0} → A → Option A → Decoded A
or_misfit old none = misfits old
or_misfit old (some a) = fits a

unfoldable pub string_field : Json → String → Decoded String
string_field null old = fits old
string_field (str s) old = fits s
string_field _ old = misfits old

unfoldable pub uint_field : ℕ → Json → ℕ → Decoded ℕ
unfolding or_misfit
uint_field bound null old = fits old
uint_field bound (num s) old = or_misfit old (parse_uint bound s)
uint_field bound _ old = misfits old

-- A pointer that is nil is set to a new value before the value is read into it.
bool_pointer_field : Json → Option Bool → Decoded (Option Bool)
bool_pointer_field null old = fits none
bool_pointer_field (bool b) old = fits (some b)
bool_pointer_field _ none = misfits (some false)
bool_pointer_field _ (some b) = misfits (some b)

byte_items : Items → Decoded (List ℕ)
unfolding uint_field
byte_items nil = fits []
byte_items (cons j js) =
    let d = uint_field 256 j 0 in
    let rest = byte_items js in
    record { value = d.value ∷ rest.value; failed = d.failed || rest.failed }

-- A `[]byte` is read from base64 text, or from an array of numbers.
bytes_field : Json → List ℕ → Decoded (List ℕ)
unfolding or_misfit byte_items
bytes_field null old = fits []
bytes_field (str s) old = or_misfit old (base64_decode (codes s))
bytes_field (arr js) old = byte_items js
bytes_field _ old = misfits old

unfoldable pub set_fields : {A : Type 0} → (String → Json → A → Decoded A) → Fields → A → Decoded A
set_fields set end a = fits a
set_fields set (field k j fs) a =
    let d = set k j a in
    let rest = set_fields set fs d.value in
    record { value = rest.value; failed = d.failed || rest.failed }

-- Into a struct; `none` is empty input. The struct starts with its zero value.
unfoldable pub unmarshal :
    {A : Type 0} → (String → Json → A → Decoded A) → A → Option Json → Decoded A
unfolding set_fields
unmarshal set zero_value none = misfits zero_value
unmarshal set zero_value (some null) = fits zero_value
unmarshal set zero_value (some (obj fs)) = set_fields set fs zero_value
unmarshal set zero_value (some _) = misfits zero_value

set_publish : String → Json → Publish → Decoded Publish
unfolding string_field bytes_field
set_publish k j p =
    if names k "exchange"
    then via (λ x. record p { exchange = x }) (string_field j p.exchange)
    else if names k "routing_key"
    then via (λ x. record p { routing_key = x }) (string_field j p.routing_key)
    else if names k "body"
    then via (λ x. record p { body = x }) (bytes_field j p.body)
    else fits p

unfoldable pub unmarshal_publish : Option Json → Decoded Publish
unfolding unmarshal set_publish
unmarshal_publish = unmarshal set_publish (record { exchange = ""; routing_key = ""; body = [] })

set_consume : String → Json → Consume → Decoded Consume
unfolding string_field
set_consume k j p =
    if names k "queue"
    then via (λ x. record p { queue = x }) (string_field j p.queue)
    else if names k "consumer_tag"
    then via (λ x. record p { consumer_tag = x }) (string_field j p.consumer_tag)
    else fits p

unfoldable pub unmarshal_consume : Option Json → Decoded Consume
unfolding unmarshal set_consume
unmarshal_consume = unmarshal set_consume (record { queue = ""; consumer_tag = "" })

unfoldable pub set_ack : String → Json → Ack → Decoded Ack
unfolding uint_field
set_ack k j p =
    if names k "delivery_tag"
    then via (λ x. record p { delivery_tag = x }) (uint_field u16_mod j p.delivery_tag)
    else fits p

unfoldable pub unmarshal_ack : Option Json → Decoded Ack
unfolding unmarshal set_ack
unmarshal_ack = unmarshal set_ack (record { delivery_tag = 0 })

unfoldable pub set_nack : String → Json → Nack → Decoded Nack
unfolding uint_field bool_pointer_field
set_nack k j p =
    if names k "delivery_tag"
    then via (λ x. record p { delivery_tag = x }) (uint_field u16_mod j p.delivery_tag)
    else if names k "requeue"
    then via (λ x. record p { requeue = x }) (bool_pointer_field j p.requeue)
    else fits p

unfoldable pub unmarshal_nack : Option Json → Decoded Nack
unfolding unmarshal set_nack
unmarshal_nack = unmarshal set_nack (record { delivery_tag = 0; requeue = none })

set_queue_declare : String → Json → QueueDeclare → Decoded QueueDeclare
unfolding string_field
set_queue_declare k j p =
    if names k "name"
    then via (λ x. record p { name = x }) (string_field j p.name)
    else if names k "dead_letter_exchange"
    then via (λ x. record p { dead_letter_exchange = x }) (string_field j p.dead_letter_exchange)
    else if names k "dead_letter_routing_key"
    then via (λ x. record p { dead_letter_routing_key = x })
        (string_field j p.dead_letter_routing_key)
    else fits p

unfoldable pub unmarshal_queue_declare : Option Json → Decoded QueueDeclare
unfolding unmarshal set_queue_declare
unmarshal_queue_declare =
    unmarshal set_queue_declare
      (record { name = ""; dead_letter_exchange = ""; dead_letter_routing_key = "" })

set_exchange_declare : String → Json → ExchangeDeclare → Decoded ExchangeDeclare
unfolding string_field
set_exchange_declare k j p =
    if names k "name" then via (λ x. record p { name = x }) (string_field j p.name) else fits p

unfoldable pub unmarshal_exchange_declare : Option Json → Decoded ExchangeDeclare
unfolding unmarshal set_exchange_declare
unmarshal_exchange_declare = unmarshal set_exchange_declare (record { name = "" })

set_queue_bind : String → Json → QueueBind → Decoded QueueBind
unfolding string_field
set_queue_bind k j p =
    if names k "queue"
    then via (λ x. record p { queue = x }) (string_field j p.queue)
    else if names k "exchange"
    then via (λ x. record p { exchange = x }) (string_field j p.exchange)
    else if names k "routing_key"
    then via (λ x. record p { routing_key = x }) (string_field j p.routing_key)
    else fits p

unfoldable pub unmarshal_queue_bind : Option Json → Decoded QueueBind
unfolding unmarshal set_queue_bind
unmarshal_queue_bind =
    unmarshal set_queue_bind (record { queue = ""; exchange = ""; routing_key = "" })

unfoldable pub set_channel_open : String → Json → ChannelOpen → Decoded ChannelOpen
unfolding uint_field
set_channel_open k j p =
    if names k "id" then via (λ x. record p { id = x }) (uint_field u16_mod j p.id) else fits p

unfoldable pub unmarshal_channel_open : Option Json → Decoded ChannelOpen
unfolding unmarshal set_channel_open
unmarshal_channel_open = unmarshal set_channel_open (record { id = 0 })

-- The constants of type Method.
unfoldable pub method_of : String → Method
method_of s =
    if s == "basic.publish"
    then basic_publish
    else if s == "basic.consume"
    then basic_consume
    else if s == "basic.ack"
    then basic_ack
    else if s == "basic.nack"
    then basic_nack
    else if s == "basic.deliver"
    then basic_deliver
    else if s == "basic.consume-ok"
    then basic_consume_ok
    else if s == "channel.open"
    then channel_open
    else if s == "channel.close"
    then channel_close
    else if s == "channel.open-ok"
    then channel_open_ok
    else if s == "channel.close-ok"
    then channel_close_ok
    else if s == "queue.declare"
    then queue_declare
    else if s == "exchange.declare"
    then exchange_declare
    else if s == "queue.bind"
    then queue_bind
    else if s == "queue.declare-ok"
    then queue_declare_ok
    else if s == "exchange.declare-ok"
    then exchange_declare_ok
    else if s == "queue.bind-ok"
    then queue_bind_ok
    else if s == "error"
    then error
    else other s

-- An envelope with its type still a text.
pub record RawEnvelope : Type 0 where
  pub channel_id : ℕ
  pub request_id : ℕ
  pub type : String
  pub payload : Option Json

unfoldable pub set_envelope : String → Json → RawEnvelope → Decoded RawEnvelope
unfolding string_field uint_field
set_envelope k j p =
    if names k "ChannelID"
    then via (λ x. record p { channel_id = x }) (uint_field u16_mod j p.channel_id)
    else if names k "RequestID"
    then via (λ x. record p { request_id = x }) (uint_field u16_mod j p.request_id)
    else if names k "Type"
    then via (λ x. record p { type = x }) (string_field j p.type)
    else if names k "Payload"
    then fits (record p { payload = some j })
    else fits p

-- A line that is no JSON, `none`, is an error.
unfoldable pub unmarshal_envelope : Option Json → Decoded Envelope
unfolding unmarshal set_envelope method_of
unmarshal_envelope line =
    via
      (λ p. record {
        channel_id = p.channel_id;
        request_id = p.request_id;
        type = method_of p.type;
        payload = p.payload;
      })
      (unmarshal set_envelope (record { channel_id = 0; request_id = 0; type = ""; payload = none })
        line)
