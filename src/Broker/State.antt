-- ===== src/Broker/State.antt =====
-- The data of broker/: queues, consumers, exchanges, channels and connections as objects on a heap.
-- A pointer is a number, the address of its object; each kind of object has its own addresses,
-- given out by one counter. Mutexes are not modelled: what runs under a lock is one step.
pub mod Updates
use golang_mq.Base.{ℕ, String, Bool, List, ◌∷◌, nat_beq, if◌then◌else◌}
use golang_mq.Base.Int.{ℤ}
use golang_mq.Base.Map.{Map}
use golang_mq.Protocol.{Deliver}

pub record Message : Type 0 where
  pub delivery_tag : ℕ
  pub body : List ℕ
  pub exchange : String
  pub routing_key : String

-- `queue` and `channel` are addresses. The Go channel `ch` of the struct is never used.
pub record Consumer : Type 0 where
  pub tag : String
  pub queue : ℕ
  pub channel : ℕ
  pub prefetch : ℕ
  pub inflight : ℤ
  pub inflight_tags : List ℕ
  pub pending_messages : Map ℕ Message

-- The oldest message stands first. `consumers` holds the addresses of consumers.
pub record Queue : Type 0 where
  pub name : String
  pub messages : List Message
  pub consumers : List ℕ
  pub next_tag : ℕ
  pub dlx : String
  pub dlx_routing_key : String

-- A routing key leads to queue names, and these to the addresses of queues.
pub record Exchange : Type 0 where
  pub name : String
  pub bindings : Map String (Map String ℕ)

pub record Channel : Type 0 where
  pub id : ℕ
  pub conn : ℕ
  pub consumers : Map String ℕ

pub data ConnectionState : Type 0 where
  await_protocol_header await_start_ok await_tune_ok await_open open_state closed_state :
      ConnectionState

pub record Connection : Type 0 where
  pub state : ConnectionState
  pub channels : Map ℕ ℕ
  pub closed : Bool

-- The errors that the broker returns; fmt.Errorf makes a text of each.
pub data Error : Type 0 where
  exchange_not_found queue_not_found channel_not_open : Error
  unknown_exchange : String → Error
  unknown_queue : String → Error
  tag_in_use : String → ℕ → Error
  tag_not_found : ℕ → String → Error
  bad_payload : Error

-- The increments of the Prometheus counters that the code asks for.
pub data Count : Type 0 where
  published publish_unroutable enqueued delivered deliver_errors acked dead_lettered dropped :
      String → Count
  consumers_registered consumers_unregistered : String → Count
  nacked : String → Bool → Count
  publish_errors connections_opened connections_closed handshake_failures : Count

-- The payload of an envelope that the server writes.
pub data Reply : Type 0 where
  deliver : Deliver → Reply
  consume_ok : String → Reply
  channel_open_ok channel_close_ok : ℕ → Reply
  queue_declare_ok exchange_declare_ok : String → Reply
  queue_bind_ok : Reply
  failure : Error → Reply

-- One call of `WriteEnvelope`: the connection's address, and the fields of the envelope.
pub record Frame : Type 0 where
  pub conn : ℕ
  pub channel_id : ℕ
  pub request_id : ℕ
  pub reply : Reply

pub record Broker : Type 0 where
  pub queues : Map String ℕ
  pub exchanges : Map String ℕ

-- The server with its heap. `counts` and `frames` record what was counted and what was handed to
-- `WriteEnvelope`, the newest first.
pub record Server : Type 0 where
  pub queue : ℕ → Queue
  pub consumer : ℕ → Consumer
  pub exchange : ℕ → Exchange
  pub channel : ℕ → Channel
  pub connection : ℕ → Connection
  pub next : ℕ
  pub broker : Broker
  pub connections : List ℕ
  pub counts : List Count
  pub frames : List Frame

abbrev pub update {ℓ} : {A : Type ℓ} → ℕ → A → (ℕ → A) → ℕ → A
update i a f j = if nat_beq i j then a else f j

abbrev pub set_queue : ℕ → Queue → Server → Server
set_queue i q s = record s { queue = update i q s.queue }

abbrev pub set_consumer : ℕ → Consumer → Server → Server
set_consumer i c s = record s { consumer = update i c s.consumer }

abbrev pub set_exchange : ℕ → Exchange → Server → Server
set_exchange i e s = record s { exchange = update i e s.exchange }

abbrev pub set_channel : ℕ → Channel → Server → Server
set_channel i c s = record s { channel = update i c s.channel }

abbrev pub set_connection : ℕ → Connection → Server → Server
set_connection i c s = record s { connection = update i c s.connection }

-- Counter.Inc()
abbrev pub count : Count → Server → Server
count c s = record s { counts = c ∷ s.counts }

-- WriteEnvelope of broker/connection.go, as its caller sees it.
abbrev pub write : Frame → Server → Server
write f s = record s { frames = f ∷ s.frames }
