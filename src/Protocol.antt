-- ===== src/Protocol.antt =====
-- protocol/headers.go and protocol/events.go: the constants and the messages of the wire protocol.
-- A `uint16` is a number below `u16_mod`, a `[]byte` is a list of numbers below 256, and a `*bool`
-- is an option.
pub mod Unmarshal
pub mod Handshake
pub mod Lines
use golang_mq.Base.{ℕ, String, Bool, Option, List}
use golang_mq.Base.Int.{ℤ}
use golang_mq.Json.{Json}

-- 2 ^ 16, the number of values of a `uint16`.
abbrev pub u16_mod : ℕ
u16_mod = 65536

abbrev pub protocol_name : String
protocol_name = "GOMQ"

abbrev pub protocol_version : String
protocol_version = "1"

abbrev pub protocol_header : String
protocol_header = "GOMQ/1"

abbrev pub server_name : String
server_name = "GOMQ-Broker"

abbrev pub auth_mechanism_plain : String
auth_mechanism_plain = "plain"

-- The `Type` of an envelope. `other` stands for every string that is none of the constants.
pub data Method : Type 0 where
  basic_publish basic_consume basic_ack basic_nack basic_deliver basic_consume_ok : Method
  channel_open channel_close channel_open_ok channel_close_ok : Method
  queue_declare exchange_declare queue_bind : Method
  queue_declare_ok exchange_declare_ok queue_bind_ok error : Method
  other : String → Method

pub record Publish : Type 0 where
  pub exchange : String
  pub routing_key : String
  pub body : List ℕ

pub record Consume : Type 0 where
  pub queue : String
  pub consumer_tag : String

pub record Ack : Type 0 where
  pub delivery_tag : ℕ

pub record Nack : Type 0 where
  pub delivery_tag : ℕ
  pub requeue : Option Bool

pub record Deliver : Type 0 where
  pub delivery_tag : ℕ
  pub body : List ℕ
  pub exchange : String
  pub routing_key : String
  pub consumer_tag : String

pub record QueueDeclare : Type 0 where
  pub name : String
  pub dead_letter_exchange : String
  pub dead_letter_routing_key : String

pub record ExchangeDeclare : Type 0 where
  pub name : String

pub record QueueBind : Type 0 where
  pub queue : String
  pub exchange : String
  pub routing_key : String

pub record ChannelOpen : Type 0 where
  pub id : ℕ

pub record Capabilities : Type 0 where
  pub heartbeats : Bool

pub record ConnectionStart : Type 0 where
  pub type : String
  pub server_name : String
  pub protocol_version : String
  pub auth_mechanism : String
  pub capabilities : Capabilities

pub record ConnectionTune : Type 0 where
  pub type : String
  pub channel_max : ℤ
  pub frame_max : ℤ
  pub heartbeat_sec : ℤ

pub record ConnectionOpenOk : Type 0 where
  pub type : String

pub record ConnectionStartOk : Type 0 where
  pub type : String
  pub client_name : String
  pub auth_mechanism : String
  pub username : String
  pub password : String

pub record ConnectionTuneOk : Type 0 where
  pub type : String
  pub channel_max : ℤ
  pub frame_max : ℤ
  pub heartbeat_sec : ℤ

pub record ConnectionOpen : Type 0 where
  pub type : String

-- An envelope as it is read. `payload` is none where the line has no such key.
pub record Envelope : Type 0 where
  pub channel_id : ℕ
  pub request_id : ℕ
  pub type : Method
  pub payload : Option Json
