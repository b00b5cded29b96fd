-- ===== src/Broker/Consumers.antt =====
-- broker/consumer.go, and what the rest of the broker does to one consumer.
pub mod Books
pub mod Collisions
use Prim.Native.String.{◌++◌}
use golang_mq.Base.{
  ℕ, zero, suc, ◌+◌, ◌/◌, ◌%◌, String, Bool, [], ltb, nat_beq, ◌==◌, nat_eq, string_eq,
  if◌then◌else◌,
}
use golang_mq.Base.Int.{pos, inc, dec, below}
use golang_mq.Base.Map.{add, remove, insert, delete}
use golang_mq.Broker.State.{Message, Consumer}

digit : ℕ → String
digit n =
    if nat_beq n 0
    then "0"
    else if nat_beq n 1
    then "1"
    else if nat_beq n 2
    then "2"
    else if nat_beq n 3
    then "3"
    else if nat_beq n 4
    then "4"
    else if nat_beq n 5
    then "5"
    else if nat_beq n 6
    then "6"
    else if nat_beq n 7
    then "7"
    else if nat_beq n 8
    then "8"
    else "9"

-- The digits of a number before `rest`; the fuel is more than the number.
decimal_before : ℕ → ℕ → String → String
unfolding digit
decimal_before zero n rest = rest
decimal_before (suc fuel) n rest =
    let longer = decimal_before fuel (n / 10) (digit (n % 10) ++ rest) in
    if ltb n 10 then digit n ++ rest else longer

-- fmt's %d
unfoldable pub decimal : ℕ → String
unfolding decimal_before
decimal n = decimal_before (suc n) n ""

-- The tag that NewConsumer makes up where the client sends none.
unfoldable pub generated_tag : ℕ → ℕ → String
unfolding decimal
generated_tag channel_id consumers =
    "ch." ++ (decimal channel_id ++ (".consumer." ++ decimal (consumers + 1)))

abbrev pub default_prefetch : ℕ
default_prefetch = 10

-- NewConsumer, on the address of its queue, and on the id, the number of consumers and the address
-- of its channel.
unfoldable pub new_consumer : String → ℕ → ℕ → ℕ → ℕ → Consumer
unfolding generated_tag
new_consumer tag queue channel_id consumers channel = record {
  tag = if tag == "" then generated_tag channel_id consumers else tag;
  queue = queue;
  channel = channel;
  prefetch = default_prefetch;
  inflight = pos 0;
  inflight_tags = [];
  pending_messages = [];
}

-- inflight < prefetch
unfoldable pub is_free : Consumer → Bool
unfolding below
is_free c = below c.inflight c.prefetch

-- The bookkeeping of dispatchLoop before a message is written.
unfoldable pub hold : Message → Consumer → Consumer
unfolding inc add insert
hold m c = record c {
  inflight = inc c.inflight;
  inflight_tags = add m.delivery_tag c.inflight_tags;
  pending_messages = insert m.delivery_tag m c.pending_messages;
}

-- The bookkeeping of an ack, a nack and a failed write: the tag is settled.
unfoldable pub settle : ℕ → Consumer → Consumer
unfolding dec remove delete
settle tag c = record c {
  inflight = dec c.inflight;
  inflight_tags = remove tag c.inflight_tags;
  pending_messages = delete tag c.pending_messages;
}
