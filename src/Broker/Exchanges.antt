-- ===== src/Broker/Exchanges.antt =====
-- broker/exchange.go
pub mod Routing
use golang_mq.Base.{
  ℕ, String, Option, none, some, List, [], ◌∷◌, ◌++◌, ◌==◌, string_eq, if◌then◌else◌,
}
use golang_mq.Base.Map.{Map, values, lookup, insert}
use golang_mq.Broker.Range.{Range}
use golang_mq.Broker.State.{Exchange}

unfoldable pub new_exchange : String → Exchange
new_exchange name = record { name = name; bindings = [] }

-- e.bindings[routingKey], where a missing entry is made first
abbrev pub or_empty : Option (Map String ℕ) → Map String ℕ
or_empty none = []
or_empty (some m) = m

-- bind, on the name and the address of the queue
unfoldable pub bind : String → ℕ → String → Exchange → Exchange
unfolding insert lookup
bind queue_name queue routing_key e = record e {
  bindings =
      insert routing_key (insert queue_name queue (or_empty (lookup routing_key e.bindings)))
        e.bindings;
}

module _ (range : Range) where
  -- The inner loop, for one entry of the outer one.
  matching : String → String × Map String ℕ → List ℕ
  matching routing_key (rk, queues) =
      if rk == routing_key then values (range.visit _ queues) else []

  collect : String → Map String (Map String ℕ) → List ℕ
  unfolding matching
  collect routing_key [] = []
  collect routing_key (b ∷ rest) = matching routing_key b ++ collect routing_key rest

  -- getQueues: two nested loops over maps
  unfoldable pub get_queues : String → Exchange → List ℕ
  unfolding collect
  get_queues routing_key e = collect routing_key (range.visit _ e.bindings)
