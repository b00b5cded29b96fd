-- ===== src/Broker/Runs/Bounds.antt =====
-- The invariant along the runs of the server.
use golang_mq.Base.{ℕ, refl, inl, inr, Option-cases, arith, nat_eq}
use golang_mq.Base.Map.{member, lookup}
use golang_mq.Protocol.{Method, Envelope, channel_open, channel_close}
use golang_mq.Broker.Range.{Range}
use golang_mq.Broker.State.{Server}
use golang_mq.Broker.Core.Registering.{new_consumer-IsSound}
use golang_mq.Broker.Queues.{finish}
use golang_mq.Broker.Queues.Held.{IsUnique}
use golang_mq.Broker.Queues.Delivers.{take-keeps, finish-keeps}
use golang_mq.Broker.Channels.Handles.{route-IsWell}
use golang_mq.Broker.Connections.{connect, open_channel, route_to_channel, handle, handle_type}
use golang_mq.Broker.Connections.Closing.{close_channel-Closes, disconnect-Ends}
use golang_mq.Broker.Invariant.{IsWell, Spares-IsWell, write-IsWell, count-IsWell}
use golang_mq.Broker.Runs.{new_server, Step, Reach}

new_server-IsWell : IsWell new_server
unfolding new_server IsUnique member lookup
new_server-IsWell = record {
  unique = λ i. tt;
  owner = λ i k h. cc;
  young = λ i k h. cc;
  made = λ i k h. cc;
  home = λ k. inl refl;
  books = λ k. new_consumer-IsSound "unused" 0 0 0 0;
  known = λ name i h. cc;
  named = λ name i h. cc;
}

connect-IsWell : (s : Server) → IsWell s → IsWell (connect s)
unfolding connect
connect-IsWell s = Spares-IsWell {s = s} (record {
  registered = λ i. refl;
  names = λ i. refl;
  consumers = λ k. refl;
  queues = refl;
  later = omega arith;
})

open_channel-IsWell :
    (n : ℕ) (env : Envelope) (s : Server) → IsWell s → IsWell (open_channel n env s)
unfolding open_channel
open_channel-IsWell n env s = Spares-IsWell {s = s} (record {
  registered = λ i. refl;
  names = λ i. refl;
  consumers = λ k. refl;
  queues = refl;
  later = omega arith;
})

module _ (range : Range) where
  module _ (n : ℕ) (env : Envelope) (s : Server) (w : IsWell s) where
    route_to_channel-IsWell : IsWell (route_to_channel range n env s)
    unfolding route_to_channel
    route_to_channel-IsWell =
        elim (Option-cases (lookup env.channel_id (s.connection n).channels)) [
          | inl e ↦ rw (e, route_to_channel) (write-IsWell _ w)
          | inr (h, e) ↦ rw (e, route_to_channel) (route-IsWell range h env s w)
        ]

    handle_type-IsWell : (t : Method) → IsWell (handle_type range t n env s)
    unfolding handle_type
    handle_type-IsWell channel_open = open_channel-IsWell n env s w
    handle_type-IsWell channel_close = (close_channel-Closes range n env s w).conserves.well
    handle_type-IsWell _ = route_to_channel-IsWell

    -- Every envelope that a connection can send, of any type and with any payload, leads from a
    -- server that satisfies the invariant to one that does.
    pub handle-IsWell : IsWell (handle range n env s)
    unfolding handle
    handle-IsWell = handle_type-IsWell env.type

  Step-IsWell : {s s' : Server} → Step range s s' → IsWell s → IsWell s'
  unfolding finish
  Step-IsWell {s} Step.connects w = connect-IsWell s w
  Step-IsWell {s} (Step.receives n env) w = handle-IsWell n env s w
  Step-IsWell {s} {s'} (Step.takes i d taken new) w = (take-keeps range i s s' d taken w new).0
  Step-IsWell {s} (Step.written i d) w = count-IsWell _ w
  Step-IsWell {s} (Step.fails i d here pends) w = (finish-keeps i d s w here pends).0
  Step-IsWell {s} (Step.ends n) w = (disconnect-Ends range n s w).conserves.well

  -- Every server that a run can come to from its start, whatever envelopes the connections send
  -- and however the steps interleave, satisfies the invariant: no consumer is registered with a
  -- queue but its own, or twice; a consumer that is not registered has nothing pending; the three
  -- books of every consumer agree and stay within its prefetch; a name leads to a queue of that
  -- name. A run has only deliveries under a tag that the consumer has not pending, and failed
  -- writes of messages that are still pending at a consumer that is registered.
  pub Reach-IsWell : {s : Server} → Reach range s → IsWell s
  Reach-IsWell Reach.begins = new_server-IsWell
  Reach-IsWell (Reach.goes r p) = Step-IsWell p (Reach-IsWell r)
