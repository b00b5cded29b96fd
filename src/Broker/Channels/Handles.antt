-- ===== src/Broker/Channels/Handles.antt =====
-- The handlers of broker/channel.go and the invariant.
use golang_mq.Base.{
  ℕ, String, none, some, inl, inr, Bool-cases, Option-cases, Option, string_eq, nat_eq,
}
use golang_mq.Base.Map.{values}
use golang_mq.Base.Search.{find_first}
use golang_mq.Protocol.{
  basic_publish, basic_consume, basic_ack, basic_nack, queue_declare, exchange_declare, queue_bind,
  Method, Envelope,
}
use golang_mq.Protocol.Unmarshal.{
  unmarshal_publish, unmarshal_consume, unmarshal_ack, unmarshal_nack, unmarshal_queue_bind,
}
use golang_mq.Broker.Range.{Range}
use golang_mq.Broker.State.{Server, Error, Reply}
use golang_mq.Broker.Core.{holds, ack}
use golang_mq.Broker.Core.Acks.{AckResult, ack-result}
use golang_mq.Broker.Core.Publishing.{publish-IsWell}
use golang_mq.Broker.Core.Declaring.{
  declare_queue-IsWell, declare_exchange-IsWell, bind_queue-IsWell,
}
use golang_mq.Broker.Core.Registering.{register-IsWell}
use golang_mq.Broker.Channels.{
  respond, report, answer_consume, handle_publish, handle_ack, handle_nack, handle_consume,
  handle_exchange_declare, handle_queue_declare, handle_queue_bind, route_type, route,
}
use golang_mq.Broker.Channels.Nacks.{nack-IsWell}
use golang_mq.Broker.Invariant.{IsWell, write-IsWell}

module _ (h : ℕ) (env : Envelope) where
  respond-IsWell : (r : Reply) (s : Server) → IsWell s → IsWell (respond h env r s)
  unfolding respond
  respond-IsWell r s w = write-IsWell _ w

  report-IsWell : (x : Option Error × Server) → IsWell x.1 → IsWell (report h env x)
  unfolding report
  report-IsWell (none, s) w = w
  report-IsWell (some e, s) w = respond-IsWell _ s w

  answer_consume-IsWell :
      (x : Option Error × String × Server) → IsWell x.2 → IsWell (answer_consume h env x)
  unfolding answer_consume
  answer_consume-IsWell (none, tag, s) w = respond-IsWell _ s w
  answer_consume-IsWell (some e, tag, s) w = respond-IsWell _ s w

module _ (range : Range) where
  pub ack-IsWell :
      (name : String) (tag : ℕ) (s : Server) → IsWell s → IsWell (ack range name tag s).1
  ack-IsWell name tag s w = kept (ack-result range name tag s w)
    where
      kept : {x : Option Error × Server} → AckResult range name tag s x → IsWell x.1
      kept (AckResult.no_queue e) = w
      kept (AckResult.no_holder i e f) = w
      kept (AckResult.settles i e settled) = settled.well

  module _ (h : ℕ) (env : Envelope) (s : Server) (w : IsWell s) where
    handle_publish-IsWell : IsWell (handle_publish range h env s)
    unfolding handle_publish
    handle_publish-IsWell = elim (Bool-cases (unmarshal_publish env.payload).failed) [
      | inl e ↦ rw e w
      | inr e ↦ rw e (report-IsWell h env _ (publish-IsWell _ _ _ range s w))
    ]

    handle_ack-IsWell : IsWell (handle_ack range h env s)
    unfolding handle_ack
    handle_ack-IsWell = elim (Bool-cases (unmarshal_ack env.payload).failed) [
      | inl e ↦ rw e (respond-IsWell h env _ s w)
      | inr e ↦
          let tag = (unmarshal_ack env.payload).value.delivery_tag in
          rw e
            (elim (Option-cases
              (find_first (holds tag s) (values (range.visit _ (s.channel h).consumers)))) [
                | inl f ↦ rw f w
                | inr (k, f) ↦ rw f (ack-IsWell _ _ s w)
              ])
    ]

    handle_nack-IsWell : IsWell (handle_nack range h env s)
    unfolding handle_nack
    handle_nack-IsWell = elim (Bool-cases (unmarshal_nack env.payload).failed) [
      | inl e ↦ rw e (respond-IsWell h env _ s w)
      | inr e ↦ rw e (nack-IsWell range h _ s _ w)
    ]

    handle_consume-IsWell : IsWell (handle_consume h env s)
    unfolding handle_consume
    handle_consume-IsWell = elim (Bool-cases (unmarshal_consume env.payload).failed) [
      | inl e ↦ rw e (respond-IsWell h env _ s w)
      | inr e ↦ rw e (
          answer_consume-IsWell h env _ (
            register-IsWell (unmarshal_consume env.payload).value.consumer_tag
              (unmarshal_consume env.payload).value.queue h s w))
    ]

    handle_exchange_declare-IsWell : IsWell (handle_exchange_declare h env s)
    unfolding handle_exchange_declare
    handle_exchange_declare-IsWell = respond-IsWell h env _ _ (declare_exchange-IsWell _ s w)

    handle_queue_declare-IsWell : IsWell (handle_queue_declare h env s)
    unfolding handle_queue_declare
    handle_queue_declare-IsWell = respond-IsWell h env _ _ (declare_queue-IsWell _ _ _ s w)

    handle_queue_bind-IsWell : IsWell (handle_queue_bind h env s)
    unfolding handle_queue_bind
    handle_queue_bind-IsWell = elim (Bool-cases (unmarshal_queue_bind env.payload).failed) [
      | inl e ↦ rw e (respond-IsWell h env _ s w)
      | inr e ↦ rw e (respond-IsWell h env _ _ (bind_queue-IsWell _ _ _ s w))
    ]

    route_type-IsWell : (t : Method) → IsWell (route_type range t h env s)
    unfolding route_type
    route_type-IsWell basic_publish = handle_publish-IsWell
    route_type-IsWell basic_consume = handle_consume-IsWell
    route_type-IsWell basic_ack = handle_ack-IsWell
    route_type-IsWell basic_nack = handle_nack-IsWell
    route_type-IsWell queue_declare = handle_queue_declare-IsWell
    route_type-IsWell exchange_declare = handle_exchange_declare-IsWell
    route_type-IsWell queue_bind = handle_queue_bind-IsWell
    route_type-IsWell _ = w

    -- Whatever an envelope that reaches a channel asks for, the server stays well.
    pub route-IsWell : IsWell (route range h env s)
    unfolding route
    route-IsWell = route_type-IsWell env.type
