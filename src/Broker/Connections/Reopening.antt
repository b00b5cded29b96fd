-- ===== src/Broker/Connections/Reopening.antt =====
-- ChannelOpen with an id that is open already.
use mathlib.Core.List.Perm
use golang_mq.Base.{ℕ, ◌≡◌, refl, sym, ap, some, [], nat_eq, ◌∙◌}
use golang_mq.Base.Map.{lookup, lookup-insert}
use golang_mq.Base.Map.Laws.{beq_refl}
use golang_mq.Protocol.{Envelope}
use golang_mq.Protocol.Unmarshal.{unmarshal_channel_open}
use golang_mq.Broker.Range.{Range}
use golang_mq.Broker.State.{Server}
use golang_mq.Broker.State.Updates.{nat_beq_refl}
use golang_mq.Broker.Channels.{cleanup_all, cleanup}
use golang_mq.Broker.Connections.Closing.{dropped_from}
use golang_mq.Broker.Connections.{open_channel, close_channel}

module _ (range : Range) where
  visit-nil : {A : Type 0} → range.visit A [] ≡ []
  visit-nil {A} = sym (Perm.nil-eq (Perm.symm (range.visit-perm A [])))

  cleanup_empty : (h : ℕ) (s : Server) → (s.channel h).consumers ≡ [] → cleanup range h s ≡ s
  unfolding cleanup cleanup_all
  cleanup_empty h s e = rw (e, visit-nil) refl

  module _ (n : ℕ) (env env' : Envelope) (s : Server)
      (same : env'.channel_id ≡ (unmarshal_channel_open env.payload).value.id) where
    opened_channel :
        lookup env'.channel_id ((open_channel n env s).connection n).channels ≡ some s.next
    unfolding open_channel
    opened_channel =
        rw (nat_beq_refl n, same)
          (lookup-insert (unmarshal_channel_open env.payload).value.id
              (unmarshal_channel_open env.payload).value.id s.next (s.connection n).channels
            ∙ rw (beq_refl (unmarshal_channel_open env.payload).value.id))

    opened_bare : ((open_channel n env s).channel s.next).consumers ≡ []
    unfolding open_channel
    opened_bare = rw (nat_beq_refl s.next)

    opened_queue : (open_channel n env s).queue ≡ s.queue
    unfolding open_channel
    opened_queue = refl

    -- If a channel is opened and then the id that was opened is closed, every queue is as it was
    -- before: consumers of a channel that had the id before stay registered.
    pub close_channel-open_channel :
        (close_channel range n env' (open_channel n env s)).queue ≡ s.queue
    unfolding close_channel
    close_channel-open_channel =
        rw (opened_channel, close_channel)
          (ap (λ (x : Server). x.queue)
              (cleanup_empty s.next (dropped_from range n env' (open_channel n env s)) opened_bare)
            ∙ opened_queue)
