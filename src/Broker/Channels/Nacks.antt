-- ===== src/Broker/Channels/Nacks.antt =====
-- Channel.HandleNack of broker/channel.go, once the payload is read.
use golang_mq.Base.{
  ℕ, Bool, ◌≡◌, ◌≢◌, true, false, none, some, List, [], ◌∷◌, arith, nat_beq, nat_beq_iff, nat_eq,
  string_eq, Perm, inl, inr, Bool-cases, Option-cases, sym, ◌∙◌, ◌==◌, if◌then◌else◌,
}
use golang_mq.Base.Map.{values, member, lookup}
use golang_mq.Base.Map.Members.{member-perm}
use golang_mq.Base.Map.Perms.{values-perm}
use golang_mq.Broker.Range.{Range}
use golang_mq.Broker.State.{Message, Queue, Server, nacked, dropped, dead_lettered, count}
use golang_mq.Broker.Queues.Held.{held}
use golang_mq.Broker.Queues.Settles.{settle_at, settle_at-IsWell, push_at-IsWell, held-put_back}
use golang_mq.Broker.Core.{publish}
use golang_mq.Broker.Core.Publishing.{publish-IsWell}
use golang_mq.Broker.Core.Acks.{Settled, settle_at-Settled, Settled-count}
use golang_mq.Broker.State.Updates.{nat_beq_refl}
use golang_mq.Broker.Queues.{push_front}
use golang_mq.Broker.Channels.{first_pending, dispose, nack}
use golang_mq.Broker.Invariant.{IsWell, count-IsWell, registered_of_pending}

first_pending-some :
    (tag : ℕ) (s : Server) (ks : List ℕ) {k : ℕ} {m : Message}
    → first_pending tag s ks ≡ some (k, m)
    → (member k ks ≡ true) × (lookup tag (s.consumer k).pending_messages ≡ some m)
unfolding first_pending member
first_pending-some tag s [] h = cc
first_pending-some tag s (j ∷ ks) {k} {m} h =
    elim (Option-cases (lookup tag (s.consumer j).pending_messages)) [
      | inl e ↦
          let (p, q) = first_pending-some tag s ks {k = k} {m = m} (ground arith) in
          (ground arith, q)
      | inr (x, e) ↦
          let p : j ≡ k = ground arith in (ground (arith, nat_beq_iff j k), rw (← p) (ground arith))
    ]

first_pending-none :
    (tag : ℕ) (s : Server) (ks : List ℕ)
    → first_pending tag s ks ≡ none
    → (k : ℕ) → member k ks ≡ true
    → lookup tag (s.consumer k).pending_messages ≡ none
unfolding first_pending member
first_pending-none tag s [] h k m = cc
first_pending-none tag s (j ∷ ks) h k m =
    elim (Option-cases (lookup tag (s.consumer j).pending_messages)) [
      | inl e ↦ elim (Bool-cases (nat_beq j k)) [
        | inl here ↦ rw (← (nat_beq_iff j k).0 here) e
        | inr there ↦ first_pending-none tag s ks (ground arith) k (ground arith)
      ]
      | inr (x, e) ↦ ground arith
    ]

module _ (range : Range) where
  pub dispose-IsWell :
      (i : ℕ) (m : Message) (requeue : Bool) (s : Server)
      → IsWell s
      → IsWell (dispose range i m requeue s)
  unfolding dispose
  dispose-IsWell i m true s w = push_at-IsWell i m s w
  dispose-IsWell i m false s w = elim (Bool-cases ((s.queue i).dlx == "")) [
    | inl e ↦ rw e (count-IsWell _ w)
    | inr e ↦ rw e (
        publish-IsWell (s.queue i).dlx
          (if (s.queue i).dlx_routing_key == "" then m.routing_key else (s.queue i).dlx_routing_key)
          m.body range (count (dead_lettered (s.queue i).name) s)
          (count-IsWell (dead_lettered (s.queue i).name) w))
  ]

module _ (range : Range) (h tag : ℕ) (s : Server) where
  -- The consumers of the channel, and these in the order in which the loop visits them.
  abbrev pub on_channel : List ℕ
  on_channel = values (s.channel h).consumers

  abbrev visited : List ℕ
  visited = values (range.visit _ (s.channel h).consumers)

  visited_iff : (k : ℕ) → member k visited ≡ member k on_channel
  visited_iff k = member-perm k (values-perm (range.visit-perm _ (s.channel h).consumers))

  nack_unknown :
      (requeue : Bool) → first_pending tag s visited ≡ none → nack range h tag requeue s ≡ s
  unfolding nack
  nack_unknown requeue e = rw (e, nack)

  -- The server once the tag is settled for the consumer at `k` and the nack is counted.
  abbrev pub nacked_at : ℕ → Bool → Server
  nacked_at k requeue =
      count (nacked (s.queue (s.consumer k).queue).name requeue) (settle_at k tag s)

  nack_known :
      (k : ℕ) (m : Message) (requeue : Bool)
      → first_pending tag s visited ≡ some (k, m)
      → nack range h tag requeue s
        ≡ dispose range (s.consumer k).queue m requeue (nacked_at k requeue)
  unfolding nack
  nack_known k m requeue e = rw (e, nack)

  -- What a nack does. If no consumer of the channel has the tag pending: nothing. Else one of them
  -- has a message pending under the tag, at a queue `i`: the message goes to the front of the line of
  -- that queue, and no queue answers for other messages than before; or the queue loses the message,
  -- for good if it has no dead-letter exchange, and otherwise to a publication there, under the
  -- dead-letter key of the queue, or under the key of the message if that is empty.
  pub data NackResult : Bool → Server → Type 0 where
    unknown :
        {requeue : Bool}
        → ((k : ℕ) → member k on_channel ≡ true → lookup tag (s.consumer k).pending_messages ≡ none)
        → NackResult requeue s
    requeues :
        (k : ℕ) (m : Message) {s' : Server}
        → member k on_channel ≡ true
        → lookup tag (s.consumer k).pending_messages ≡ some m
        → (s'.queue (s.consumer k).queue).messages ≡ m ∷ (s.queue (s.consumer k).queue).messages
        → ((j : ℕ) → Perm (held s' j) (held s j))
        → NackResult true s'
    drops :
        (k : ℕ) {s' : Server}
        → member k on_channel ≡ true
        → (s.queue (s.consumer k).queue).dlx ≡ ""
        → Settled (s.consumer k).queue tag s s'
        → NackResult false s'
    dead_letters :
        (k : ℕ) (m : Message) (s' : Server)
        → member k on_channel ≡ true
        → (s.queue (s.consumer k).queue).dlx ≢ ""
        → Settled (s.consumer k).queue tag s s'
        → lookup tag (s.consumer k).pending_messages ≡ some m
        → NackResult false
            (publish range
              (s.queue (s.consumer k).queue).dlx
              (if (s.queue (s.consumer k).queue).dlx_routing_key == ""
                then m.routing_key
                else (s.queue (s.consumer k).queue).dlx_routing_key)
              m.body
              s').1

  module _ (w : IsWell s) (k : ℕ) (m : Message) (on : member k on_channel ≡ true)
      (pends : lookup tag (s.consumer k).pending_messages ≡ some m) where
    here : member k (s.queue (s.consumer k).queue).consumers ≡ true
    here = registered_of_pending k tag w pends

    abbrev q : Queue
    q = s.queue (s.consumer k).queue

    settled : Settled (s.consumer k).queue tag s (nacked_at k false)
    settled = settle_at-Settled (s.consumer k).queue k tag m (nacked q.name false) s w here pends

    dispose-result :
        (requeue : Bool)
        → NackResult requeue (dispose range (s.consumer k).queue m requeue (nacked_at k requeue))
    unfolding dispose held push_front
    dispose-result true =
        requeues k m on pends (rw (nat_beq_refl (s.consumer k).queue))
          (held-put_back k tag m s w pends (s.consumer k).queue here)
    dispose-result false = elim (Bool-cases ((s.queue (s.consumer k).queue).dlx == "")) [
      | inl e ↦
          rw e (drops k on ((string_eq.beq_iff _ _).0 e) (Settled-count (dropped q.name) settled))
      | inr e ↦ rw e (
          dead_letters k m (count (dead_lettered q.name) (nacked_at k false)) on
            (λ p. cc (e, (string_eq.beq_iff q.dlx "").1 p))
            (Settled-count (dead_lettered q.name) settled) pends)
    ]

  -- If the invariant holds, a nack does nothing if no consumer of the channel has the tag pending.
  -- Else it settles a message that one of them has pending under the tag: with requeue the message
  -- goes to the front of the line of its queue, and no queue answers for other messages than
  -- before; without, the queue loses the message, for good if it has no dead-letter exchange, and
  -- otherwise to a publication there, under the dead-letter key of the queue, or under the key of
  -- the message if that is empty.
  pub nack-result : IsWell s → (requeue : Bool) → NackResult requeue (nack range h tag requeue s)
  nack-result w requeue = elim (Option-cases (first_pending tag s visited)) [
    | inl e ↦
        rw (nack_unknown requeue e)
          (unknown (λ k on. first_pending-none tag s visited e k (visited_iff k ∙ on)))
    | inr ((k, m), e) ↦
        let (on, pends) = first_pending-some tag s visited {k = k} {m = m} e in
        rw (nack_known k m requeue e)
          (dispose-result w k m (sym (visited_iff k) ∙ on) pends requeue)
  ]

  pub nack-IsWell : (requeue : Bool) → IsWell s → IsWell (nack range h tag requeue s)
  nack-IsWell requeue w = elim (Option-cases (first_pending tag s visited)) [
    | inl e ↦ rw (nack_unknown requeue e) w
    | inr ((k, m), e) ↦ rw (nack_known k m requeue e) (
        dispose-IsWell range (s.consumer k).queue m requeue (nacked_at k requeue) (
          count-IsWell _
            (settle_at-IsWell k tag m s w (first_pending-some tag s visited {k = k} {m = m} e).1)))
  ]
