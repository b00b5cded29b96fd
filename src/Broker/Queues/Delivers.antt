-- ===== src/Broker/Queues/Delivers.antt =====
-- dispatchLoop from end to end: when it waits, what a delivery does, a write that fails, and a write
-- that fails after the consumer has left.
use mathlib.Core.List.Perm
use golang_mq.Base.{
  ℕ, ◌≡◌, refl, ap, true, false, none, some, List, [], ◌∷◌, arith, nat_eq, Perm, ◌⊎◌, ◌↔◌, inl, inr,
  Option-cases, ◌∙◌,
}
use golang_mq.Base.Map.{member, lookup}
use golang_mq.Broker.Range.{Range}
use golang_mq.Broker.State.{Message, Queue, Server}
use golang_mq.Broker.State.Updates.{nat_beq_refl}
use golang_mq.Broker.Consumers.{is_free, hold, settle}
use golang_mq.Broker.Consumers.Books.{settle-hold}
use golang_mq.Broker.Queues.{
  Delivery, push_front, select_consumer, begin, take_from, take, finish, unregister_consumer,
}
use golang_mq.Broker.Queues.Held.{held}
use golang_mq.Broker.Queues.Dispatch.{select_consumer-some, select_consumer-none, take-some}
use golang_mq.Broker.Queues.Keeps.{begin-IsWell, held-begin}
use golang_mq.Broker.Queues.Settles.{
  settle_at, settle_at-IsWell, push_at-IsWell, held-put_back, held-push_at, held-settle_at_ne,
}
use golang_mq.Broker.Queues.Unregister.{held-unregister, member-unregister}
use golang_mq.Broker.Invariant.{IsWell, count-IsWell}

-- The consumer of the delivery has nothing pending under the tag of the message.
abbrev pub IsFresh : Delivery → Server → Type 0
IsFresh d s = lookup d.message.delivery_tag (s.consumer d.consumer).pending_messages ≡ none

-- Reads of what `begin` and `finish` have written.
queue-begin :
    (i k : ℕ) (m : Message) (rest : List Message) (s : Server)
    → (begin i k m rest s).queue i ≡ record (s.queue i) { messages = rest }
unfolding begin
queue-begin i k m rest s = rw (nat_beq_refl i)

consumer-begin :
    (i k : ℕ) (m : Message) (rest : List Message) (s : Server)
    → (begin i k m rest s).consumer k ≡ hold m (s.consumer k)
unfolding begin
consumer-begin i k m rest s = rw (nat_beq_refl k)

queue-finish :
    (i : ℕ) (d : Delivery) (s : Server)
    → (finish i d false s).queue i ≡ push_front d.message (s.queue i)
unfolding finish
queue-finish i d s = rw (nat_beq_refl i)

consumer-finish :
    (i : ℕ) (d : Delivery) (s : Server)
    → (finish i d false s).consumer d.consumer
      ≡ settle d.message.delivery_tag (s.consumer d.consumer)
unfolding finish
consumer-finish i d s = rw (nat_beq_refl d.consumer)

push_front-back :
    (m : Message) (rest : List Message) (q : Queue)
    → q.messages ≡ m ∷ rest
    → push_front m (record q { messages = rest }) ≡ q
unfolding push_front
push_front-back m rest q e = ground arith

-- Whatever the server, a write that fails puts the message in line, also where it was given back
-- before.
pub held-finish_absent :
    (i : ℕ) (d : Delivery) (s : Server)
    → member d.consumer (s.queue i).consumers ≡ false
    → held (finish i d false s) i ≡ d.message ∷ held s i
unfolding finish held
held-finish_absent i d s absent =
    held-push_at i d.message (settle_at d.consumer d.message.delivery_tag s)
    ∙ ap (◌∷◌ d.message) (held-settle_at_ne d.consumer d.message.delivery_tag s i absent)

-- A write that fails, if the invariant holds and the consumer is registered and has the message
-- pending, keeps the invariant, and every queue answers for the same messages as before.
pub finish-keeps :
    (i : ℕ) (d : Delivery) (s : Server)
    → IsWell s
    → member d.consumer (s.queue i).consumers ≡ true
    → lookup d.message.delivery_tag (s.consumer d.consumer).pending_messages ≡ some d.message
    → IsWell (finish i d false s) × ((j : ℕ) → Perm (held (finish i d false s) j) (held s j))
unfolding finish held
finish-keeps i d s w here pends =
    let t = d.message.delivery_tag in
    let k = d.consumer in
    (
      count-IsWell _
          (push_at-IsWell i d.message (settle_at k t s) (settle_at-IsWell k t d.message s w pends)),
      held-put_back k t d.message s w pends i here,
    )

module _ (range : Range) where
  take_from-none :
      (i : ℕ) (s : Server) (m : Message) (ms : List Message)
      → take_from range i s (m ∷ ms) ≡ none
      → select_consumer range i s ≡ none
  unfolding take_from
  take_from-none i s m ms h = ground arith

  waits :
      (i : ℕ) (s : Server) (ms : List Message)
      → (take_from range i s ms ≡ none)
      → (ms ≡ [])
        ⊎ ((k : ℕ) → member k (s.queue i).consumers ≡ true → is_free (s.consumer k) ≡ false)
  waits i s [] h = inl refl
  waits i s (m ∷ ms) h = inr (select_consumer-none range i s (take_from-none i s m ms h))

  stuck :
      (i : ℕ) (s : Server) (ms : List Message)
      → select_consumer range i s ≡ none
      → take_from range i s ms ≡ none
  unfolding take_from
  stuck i s [] h = refl
  stuck i s (m ∷ ms) h = rw (h, take_from)

  none_free :
      (i : ℕ) (s : Server)
      → ((k : ℕ) → member k (s.queue i).consumers ≡ true → is_free (s.consumer k) ≡ false)
      → select_consumer range i s ≡ none
  none_free i s full = elim (Option-cases (select_consumer range i s)) [
    | inl e ↦ e
    | inr (k, e) ↦ let (here, free) = select_consumer-some range i s e in cc (free, full k here)
  ]

  -- The loop of a queue waits exactly if no message is in line, or no registered consumer has
  -- room.
  pub take-eq-none_iff :
      (i : ℕ) (s : Server)
      → (take range i s ≡ none) ↔ (
          ((s.queue i).messages ≡ [])
          ⊎ ((k : ℕ) → member k (s.queue i).consumers ≡ true → is_free (s.consumer k) ≡ false))
  unfolding take take_from
  take-eq-none_iff i s = (
    waits i s (s.queue i).messages,
    λ h. elim h [ inl e ↦ rw e | inr full ↦ stuck i s (s.queue i).messages (none_free i s full) ],
  )

  module _ (i : ℕ) (s s' : Server) (d : Delivery) (taken : take range i s ≡ some (d, s')) where
    -- What a queue delivers is the oldest message of its line, and the others stay in their order;
    -- it goes to a consumer that is registered with the queue and has room.
    pub take-oldest :
        ((s.queue i).messages ≡ d.message ∷ (s'.queue i).messages)
        × (member d.consumer (s.queue i).consumers ≡ true)
        × (is_free (s.consumer d.consumer) ≡ true)
    unfolding begin
    take-oldest =
        let (rest, e, chosen, after) = take-some range i s s' d taken in
        let (here, free) = select_consumer-some range i s chosen in
        (rw after (rw (nat_beq_refl i) e), here, free)

    -- A delivery under a tag that the consumer has not pending keeps the invariant, and every
    -- queue answers for the same messages as before.
    pub take-keeps : IsWell s → IsFresh d s → IsWell s' × ((j : ℕ) → Perm (held s' j) (held s j))
    take-keeps w new =
        let (rest, e, chosen, after) = take-some range i s s' d taken in
        let (here, free) = select_consumer-some range i s chosen in
        rw after (
          begin-IsWell i d.consumer d.message rest s w here new free,
          held-begin i d.consumer d.message rest s w here new e,
        )

    -- If the invariant holds, a delivery under a tag that the consumer has not pending whose write
    -- then fails leaves the queue and the consumer exactly as they were before: the message is the
    -- oldest again.
    pub finish-take :
        IsWell s
        → IsFresh d s
        → ((finish i d false s').queue i ≡ s.queue i)
          × ((finish i d false s').consumer d.consumer ≡ s.consumer d.consumer)
    finish-take w new =
        let (rest, e, chosen, after) = take-some range i s s' d taken in
        rw after (
          rw (queue-finish, queue-begin) (push_front-back d.message rest (s.queue i) e),
          rw (consumer-finish, consumer-begin)
              (settle-hold d.message (s.consumer d.consumer) new (w.books d.consumer)),
        )

    -- If the invariant holds, and a delivery under a tag that the consumer has not pending is
    -- under way while the consumer is unregistered, and the write then fails, the queue answers
    -- for the message one time more than before the delivery.
    pub finish_after_unregister :
        IsWell s
        → IsFresh d s
        → Perm
            (held (finish i d false (unregister_consumer range i d.consumer s')) i)
            (d.message ∷ held s i)
    finish_after_unregister w new =
        let (w', kept) = take-keeps w new in
        rw
          (held-finish_absent i d (unregister_consumer range i d.consumer s')
            (member-unregister range i d.consumer s'))
          (Perm.cons d.message (Perm.trans (held-unregister range i d.consumer s' w' i) (kept i)))
