-- ===== src/Broker/Core/Acks.antt =====
-- Broker.Ack of broker/broker.go, on all its branches.
use golang_mq.Base.{
  ℕ, String, ◌≡◌, true, false, none, some, List, ◌∷◌, nat_beq, nat_eq, string_eq, Perm, inl, inr,
  Option-cases, sym, ◌∙◌, Option,
}
use golang_mq.Base.Map.{member, lookup}
use golang_mq.Base.Map.Laws.{lookup_of_member}
use golang_mq.Base.Map.Members.{member-perm}
use golang_mq.Base.Search.{find_first, find_first-some, find_first-none}
use golang_mq.Broker.Range.{Range}
use golang_mq.Broker.State.{
  Message, Server, Error, Count, acked, count, unknown_queue, tag_not_found,
}
use golang_mq.Broker.Consumers.Books.{delivery_tag_of_lookup}
use golang_mq.Broker.Queues.Held.{held}
use golang_mq.Broker.Queues.Settles.{settle_at, settle_at-IsWell, held-settle_at, held-settle_at_ne}
use golang_mq.Broker.Queues.Keeps.{not_elsewhere}
use golang_mq.Broker.Core.{holds, ack}
use golang_mq.Broker.Invariant.{IsWell, count-IsWell}

-- A consumer that has a tag in flight has a message pending under it.
pub pending_of_holds :
    (tag k : ℕ) (s : Server)
    → IsWell s
    → holds tag s k ≡ true
    → (m : Message) × (lookup tag (s.consumer k).pending_messages ≡ some m)
unfolding holds
pending_of_holds tag k s w h =
    lookup_of_member tag (s.consumer k).pending_messages (rw (← (w.books k).tagged) h)

module _ (range : Range) (name : String) (tag : ℕ) (s : Server) where
  abbrev registered : ℕ → List ℕ
  registered i = range.visit _ (s.queue i).consumers

  ack_missing :
      lookup name s.broker.queues ≡ none → ack range name tag s ≡ (some (unknown_queue name), s)
  unfolding ack
  ack_missing e = rw (e, ack)

  ack_unheld :
      (i : ℕ)
      → lookup name s.broker.queues ≡ some i
      → find_first (holds tag s) (registered i) ≡ none
      → ack range name tag s ≡ (some (tag_not_found tag name), s)
  unfolding ack
  ack_unheld i e h = rw (e, ack) (rw (h, ack))

  ack_held :
      (i k : ℕ)
      → lookup name s.broker.queues ≡ some i
      → find_first (holds tag s) (registered i) ≡ some k
      → ack range name tag s ≡ (none, count (acked name) (settle_at k tag s))
  unfolding ack
  ack_held i k e h = rw (e, ack) (rw (h, ack))

-- From `s` to `s'` the queue at `i` has lost one message, which a consumer of its own had pending
-- under the tag; every other queue has what it had.
pub record Settled (i tag : ℕ) (s s' : Server) : Type 0 where
  pub consumer : ℕ
  pub message : Message
  pub registered_there : member consumer (s.queue i).consumers ≡ true
  pub was_pending : lookup tag (s.consumer consumer).pending_messages ≡ some message
  pub tagged : message.delivery_tag ≡ tag
  pub well : IsWell s'
  pub loses : Perm (held s i) (message ∷ held s' i)
  pub keeps : (j : ℕ) → nat_beq i j ≡ false → held s' j ≡ held s j

pub settle_at-Settled :
    (i k tag : ℕ) (m : Message) (c : Count) (s : Server)
    → IsWell s
    → member k (s.queue i).consumers ≡ true
    → lookup tag (s.consumer k).pending_messages ≡ some m
    → Settled i tag s (count c (settle_at k tag s))
unfolding held
settle_at-Settled i k tag m c s w here pends = record {
  consumer = k;
  message = m;
  registered_there = here;
  was_pending = pends;
  tagged = delivery_tag_of_lookup tag (s.consumer k).pending_messages (w.books k).keyed pends;
  well = count-IsWell c (settle_at-IsWell k tag m s w pends);
  loses = held-settle_at k tag m s w pends i here;
  keeps = λ j off. held-settle_at_ne k tag s j (not_elsewhere i j k w here off);
}

pub Settled-count :
    {i tag : ℕ} {s s' : Server} (c : Count) → Settled i tag s s' → Settled i tag s (count c s')
unfolding held
Settled-count c h = record {
  consumer = h.consumer;
  message = h.message;
  registered_there = h.registered_there;
  was_pending = h.was_pending;
  tagged = h.tagged;
  well = count-IsWell c h.well;
  loses = h.loses;
  keeps = h.keeps;
}

module _ (range : Range) (name : String) (tag : ℕ) (s : Server) where
  -- An ack either reports an error and changes nothing, which is so exactly if the queue is unknown
  -- or none of its consumers has the tag in flight; or it settles one message under the tag.
  pub data AckResult : Option Error × Server → Type 0 where
    no_queue : lookup name s.broker.queues ≡ none → AckResult (some (unknown_queue name), s)
    no_holder :
        (i : ℕ)
        → lookup name s.broker.queues ≡ some i
        → ((k : ℕ) → member k (s.queue i).consumers ≡ true → holds tag s k ≡ false)
        → AckResult (some (tag_not_found tag name), s)
    settles :
        (i : ℕ) {s' : Server}
        → lookup name s.broker.queues ≡ some i
        → Settled i tag s s'
        → AckResult (none, s')

  -- If the invariant holds, an ack reports an error and changes nothing, and that only if the
  -- queue is unknown or none of its consumers has the tag in flight; or it settles one message
  -- that a consumer of the queue has pending under the tag: the invariant is kept, the queue loses
  -- that message, and every other queue has what it had.
  pub ack-result : IsWell s → AckResult (ack range name tag s)
  ack-result w = elim (Option-cases (lookup name s.broker.queues)) [
    | inl e ↦ rw (ack_missing range name tag s e) (no_queue e)
    | inr (i, e) ↦ elim (Option-cases (find_first (holds tag s) (registered range name tag s i))) [
      | inl h ↦ rw (ack_unheld range name tag s i e h) (
          no_holder i e (λ k here.
            find_first-none (holds tag s) (registered range name tag s i) h k
              (member-perm k (range.visit-perm _ (s.queue i).consumers) ∙ here)))
      | inr (k, h) ↦
          let (visited, has) = find_first-some (holds tag s) (registered range name tag s i) h in
          let (m, pends) = pending_of_holds tag k s w has in
          rw (ack_held range name tag s i k e h) (
            settles i e (
              settle_at-Settled i k tag m (acked name) s w
                (sym (member-perm k (range.visit-perm _ (s.queue i).consumers)) ∙ visited) pends))
    ]
  ]
