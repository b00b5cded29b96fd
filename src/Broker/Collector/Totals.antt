-- ===== src/Broker/Collector/Totals.antt =====
-- What the gauges of a queue add up to.
use mathlib.Core.Logic.{∥∥₁_elim}
use mathlib.Core.List.{Permᴰ}
use native.Mathlib.Nat.{ℕ_set}
use golang_mq.Base.{
  ℕ, String, ◌+◌, ◌≡◌, refl, ◌∙◌, List, [], ◌∷◌, ◌++◌, arith, length, length-append,
}
use golang_mq.Base.Int.{pos}
use golang_mq.Base.Map.Perms.{length-values}
use golang_mq.Broker.Range.{Range}
use golang_mq.Broker.State.{Server, Consumer}
use golang_mq.Broker.Consumers.Books.{IsSound}
use golang_mq.Broker.Collector.{
  Gauge, queue_messages, consumer_inflight, collect_consumers, collect_queue,
}
use golang_mq.Broker.Queues.Held.{held, pending, pending_of}
use golang_mq.Broker.Invariant.{IsWell}

-- The messages that gauges speak of: in line, or in flight.
unfoldable pub messages_in : List Gauge → ℕ
messages_in [] = 0
messages_in (queue_messages q n ∷ gs) = n + messages_in gs
messages_in (consumer_inflight q c (pos n) ∷ gs) = n + messages_in gs
messages_in (_ ∷ gs) = messages_in gs

module _ (f : ℕ → Consumer) where
  length-pending_of-permᴰ :
      {xs ys : List ℕ} → Permᴰ xs ys → length (pending_of f xs) ≡ length (pending_of f ys)
  unfolding pending_of
  length-pending_of-permᴰ Permᴰ.nil = refl
  length-pending_of-permᴰ (Permᴰ.cons {b = b} {l₁ = l} {l₂ = l'} e p) = rw e (
      omega (
        arith,
        length-append (pending (f b)) (pending_of f l),
        length-append (pending (f b)) (pending_of f l'),
        length-pending_of-permᴰ p,
      ))
  length-pending_of-permᴰ (Permᴰ.swap {a' = a} {b' = b} {l = l} e g) =
      rw (e, g)
        (omega (
          arith,
          length-append (pending (f a)) (pending (f b) ++ pending_of f l),
          length-append (pending (f b)) (pending (f a) ++ pending_of f l),
          length-append (pending (f a)) (pending_of f l),
          length-append (pending (f b)) (pending_of f l),
        ))
  length-pending_of-permᴰ (Permᴰ.trans p q) = length-pending_of-permᴰ p ∙ length-pending_of-permᴰ q

  messages_in-collect_consumers :
      (name : String) (ks : List ℕ)
      → ((k : ℕ) → IsSound (f k))
      → messages_in (collect_consumers name f ks) ≡ length (pending_of f ks)
  unfolding messages_in collect_consumers pending_of
  messages_in-collect_consumers name [] sound = refl
  messages_in-collect_consumers name (k ∷ ks) sound = rw ((sound k).counted) (
      omega (
        arith,
        messages_in-collect_consumers name ks sound,
        length-append (pending (f k)) (pending_of f ks),
        length-values (f k).pending_messages,
      ))

module _ (range : Range) where
  -- If the invariant holds, the gauges that a scrape reports of a queue, its depth and the counts
  -- in flight of its consumers, add up to the number of messages that the queue answers for.
  pub messages_in-collect_queue :
      (s : Server) (i : ℕ) → IsWell s → messages_in (collect_queue range s i) ≡ length (held s i)
  unfolding messages_in collect_queue held
  messages_in-collect_queue s i w =
      let q = s.queue i in
      rw (messages_in-collect_consumers s.consumer q.name (range.visit _ q.consumers) w.books) (
        omega (
          arith,
          length-append q.messages (pending_of s.consumer q.consumers),
          ∥∥₁_elim (range.visit-perm _ q.consumers) (ℕ_set _ _)
              (length-pending_of-permᴰ s.consumer),
        ))
