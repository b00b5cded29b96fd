-- ===== src/Broker/Queues/Dispatch.antt =====
-- dispatchLoop of broker/queue.go: which consumer it picks, and when it picks none.
use golang_mq.Base.{
  ℕ, ◌≡◌, true, false, none, some, List, [], ◌∷◌, arith, nat_eq, inl, inr, Option-cases, sym, ◌∙◌,
}
use golang_mq.Base.Map.{member}
use golang_mq.Base.Map.Members.{member-perm}
use golang_mq.Base.Search.{find_first-some, find_first-none}
use golang_mq.Broker.Range.{Range}
use golang_mq.Broker.State.{Message, Server}
use golang_mq.Broker.Consumers.{is_free}
use golang_mq.Broker.Queues.{Delivery, select_consumer, begin, take_from, take}

module _ (range : Range) where
  -- The consumer that is picked is registered with the queue, and has room.
  pub select_consumer-some :
      (i : ℕ) (s : Server) {k : ℕ}
      → select_consumer range i s ≡ some k
      → (member k (s.queue i).consumers ≡ true) × (is_free (s.consumer k) ≡ true)
  unfolding select_consumer
  select_consumer-some i s {k} h =
      let (m, free) =
        find_first-some (λ j. is_free (s.consumer j)) (range.visit _ (s.queue i).consumers) h in
      (sym (member-perm k (range.visit-perm _ (s.queue i).consumers)) ∙ m, free)

  pub select_consumer-none :
      (i : ℕ) (s : Server)
      → select_consumer range i s ≡ none
      → (k : ℕ) → member k (s.queue i).consumers ≡ true
      → is_free (s.consumer k) ≡ false
  unfolding select_consumer
  select_consumer-none i s h k m =
      find_first-none (λ j. is_free (s.consumer j)) (range.visit _ (s.queue i).consumers) h k
        (member-perm k (range.visit-perm _ (s.queue i).consumers) ∙ m)

  take_from-some :
      (i : ℕ) (s s' : Server) (d : Delivery) (ms : List Message)
      → take_from range i s ms ≡ some (d, s')
      → (rest : List Message) × (ms ≡ d.message ∷ rest)
        × (select_consumer range i s ≡ some d.consumer)
        × (s' ≡ begin i d.consumer d.message rest s)
  unfolding take_from
  take_from-some i s s' d [] h = cc
  take_from-some i s s' d (m ∷ rest) h = elim (Option-cases (select_consumer range i s)) [
    | inl e ↦ ground arith
    | inr (k, e) ↦ (rest, ground arith, ground arith, ground arith)
  ]

  -- A delivery takes the oldest message, for a consumer that is registered and has room.
  pub take-some :
      (i : ℕ) (s s' : Server) (d : Delivery)
      → take range i s ≡ some (d, s')
      → (rest : List Message) × ((s.queue i).messages ≡ d.message ∷ rest)
        × (select_consumer range i s ≡ some d.consumer)
        × (s' ≡ begin i d.consumer d.message rest s)
  unfolding take
  take-some i s s' d h = take_from-some i s s' d (s.queue i).messages h
