-- ===== src/Broker/Core/Publishing.antt =====
-- Broker.Publish: which queues get a copy, in which place, and under which tag.
use golang_mq.Base.{
  ℕ, zero, suc, ◌+◌, ◌%◌, String, ◌≡◌, refl, none, some, List, [], ◌∷◌, ◌++◌, arith, nat_beq,
  nat_beq_iff, nat_eq, string_eq, inl, inr, Bool-cases, Option-cases, ◌∙◌, Option, if◌then◌else◌,
}
use mathlib.Core.List.{append-nil, append_assoc}
use golang_mq.Base.Map.{lookup}
use golang_mq.Protocol.{u16_mod}
use golang_mq.Broker.Range.{Range}
use golang_mq.Broker.State.{
  Message, Server, Error, count, unknown_exchange, publish_errors, published,
}
use golang_mq.Broker.State.Updates.{nat_beq_refl}
use golang_mq.Broker.Exchanges.{get_queues}
use golang_mq.Broker.Core.{publish_to, publish_all, count_unroutable, publish}
use golang_mq.Broker.Invariant.{IsWell, Spares-IsWell, count-IsWell}

-- How often an address stands in a list.
unfoldable pub occurrences : ℕ → List ℕ → ℕ
occurrences j [] = 0
occurrences j (i ∷ is) = let rest = occurrences j is in if nat_beq i j then suc rest else rest

module _ (exchange_name routing_key : String) (body : List ℕ) where
  abbrev pub copy : ℕ → Message
  copy tag = record {
    delivery_tag = tag;
    body = body;
    exchange = exchange_name;
    routing_key = routing_key;
  }

  -- `n` copies of the message under successive tags, which wrap around.
  unfoldable pub copies : ℕ → ℕ → List Message
  copies tag zero = []
  copies tag (suc n) = copy tag ∷ copies ((tag + 1) % u16_mod) n

  pub messages-publish_to :
      (i j : ℕ) (s : Server)
      → ((publish_to exchange_name routing_key body i s).queue j).messages
        ≡ (s.queue j).messages ++ (if nat_beq i j then copy (s.queue j).next_tag ∷ [] else [])
  unfolding publish_to
  messages-publish_to i j s = elim (Bool-cases (nat_beq i j)) [
    | inl e ↦ rw ((nat_beq_iff i j).0 e, nat_beq_refl j)
    | inr e ↦ rw (e, append-nil)
  ]

  pub next_tag-publish_to :
      (i j : ℕ) (s : Server)
      → ((publish_to exchange_name routing_key body i s).queue j).next_tag
        ≡ (if nat_beq i j then ((s.queue j).next_tag + 1) % u16_mod else (s.queue j).next_tag)
  unfolding publish_to
  next_tag-publish_to i j s = elim (Bool-cases (nat_beq i j)) [
    | inl e ↦ rw ((nat_beq_iff i j).0 e, nat_beq_refl j)
    | inr e ↦ rw e
  ]

  -- A queue gets one copy for each time that it is listed, at the end of its line.
  pub messages-publish_all :
      (is : List ℕ) (j : ℕ) (s : Server)
      → ((publish_all exchange_name routing_key body is s).queue j).messages
        ≡ (s.queue j).messages ++ copies (s.queue j).next_tag (occurrences j is)
  unfolding publish_all copies occurrences
  messages-publish_all [] j s = rw append-nil
  messages-publish_all (i ∷ is) j s = elim (Bool-cases (nat_beq i j)) [
    | inl e ↦ rw (
      messages-publish_all is j (publish_to exchange_name routing_key body i s),
      messages-publish_to i j s,
      next_tag-publish_to i j s,
      e,
      append_assoc,
    )
    | inr e ↦ rw (
      messages-publish_all is j (publish_to exchange_name routing_key body i s),
      messages-publish_to i j s,
      next_tag-publish_to i j s,
      e,
      append_assoc,
    )
  ]

  -- A publication changes lines and tags only.
  publish_to-IsWell :
      (i : ℕ) (s : Server) → IsWell s → IsWell (publish_to exchange_name routing_key body i s)
  unfolding publish_to
  publish_to-IsWell i s w =
      Spares-IsWell {s = s}
        (record {
          registered = λ j. ground (arith, nat_beq_iff i j, nat_beq_refl i);
          names = λ j. ground (arith, nat_beq_iff i j, nat_beq_refl i);
          consumers = λ k. refl;
          queues = refl;
          later = omega arith;
        })
        w

  pub publish_all-IsWell :
      (is : List ℕ) (s : Server)
      → IsWell s
      → IsWell (publish_all exchange_name routing_key body is s)
  unfolding publish_all
  publish_all-IsWell [] s w = w
  publish_all-IsWell (i ∷ is) s w = publish_all-IsWell is _ (publish_to-IsWell i s w)

  consumer-publish_all :
      (is : List ℕ) (s : Server)
      → (publish_all exchange_name routing_key body is s).consumer ≡ s.consumer
  unfolding publish_all publish_to
  consumer-publish_all [] s = refl
  consumer-publish_all (i ∷ is) s =
      consumer-publish_all is (publish_to exchange_name routing_key body i s)

  count_unroutable-IsWell :
      (is : List ℕ) (s : Server) → IsWell s → IsWell (count_unroutable exchange_name is s)
  unfolding count_unroutable
  count_unroutable-IsWell [] s w = count-IsWell _ w
  count_unroutable-IsWell (i ∷ is) s w = w

  objects-count_unroutable :
      (is : List ℕ) (s : Server)
      → ((count_unroutable exchange_name is s).queue ≡ s.queue)
        × ((count_unroutable exchange_name is s).consumer ≡ s.consumer)
  unfolding count_unroutable
  objects-count_unroutable [] s = (refl, refl)
  objects-count_unroutable (i ∷ is) s = (refl, refl)

  -- The publication is rejected and changes nothing but the counters; or every queue gets, at the end
  -- of its line and under its own next tag, as many copies as the exchange lists it, and no consumer
  -- is touched.
  pub data PublishResult (range : Range) (s : Server) : Option Error × Server → Type 0 where
    rejected :
        lookup exchange_name s.broker.exchanges ≡ none
        → PublishResult range s (some (unknown_exchange exchange_name), count publish_errors s)
    accepted :
        (x : ℕ) {s' : Server}
        → lookup exchange_name s.broker.exchanges ≡ some x
        → ((j : ℕ)
            → (s'.queue j).messages
              ≡ (s.queue j).messages
                ++ copies
                    (s.queue j).next_tag
                    (occurrences j (get_queues range routing_key (s.exchange x))))
        → s'.consumer ≡ s.consumer
        → PublishResult range s (none, s')

  module _ (range : Range) (s : Server) where
    abbrev listed : ℕ → List ℕ
    listed x = get_queues range routing_key (s.exchange x)

    abbrev counted : ℕ → Server
    counted x = count_unroutable exchange_name (listed x) (count (published exchange_name) s)

    publish_missing :
        lookup exchange_name s.broker.exchanges ≡ none
        → publish range exchange_name routing_key body s
          ≡ (some (unknown_exchange exchange_name), count publish_errors s)
    unfolding publish
    publish_missing e = rw (e, publish)

    publish_found :
        (x : ℕ)
        → lookup exchange_name s.broker.exchanges ≡ some x
        → publish range exchange_name routing_key body s
          ≡ (none, publish_all exchange_name routing_key body (listed x) (counted x))
    unfolding publish
    publish_found x e = rw (e, publish)

    -- A publication to an unknown exchange is rejected and changes nothing but a counter.
    -- Otherwise every queue gets, at the end of its line and under its own next tags, as many
    -- copies as the exchange lists it for the key, and no consumer is touched.
    pub publish-result : PublishResult range s (publish range exchange_name routing_key body s)
    publish-result = elim (Option-cases (lookup exchange_name s.broker.exchanges)) [
      | inl e ↦ rw (publish_missing e) (rejected e)
      | inr (x, e) ↦
          let (q, c) = objects-count_unroutable (listed x) (count (published exchange_name) s) in
          rw (publish_found x e) (
            accepted x e (λ j. messages-publish_all (listed x) j (counted x) ∙ rw q)
              (consumer-publish_all (listed x) (counted x) ∙ c))
    ]

    pub publish-IsWell : IsWell s → IsWell (publish range exchange_name routing_key body s).1
    publish-IsWell w = elim (Option-cases (lookup exchange_name s.broker.exchanges)) [
      | inl e ↦ rw (publish_missing e) (count-IsWell _ w)
      | inr (x, e) ↦ rw (publish_found x e) (
          publish_all-IsWell (listed x) (counted x)
            (count_unroutable-IsWell (listed x) _ (count-IsWell _ w)))
    ]
