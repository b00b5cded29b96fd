-- ===== src/Broker/Core/Declaring.antt =====
-- Broker.DeclareQueue, Broker.DeclareExchange and Broker.BindQueue.
use golang_mq.Base.{
  ℕ, String, ◌≡◌, refl, false, none, some, [], arith, string_eq, inl, inr, Option-cases, Option,
  ◌==◌, if◌then◌else◌, ◌∙◌, nat_beq, nat_beq_iff,
}
use golang_mq.Base.Map.{lookup, member, lookup-insert, insert}
use golang_mq.Base.Map.Laws.{beq_refl}
use golang_mq.Broker.State.{Server, Queue, Error, exchange_not_found, queue_not_found}
use golang_mq.Broker.State.Updates.{update_all, nat_beq_refl}
use golang_mq.Broker.Queues.{new_queue}
use golang_mq.Broker.Queues.Held.{IsUnique}
use golang_mq.Broker.Exchanges.Routing.{bound, bound-bind}
use golang_mq.Broker.Core.{declare_queue, declare_exchange, bind_queue}
use golang_mq.Broker.Invariant.{IsWell, Spares-IsWell}

module _ (name dlx key : String) (s : Server) where
  declare_queue_known :
      {i : ℕ} → lookup name s.broker.queues ≡ some i → declare_queue name dlx key s ≡ s
  unfolding declare_queue
  declare_queue_known e = rw (e, declare_queue)

  -- After a declaration the name leads to the queue that it led to before, or else to a new one;
  -- all other names lead where they led.
  pub lookup-declare_queue :
      (j : String)
      → lookup j (declare_queue name dlx key s).broker.queues ≡ (
          if name == j
          then some (elim (lookup name s.broker.queues) [ none ↦ s.next | some i ↦ i ])
          else lookup j s.broker.queues)
  unfolding declare_queue
  lookup-declare_queue j =
      ground (arith, lookup-insert name j s.next s.broker.queues, string_eq.beq_iff name j)

  pub declare_queue-IsWell : IsWell s → IsWell (declare_queue name dlx key s)
  unfolding declare_queue member
  declare_queue-IsWell w = elim (Option-cases (lookup name s.broker.queues)) [
    | inl e ↦
        rw (e, declare_queue)
          (record {
            unique =
                update_all (λ (q : Queue). IsUnique q.consumers) s.next (new_queue name dlx key)
                  s.queue none_unique w.unique;
            owner = λ j k m. ground (arith, w.owner j k, nat_beq_iff s.next j);
            young = λ j k m. ground (arith, w.young j k, nat_beq_iff s.next j);
            made = λ j k m. ground (arith, w.made j k, nat_beq_iff s.next j);
            home = λ k. ground (
              arith,
              w.home k,
              w.made (s.consumer k).queue k,
              nat_beq_iff s.next (s.consumer k).queue,
            );
            known =
                λ n j h. ground (arith, w.known n j, lookup-insert name n s.next s.broker.queues);
            named = λ n j h. ground (
              arith,
              w.named n j,
              w.known n j,
              nat_beq_iff s.next j,
              string_eq.beq_iff name n,
              lookup-insert name n s.next s.broker.queues,
            );
            books = w.books;
          })
    | inr (i, e) ↦ rw (e, declare_queue) w
  ]
    where
      none_unique : IsUnique []
      none_unique = unfold IsUnique in tt

-- A queue that is declared again stays as it is, whatever dead-letter settings the second call
-- has.
pub declare_queue_idem :
    (name dlx key dlx' key' : String) (s : Server)
    → declare_queue name dlx' key' (declare_queue name dlx key s) ≡ declare_queue name dlx key s
declare_queue_idem name dlx key dlx' key' s =
    declare_queue_known name dlx' key' (declare_queue name dlx key s)
      {i = elim (lookup name s.broker.queues) [ none ↦ s.next | some i ↦ i ]}
      (lookup-declare_queue name dlx key s name ∙ rw (beq_refl name))

pub declare_exchange-IsWell :
    (name : String) (s : Server) → IsWell s → IsWell (declare_exchange name s)
unfolding declare_exchange
declare_exchange-IsWell name s w = elim (Option-cases (lookup name s.broker.exchanges)) [
  | inl e ↦
      rw (e, declare_exchange)
        (Spares-IsWell {s = s}
          (record {
            registered = λ j. refl;
            names = λ j. refl;
            consumers = λ k. refl;
            queues = refl;
            later = omega arith;
          })
          w)
  | inr (x, e) ↦ rw (e, declare_exchange) w
]

module _ (exchange_name queue_name routing_key : String) (s : Server) where
  -- BindQueue reports the first of the two names that is unknown, and then changes nothing; else the
  -- key leads from the exchange to the queue, besides where it led, and nothing else changes.
  pub data BindResult : Option Error × Server → Type 0 where
    no_exchange :
        lookup exchange_name s.broker.exchanges ≡ none → BindResult (some exchange_not_found, s)
    no_queue :
        (x : ℕ)
        → lookup exchange_name s.broker.exchanges ≡ some x
        → lookup queue_name s.broker.queues ≡ none
        → BindResult (some queue_not_found, s)
    binds :
        (x i : ℕ) {s' : Server}
        → lookup exchange_name s.broker.exchanges ≡ some x
        → lookup queue_name s.broker.queues ≡ some i
        → ((rk : String)
            → bound rk (s'.exchange x) ≡ (
                if routing_key == rk
                then insert (s.queue i).name i (bound rk (s.exchange x))
                else bound rk (s.exchange x)))
        → ((y : ℕ) → nat_beq x y ≡ false → s'.exchange y ≡ s.exchange y)
        → s' ≡ record s { exchange = s'.exchange }
        → BindResult (none, s')

  -- A binding reports the first of the two names that is unknown, and then changes nothing; else
  -- the key leads from the exchange to the queue, in addition to where it led, other keys lead
  -- where they led, and nothing but the exchange changes.
  pub bind-result : BindResult (bind_queue exchange_name queue_name routing_key s)
  unfolding bind_queue
  bind-result = elim (Option-cases (lookup exchange_name s.broker.exchanges)) [
    | inl e ↦ rw (e, bind_queue) (no_exchange e)
    | inr (x, e) ↦ elim (Option-cases (lookup queue_name s.broker.queues)) [
      | inl f ↦ rw (e, bind_queue) (rw (f, bind_queue) (no_queue x e f))
      | inr (i, f) ↦
          rw (e, bind_queue)
            (rw (f, bind_queue)
              (binds x i e f
                (λ rk.
                  rw (nat_beq_refl x) (bound-bind (s.queue i).name i routing_key rk (s.exchange x)))
                (λ y off. rw off) refl))
    ]
  ]

  pub bind_queue-IsWell : IsWell s → IsWell (bind_queue exchange_name queue_name routing_key s).1
  bind_queue-IsWell w = kept bind-result
    where
      kept : {r : Option Error × Server} → BindResult r → IsWell r.1
      kept (no_exchange e) = w
      kept (no_queue x e f) = w
      kept (binds x i e f g o same) = rw same (
          Spares-IsWell {s = s}
            (record {
              registered = λ j. refl;
              names = λ j. refl;
              consumers = λ k. refl;
              queues = refl;
              later = omega arith;
            })
            w)
