-- ===== src/Broker/Exchanges/Routing.antt =====
-- bind and getQueues of broker/exchange.go: which queues a routing key leads to.
use mathlib.Core.Logic.{∥∥₁_elim}
use mathlib.Core.List.Perm
use mathlib.Core.List.{Perm-prop, Permᴰ, append_assoc, append-nil, perm_append_comm}
use golang_mq.Base.{
  ℕ, String, ◌≡◌, refl, none, [], ◌∷◌, arith, string_eq, Perm, inl, inr, Bool-cases, ◌==◌,
  if◌then◌else◌,
}
use golang_mq.Base.Map.{Map, values, lookup, insert, IsDistinct, lookup-insert}
use golang_mq.Base.Map.Perms.{values-perm}
use golang_mq.Broker.Range.{Range}
use golang_mq.Broker.State.{Exchange}
use golang_mq.Broker.Exchanges.{or_empty, bind, matching, collect, get_queues}

-- The queues that are bound under a key, by name.
abbrev pub bound : String → Exchange → Map String ℕ
bound routing_key e = or_empty (lookup routing_key e.bindings)

pub bound-bind :
    (queue_name : String) (i : ℕ) (rk routing_key : String) (e : Exchange)
    → bound routing_key (bind queue_name i rk e) ≡ (
        if rk == routing_key
        then insert queue_name i (bound routing_key e)
        else bound routing_key e)
unfolding bind
bound-bind queue_name i rk routing_key e = ground (
  arith,
  lookup-insert rk routing_key (insert queue_name i (or_empty (lookup rk e.bindings))) e.bindings,
  string_eq.beq_iff rk routing_key,
)

module _ (range : Range) (rk : String) where
  collect-permᴰ :
      {xs ys : Map String (Map String ℕ)}
      → Permᴰ xs ys
      → Perm (collect range rk xs) (collect range rk ys)
  unfolding collect
  collect-permᴰ Permᴰ.nil = Perm.rfl
  collect-permᴰ (Permᴰ.cons {b = b} e p) =
      rw e (Perm.append_left (matching range rk b) (collect-permᴰ p))
  collect-permᴰ (Permᴰ.swap {a' = a'} {b' = b'} {l = l} e f) =
      rw
        (
          e,
          f,
          ← append_assoc (matching range rk b') (matching range rk a') (collect range rk l),
          ← append_assoc (matching range rk a') (matching range rk b') (collect range rk l),
        )
        (Perm.append_right (collect range rk l)
          (perm_append_comm (matching range rk b') (matching range rk a')))
  collect-permᴰ (Permᴰ.trans p q) = Perm.trans (collect-permᴰ p) (collect-permᴰ q)

  collect_absent : (xs : Map String (Map String ℕ)) → lookup rk xs ≡ none → collect range rk xs ≡ []
  unfolding lookup collect
  collect_absent [] h = refl
  collect_absent ((k, m) ∷ xs) h = ground (arith, collect_absent xs)

  collect-lookup :
      (xs : Map String (Map String ℕ))
      → IsDistinct xs
      → Perm (collect range rk xs) (values (or_empty (lookup rk xs)))
  unfolding lookup collect IsDistinct
  collect-lookup [] d = Perm.rfl
  collect-lookup ((k, m) ∷ xs) d = elim (Bool-cases (k == rk)) [
    | inl e ↦
        rw (e, collect_absent xs (rw ((string_eq.beq_iff k rk).0 e) at d.0), append-nil)
          (values-perm (range.visit-perm _ m))
    | inr e ↦ rw e (collect-lookup xs d.1)
  ]

  -- If no key has two entries in the bindings, a key leads to each queue that is bound under it,
  -- once, and to no other.
  pub get_queues-perm :
      (e : Exchange) → IsDistinct e.bindings → Perm (get_queues range rk e) (values (bound rk e))
  unfolding get_queues
  get_queues-perm e d =
      Perm.trans (∥∥₁_elim (range.visit-perm _ e.bindings) Perm-prop collect-permᴰ)
        (collect-lookup e.bindings d)
