-- ===== src/Broker/Tests/Dispatching.antt =====
-- dispatchLoop and unregisterConsumer on the run of Broker/Tests.antt.
use golang_mq.Base.{suc, ℕ, ◌≡◌, true, false, [], ◌∷◌, Perm, nat_eq, length}
use golang_mq.Base.Int.{pos}
use golang_mq.Base.Map.{values, member}
use golang_mq.Broker.Range.{in_order}
use golang_mq.Broker.Consumers.{is_free, hold}
use golang_mq.Broker.Consumers.Collisions.{hold-overwrites}
use golang_mq.Broker.State.{Message}
use golang_mq.Broker.Queues.{finish, unregister_consumer}
use golang_mq.Broker.Queues.Held.{held}
use golang_mq.Broker.Queues.Delivers.{
  take-oldest, take-keeps, finish-keeps, finish-take, finish_after_unregister,
}
use golang_mq.Broker.Queues.Unregister.{held-unregister}
use golang_mq.Broker.Collector.{collect_queue}
use golang_mq.Broker.Collector.Totals.{messages_in, messages_in-collect_queue}
use golang_mq.Broker.Invariant.{IsWell}
use golang_mq.Broker.Runs.Bounds.{Reach-IsWell}
use golang_mq.Broker.Tests.{
  served, served-IsWell, hi, delivery, delivering, served_takes, served_fresh, delivering-Reach,
  delivering-IsWell, delivering_pends, delivering_consumer,
}

Reach-IsWell_example : IsWell delivering
Reach-IsWell_example = Reach-IsWell in_order delivering-Reach

take-oldest_example :
    ((served.queue 3).messages ≡ hi ∷ (delivering.queue 3).messages)
    × (member 4 (served.queue 3).consumers ≡ true)
    × (is_free (served.consumer 4) ≡ true)
take-oldest_example = take-oldest in_order 3 served delivering delivery served_takes

take-keeps_example : IsWell delivering × ((j : ℕ) → Perm (held delivering j) (held served j))
take-keeps_example =
    take-keeps in_order 3 served delivering delivery served_takes served-IsWell served_fresh

finish-take_example :
    ((finish 3 delivery false delivering).queue 3 ≡ served.queue 3)
    × ((finish 3 delivery false delivering).consumer 4 ≡ served.consumer 4)
finish-take_example =
    finish-take in_order 3 served delivering delivery served_takes served-IsWell served_fresh

finish-keeps_example :
    IsWell (finish 3 delivery false delivering)
    × ((j : ℕ) → Perm (held (finish 3 delivery false delivering) j) (held delivering j))
finish-keeps_example =
    finish-keeps 3 delivery delivering delivering-IsWell delivering_consumer delivering_pends

finish_after_unregister_example :
    Perm
      (held (finish 3 delivery false (unregister_consumer in_order 3 4 delivering)) 3)
      (hi ∷ held served 3)
finish_after_unregister_example =
    finish_after_unregister in_order 3 served delivering delivery served_takes served-IsWell
      served_fresh

held-unregister_example :
    Perm (held (unregister_consumer in_order 3 4 delivering) 3) (held delivering 3)
held-unregister_example = held-unregister in_order 3 4 delivering delivering-IsWell 3

-- A message under the tag of the one that is pending.
abbrev again : Message
again = record { delivery_tag = 1; body = []; exchange = "work"; routing_key = "k" }

hold-overwrites_example :
    Perm
      (hi ∷ values (hold again (delivering.consumer 4)).pending_messages)
      (again ∷ values (delivering.consumer 4).pending_messages)
    × ((hold again (delivering.consumer 4)).inflight
        ≡ pos (suc (length (hold again (delivering.consumer 4)).pending_messages)))
hold-overwrites_example =
    hold-overwrites again hi (delivering.consumer 4) (delivering-IsWell.books 4) delivering_pends

messages_in-collect_queue_example :
    messages_in (collect_queue in_order delivering 3) ≡ length (held delivering 3)
messages_in-collect_queue_example =
    messages_in-collect_queue in_order delivering 3 delivering-IsWell
