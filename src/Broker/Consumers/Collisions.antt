-- ===== src/Broker/Consumers/Collisions.antt =====
-- What a consumer's books become when a message comes under a tag that is still pending: tags are
-- `uint16` and wrap around.
use mathlib.Core.List.Perm
use golang_mq.Base.{suc, ◌≡◌, some, ◌∷◌, nat_eq, Perm, length, arith}
use golang_mq.Base.Int.{pos, inc}
use golang_mq.Base.Map.{values, lookup, delete}
use golang_mq.Base.Map.Laws.{values-delete-perm, length-delete}
use golang_mq.Broker.State.{Message, Consumer}
use golang_mq.Broker.Consumers.{hold}
use golang_mq.Broker.Consumers.Books.{IsSound}

-- If the books of a consumer are sound and a message is held under a tag that is pending already,
-- then the new message takes the place of the old one, which is pending no more, and the counter
-- of messages in flight exceeds the number of those pending by one.
pub hold-overwrites :
    (m old : Message) (c : Consumer)
    → IsSound c
    → lookup m.delivery_tag c.pending_messages ≡ some old
    → Perm (old ∷ values (hold m c).pending_messages) (m ∷ values c.pending_messages)
      × ((hold m c).inflight ≡ pos (suc (length (hold m c).pending_messages)))
unfolding hold inc
hold-overwrites m old c v pends = (
  Perm.trans (Perm.swap m old (values (delete m.delivery_tag c.pending_messages))) (
      Perm.cons m
        (Perm.symm (values-delete-perm m.delivery_tag c.pending_messages v.distinct pends))),
  rw v.counted (ground (arith, length-delete m.delivery_tag c.pending_messages v.distinct pends)),
)
