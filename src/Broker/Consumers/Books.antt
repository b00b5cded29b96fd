-- ===== src/Broker/Consumers/Books.antt =====
-- The books of a consumer, `inflight`, `inflightTags` and `pendingMessages`, and when they agree.
use mathlib.Core.List.Perm
use golang_mq.Base.{
  ℕ, suc, ◌≡◌, refl, ◌≤◌, true, false, some, none, [], ◌∷◌, arith, length, nat_eq, Perm,
}
use golang_mq.Base.Int.{pos, below, dec-inc}
use golang_mq.Base.Map.{Map, keys, values, lookup, delete, member, IsDistinct}
use golang_mq.Base.Map.Laws.{
  keys-insert, keys-delete, insert-IsDistinct, delete-IsDistinct, delete_absent, length-delete,
  values-delete-perm, remove-add, delete-insert, not_member_of_none,
}
use golang_mq.Broker.State.{Message, Consumer}
use golang_mq.Broker.Consumers.{hold, settle, is_free}

-- Each message stands under its own delivery tag.
abbrev pub IsKeyed : Map ℕ Message → Type 0
IsKeyed [] = Unit
IsKeyed ((k, m) ∷ rest) = (m.delivery_tag ≡ k) × IsKeyed rest

pub record IsSound (c : Consumer) : Type 0 where
  pub tagged : c.inflight_tags ≡ keys c.pending_messages
  pub distinct : IsDistinct c.pending_messages
  pub keyed : IsKeyed c.pending_messages
  pub counted : c.inflight ≡ pos (length c.pending_messages)
  pub within : length c.pending_messages ≤ c.prefetch

pub delete-IsKeyed : (t : ℕ) (m : Map ℕ Message) → IsKeyed m → IsKeyed (delete t m)
unfolding delete
delete-IsKeyed t [] h = tt
delete-IsKeyed t ((k, m) ∷ rest) h = ground (arith, delete-IsKeyed t rest h.1)

module _ (m : Message) (c : Consumer) (new : lookup m.delivery_tag c.pending_messages ≡ none) where
  pub pending-hold : (hold m c).pending_messages ≡ (m.delivery_tag, m) ∷ c.pending_messages
  unfolding hold
  pending-hold = rw (delete_absent m.delivery_tag c.pending_messages new)

  -- Holding a message adds it to those that are pending.
  pub values-hold : Perm (values (hold m c).pending_messages) (m ∷ values c.pending_messages)
  values-hold = rw pending-hold Perm.rfl

  pub hold-IsSound : is_free c ≡ true → IsSound c → IsSound (hold m c)
  unfolding hold is_free
  hold-IsSound free v = record {
    tagged = rw (v.tagged, keys-insert m.delivery_tag m c.pending_messages);
    distinct = insert-IsDistinct m.delivery_tag m c.pending_messages v.distinct;
    keyed = (refl, delete-IsKeyed m.delivery_tag c.pending_messages v.keyed);
    counted = rw (v.counted, delete_absent m.delivery_tag c.pending_messages new);
    within =
        rw (delete_absent m.delivery_tag c.pending_messages new)
          (free_below c.prefetch (length c.pending_messages) (rw v.counted at free));
  }
    where
      free_below : (p n : ℕ) → below (pos n) p ≡ true → suc n ≤ p
      free_below p n h = ground arith

-- Held under a tag that is not pending and then settled, a message leaves no trace in the books of
-- a consumer whose books are sound.
pub settle-hold :
    (m : Message) (c : Consumer)
    → lookup m.delivery_tag c.pending_messages ≡ none
    → IsSound c
    → settle m.delivery_tag (hold m c) ≡ c
unfolding settle hold
settle-hold m c new v = ground (
  arith,
  dec-inc c.inflight,
  remove-add m.delivery_tag c.inflight_tags absent,
  delete-insert m.delivery_tag m c.pending_messages new,
)
  where
    absent : member m.delivery_tag c.inflight_tags ≡ false
    absent = rw v.tagged (not_member_of_none m.delivery_tag c.pending_messages new)

module _ (t : ℕ) (c : Consumer) {m : Message} (held : lookup t c.pending_messages ≡ some m) where
  pub settle-IsSound : IsSound c → IsSound (settle t c)
  unfolding settle
  settle-IsSound v = record {
    tagged = rw (v.tagged, keys-delete t c.pending_messages);
    distinct = delete-IsDistinct t c.pending_messages v.distinct;
    keyed = delete-IsKeyed t c.pending_messages v.keyed;
    counted = rw (v.counted, length-delete t c.pending_messages v.distinct held);
    within = omega (arith, v.within, length-delete t c.pending_messages v.distinct held);
  }

  -- Settling a tag takes away the one message that was pending under it.
  pub values-settle :
      IsSound c → Perm (values c.pending_messages) (m ∷ values (settle t c).pending_messages)
  unfolding settle
  values-settle v = values-delete-perm t c.pending_messages v.distinct held

-- A pending message has the tag that it is looked up by.
pub delivery_tag_of_lookup :
    (t : ℕ) (p : Map ℕ Message) {m : Message} → IsKeyed p → lookup t p ≡ some m → m.delivery_tag ≡ t
unfolding lookup
delivery_tag_of_lookup t [] h e = cc
delivery_tag_of_lookup t ((k, x) ∷ rest) {m} h e =
    ground (arith, delivery_tag_of_lookup t rest {m = m} h.1)
