-- ===== src/Broker/Queues/Returns.antt =====
-- The loop of unregisterConsumer over the pending messages.
use mathlib.Core.List.Perm
use mathlib.Core.List.{perm_middle}
use golang_mq.Base.{
  ℕ, ◌≡◌, refl, ap, true, false, List, [], ◌∷◌, ◌++◌, map, arith, nat_beq, nat_beq_iff, nat_eq,
  Perm, inl, inr, Bool-cases, sym, ◌∙◌, length,
}
use golang_mq.Base.Int.{pos}
use golang_mq.Base.Map.{Map, keys, values, member}
use golang_mq.Base.Map.Laws.{member-remove, member-remove_ne}
use golang_mq.Base.Map.Members.{member-perm}
use golang_mq.Base.Map.Perms.{length-perm, length-values, values-perm, nil_of_no_member}
use golang_mq.Broker.Range.{Range}
use golang_mq.Broker.State.{Message, Consumer, Queue}
use golang_mq.Broker.Consumers.Books.{IsSound, IsKeyed}
use golang_mq.Broker.Queues.{give_back, push_front}

abbrev pub tags_of : List Message → List ℕ
tags_of = map (λ m. m.delivery_tag)

tags_of-values : (p : Map ℕ Message) → IsKeyed p → tags_of (values p) ≡ keys p
tags_of-values [] h = refl
tags_of-values ((k, m) ∷ p) h = rw (h.0, tags_of-values p h.1)

pub messages-give_back :
    (ms : List Message) (q : Queue) (c : Consumer)
    → Perm (give_back ms q c).0.messages (ms ++ q.messages)
unfolding give_back
messages-give_back [] q c = Perm.rfl
messages-give_back (m ∷ ms) q c = Perm.trans (messages-give_back ms _ _) (perm_middle ms q.messages)

-- What the loop leaves alone.
pub queue-give_back :
    (ms : List Message) (q : Queue) (c : Consumer)
    → ((give_back ms q c).0.consumers ≡ q.consumers)
      × ((give_back ms q c).0.next_tag ≡ q.next_tag)
      × ((give_back ms q c).0.name ≡ q.name)
unfolding give_back
queue-give_back [] q c = (refl, refl, refl)
queue-give_back (m ∷ ms) q c = queue-give_back ms (push_front m q) _

pub consumer-give_back :
    (ms : List Message) (q : Queue) (c : Consumer)
    → ((give_back ms q c).1.queue ≡ c.queue) × ((give_back ms q c).1.tag ≡ c.tag)
unfolding give_back
consumer-give_back [] q c = (refl, refl)
consumer-give_back (m ∷ ms) q c = consumer-give_back ms _ _

pub inflight-give_back :
    (ms : List Message) (q : Queue) (c : Consumer)
    → c.inflight ≡ pos (length ms)
    → (give_back ms q c).1.inflight ≡ pos 0
unfolding give_back
inflight-give_back [] q c h = h
inflight-give_back (m ∷ ms) q c h = inflight-give_back ms _ _ (rw h)

absent-give_back :
    (j : ℕ) (ms : List Message) (q : Queue) (c : Consumer)
    → member j c.inflight_tags ≡ false
    → member j (give_back ms q c).1.inflight_tags ≡ false
unfolding give_back
absent-give_back j [] q c h = h
absent-give_back j (m ∷ ms) q c h =
    absent-give_back j ms _ _ (elim (Bool-cases (nat_beq m.delivery_tag j)) [
      | inl e ↦
          rw (← (nat_beq_iff m.delivery_tag j).0 e) (member-remove m.delivery_tag c.inflight_tags)
      | inr e ↦ member-remove_ne m.delivery_tag j c.inflight_tags e ∙ h
    ])

cleared-give_back :
    (j : ℕ) (ms : List Message) (q : Queue) (c : Consumer)
    → member j (tags_of ms) ≡ true
    → member j (give_back ms q c).1.inflight_tags ≡ false
unfolding give_back member
cleared-give_back j [] q c h = cc
cleared-give_back j (m ∷ ms) q c h = elim (Bool-cases (nat_beq m.delivery_tag j)) [
  | inl e ↦
      absent-give_back j ms _ _
        (rw (← (nat_beq_iff m.delivery_tag j).0 e) (member-remove m.delivery_tag c.inflight_tags))
  | inr e ↦ cleared-give_back j ms _ _ (ground arith)
]

-- The pending messages in the order in which the loop visits them.
abbrev pub returned : Range → Consumer → List Message
returned range c = values (range.visit _ c.pending_messages)

module _ (range : Range) (q : Queue) (c : Consumer) (v : IsSound c) where
  pub returned-perm : Perm (returned range c) (values c.pending_messages)
  returned-perm = values-perm (range.visit-perm _ c.pending_messages)

  -- Every tag in flight is among those that are given back.
  member-returned : (j : ℕ) → member j (tags_of (returned range c)) ≡ member j c.inflight_tags
  member-returned j =
      member-perm j (Perm.map (λ m. m.delivery_tag) returned-perm)
      ∙ rw (tags_of-values c.pending_messages v.keyed, v.tagged)

  pub tags-returned : (give_back (returned range c) q c).1.inflight_tags ≡ []
  tags-returned = nil_of_no_member _ λ j. elim (Bool-cases (member j c.inflight_tags)) [
    | inl yes' ↦ cleared-give_back j (returned range c) q c (member-returned j ∙ yes')
    | inr no' ↦ absent-give_back j (returned range c) q c no'
  ]

  pub inflight-returned : (give_back (returned range c) q c).1.inflight ≡ pos 0
  inflight-returned =
      inflight-give_back (returned range c) q c
        (v.counted ∙ ap pos (sym (length-perm returned-perm ∙ length-values c.pending_messages)))
