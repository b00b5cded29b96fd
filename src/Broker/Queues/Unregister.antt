-- ===== src/Broker/Queues/Unregister.antt =====
-- unregisterConsumer of broker/queue.go: who is registered, and where the messages are.
use mathlib.Core.List.Perm
use mathlib.Core.List.{perm_append_comm, append_assoc}
use golang_mq.Base.{
  ℕ, ◌≡◌, refl, true, false, List, [], ◌∷◌, ◌++◌, arith, nat_beq, nat_beq_iff, nat_eq, Perm, inl,
  inr, Bool-cases, sym, subst, ◌∙◌, ◌⊎◌,
}
use golang_mq.Base.Map.{member, remove, IsDistinct}
use golang_mq.Base.Map.Laws.{member-remove, member-remove_ne, remove-absent}
use golang_mq.Broker.Range.{Range}
use golang_mq.Broker.State.{Message, Consumer, Queue, Server, update}
use golang_mq.Broker.State.Updates.{update_all, nat_beq_refl}
use golang_mq.Broker.Consumers.Books.{IsSound}
use golang_mq.Broker.Queues.{leave, unregister_consumer}
use golang_mq.Broker.Queues.Held.{held, pending, pending_of, pending_of_same, IsUnique}
use golang_mq.Broker.Queues.Keeps.{AgreeBut-update, not_elsewhere}
use golang_mq.Broker.Queues.Returns.{
  returned, returned-perm, tags-returned, inflight-returned, messages-give_back, queue-give_back,
  consumer-give_back,
}
use golang_mq.Broker.Invariant.{IsWell, count-IsWell}

pub member_of_remove : (j k : ℕ) (ks : List ℕ) → member j (remove k ks) ≡ true → member j ks ≡ true
member_of_remove j k ks h = elim (Bool-cases (nat_beq k j)) [
  | inl e ↦ ground (arith, member-remove k ks, nat_beq_iff k j)
  | inr e ↦ sym (member-remove_ne k j ks e) ∙ h
]

pub remove-IsUnique : (k : ℕ) (ks : List ℕ) → IsUnique ks → IsUnique (remove k ks)
unfolding IsUnique remove
remove-IsUnique k [] u = tt
remove-IsUnique k (j ∷ ks) u = elim (Bool-cases (nat_beq j k)) [
  | inl e ↦ rw e (remove-IsUnique k ks u.1)
  | inr e ↦ rw e (
    member-remove_ne k j ks (ground (arith, nat_beq_iff j k, nat_beq_iff k j)) ∙ u.0,
    remove-IsUnique k ks u.1,
  )
]

pending_of_remove :
    (f : ℕ → Consumer) (k : ℕ) (ks : List ℕ)
    → IsUnique ks
    → member k ks ≡ true
    → Perm (pending_of f ks) (pending (f k) ++ pending_of f (remove k ks))
unfolding IsUnique member remove pending_of
pending_of_remove f k [] u h = cc
pending_of_remove f k (j ∷ ks) u h = elim (Bool-cases (nat_beq j k)) [
  | inl e ↦
      let p : j ≡ k = (nat_beq_iff j k).0 e in rw (e, p, remove-absent k ks (rw p at u.0)) Perm.rfl
  | inr e ↦ rw e (
      Perm.trans (Perm.append_left (pending (f j)) (pending_of_remove f k ks u.1 (ground arith)))
        (rotate (pending (f j)) (pending (f k)) (pending_of f (remove k ks))))
]
  where
    rotate : (a b c : List Message) → Perm (a ++ (b ++ c)) (b ++ (a ++ c))
    rotate a b c =
        rw (← append_assoc a b c, ← append_assoc b a c) (Perm.append_right c (perm_append_comm a b))

-- The server once the queue at `i` is `q` and the consumer at `k` is `c`, where `q` has lost `k` and
-- has got the messages that were pending there.
module _ (i k : ℕ) (q : Queue) (c : Consumer) (s : Server) (w : IsWell s)
    (here : member k (s.queue i).consumers ≡ true)
    (left : q.consumers ≡ remove k (s.queue i).consumers) (called : q.name ≡ (s.queue i).name)
    (same : c.queue ≡ (s.consumer k).queue) (bare : c.pending_messages ≡ []) (sound : IsSound c)
    (back : Perm q.messages (pending (s.consumer k) ++ (s.queue i).messages)) where
  abbrev replaced : Server
  replaced = record s { queue = update i q s.queue; consumer = update k c s.consumer }

  still_member :
      (j l : ℕ)
      → member l (replaced.queue j).consumers ≡ true
      → member l (s.queue j).consumers ≡ true
  still_member j l h = elim (Bool-cases (nat_beq i j)) [
    | inl e ↦ member_of_remove l k (s.queue j).consumers (ground (arith, left, nat_beq_iff i j))
    | inr e ↦ ground arith
  ]

  stays :
      (l : ℕ)
      → nat_beq k l ≡ false
      → ((s.consumer l).pending_messages ≡ [])
        ⊎ (member l (s.queue (s.consumer l).queue).consumers ≡ true)
      → ((s.consumer l).pending_messages ≡ [])
        ⊎ (member l (replaced.queue (s.consumer l).queue).consumers ≡ true)
  stays l e (inl none_pending) = inl none_pending
  stays l e (inr there) = inr (
      ground (
        arith,
        left,
        nat_beq_iff i (s.consumer l).queue,
        member-remove_ne k l (s.queue i).consumers e,
      ))

  replaced-IsWell : IsWell replaced
  replaced-IsWell = record {
    unique =
        update_all (λ (x : Queue). IsUnique x.consumers) i q s.queue
          (rw left (remove-IsUnique k (s.queue i).consumers (w.unique i))) w.unique;
    owner = λ j l h. ground (arith, w.owner j l (still_member j l h), nat_beq_iff k l);
    young = λ j l h. w.young j l (still_member j l h);
    made = λ j l h. w.made j l (still_member j l h);
    home = λ l. elim (Bool-cases (nat_beq k l)) [
      | inl e ↦ inl (rw e bare)
      | inr e ↦ rw e (stays l e (w.home l))
    ];
    known = w.known;
    named = λ name j h. ground (arith, w.named name j h, called, nat_beq_iff i j);
    books = update_all IsSound k c s.consumer sound w.books;
  }

  same_pending :
      (ks : List ℕ)
      → member k ks ≡ false
      → pending_of replaced.consumer ks ≡ pending_of s.consumer ks
  same_pending = pending_of_same k s.consumer replaced.consumer (AgreeBut-update k c s.consumer)

  held-replaced : (j : ℕ) → Perm (held replaced j) (held s j)
  unfolding held
  held-replaced j = elim (Bool-cases (nat_beq i j)) [
    | inl e ↦
        rw
          (
            ← (nat_beq_iff i j).0 e,
            nat_beq_refl i,
            left,
            same_pending (remove k (s.queue i).consumers) (member-remove k (s.queue i).consumers),
          )
          (Perm.trans
            (Perm.append_right (pending_of s.consumer (remove k (s.queue i).consumers)) back)
            (regroup (pending (s.consumer k)) (s.queue i).messages _ _
              (pending_of_remove s.consumer k (s.queue i).consumers (w.unique i) here)))
    | inr e ↦ rw (e, same_pending (s.queue j).consumers (not_elsewhere i j k w here e)) Perm.rfl
  ]
    where
      regroup : (a b r p : List Message) → Perm p (a ++ r) → Perm ((a ++ b) ++ r) (b ++ p)
      regroup a b r p h =
          Perm.trans (Perm.append_right r (perm_append_comm a b))
            (rw (append_assoc b a r) (Perm.append_left b (Perm.symm h)))

module _ (range : Range) (i k : ℕ) (s : Server) where
  abbrev without : Queue
  without = record (s.queue i) { consumers = remove k (s.queue i).consumers }

  left_queue : (leave range i k s).0.consumers ≡ remove k (s.queue i).consumers
  unfolding leave
  left_queue = (queue-give_back (returned range (s.consumer k)) without (s.consumer k)).0

  left_name : (leave range i k s).0.name ≡ (s.queue i).name
  unfolding leave
  left_name = (queue-give_back (returned range (s.consumer k)) without (s.consumer k)).2

  left_owner : (leave range i k s).1.queue ≡ (s.consumer k).queue
  unfolding leave
  left_owner = (consumer-give_back (returned range (s.consumer k)) without (s.consumer k)).0

  left_books :
      IsSound (s.consumer k) → IsSound (record (leave range i k s).1 { pending_messages = [] })
  unfolding leave IsDistinct
  left_books v = record {
    tagged = tags-returned range without (s.consumer k) v;
    distinct = tt;
    keyed = tt;
    counted = inflight-returned range without (s.consumer k) v;
    within = omega arith;
  }

  left_messages :
      IsSound (s.consumer k)
      → Perm (leave range i k s).0.messages (pending (s.consumer k) ++ (s.queue i).messages)
  unfolding leave
  left_messages v =
      Perm.trans (messages-give_back (returned range (s.consumer k)) without (s.consumer k))
        (Perm.append_right (s.queue i).messages (returned-perm range without (s.consumer k) v))

  -- Whether or not the consumer is registered, unregistering it loses no message of any queue, makes
  -- none up, and keeps the invariant.
  pub unregister-IsWell : IsWell s → IsWell (unregister_consumer range i k s)
  unfolding unregister_consumer
  unregister-IsWell w = elim (Bool-cases (member k (s.queue i).consumers)) [
    | inl here ↦ rw here (
        count-IsWell _ (
          replaced-IsWell i k _ _ s w here left_queue left_name left_owner refl
            (left_books (w.books k)) (left_messages (w.books k))))
    | inr gone ↦ rw gone w
  ]

  -- If the invariant holds, unregistering a consumer loses no message of any queue and makes none
  -- up: what the consumer has pending is back in line.
  pub held-unregister :
      IsWell s → (j : ℕ) → Perm (held (unregister_consumer range i k s) j) (held s j)
  unfolding unregister_consumer held
  held-unregister w j = elim (Bool-cases (member k (s.queue i).consumers)) [
    | inl here ↦ rw here (
        held-replaced i k _ _ s w here left_queue left_name left_owner refl (left_books (w.books k))
          (left_messages (w.books k)) j)
    | inr gone ↦ rw gone Perm.rfl
  ]

  -- Afterwards the consumer is not registered with the queue.
  pub member-unregister : member k ((unregister_consumer range i k s).queue i).consumers ≡ false
  unfolding unregister_consumer
  member-unregister = elim (Bool-cases (member k (s.queue i).consumers)) [
    | inl here ↦ rw (here, nat_beq_refl i, left_queue) (member-remove k (s.queue i).consumers)
    | inr gone ↦ rw gone gone
  ]

  consumers_after :
      member k (s.queue i).consumers ≡ true
      → ((unregister_consumer range i k s).queue i).consumers ≡ remove k (s.queue i).consumers
  unfolding unregister_consumer
  consumers_after here = rw (here, nat_beq_refl i, left_queue)

  -- Nobody is registered by it.
  pub registered_after :
      (j l : ℕ)
      → member l ((unregister_consumer range i k s).queue j).consumers ≡ true
      → member l (s.queue j).consumers ≡ true
  unfolding unregister_consumer
  registered_after j l h = elim (Bool-cases (member k (s.queue i).consumers)) [
    | inl here ↦ elim (Bool-cases (nat_beq i j)) [
      | inl at ↦
          let e : i ≡ j = (nat_beq_iff i j).0 at in
          member_of_remove l k (s.queue j).consumers (
            subst (λ x. member l (remove k (s.queue x).consumers) ≡ true) e
              (rw (← consumers_after here) (rw (← e) at h)))
      | inr off ↦ ground arith
    ]
    | inr gone ↦ rw gone at h
  ]

  -- Channels and connections are as they were.
  pub channel-unregister :
      ((unregister_consumer range i k s).channel ≡ s.channel)
      × ((unregister_consumer range i k s).connection ≡ s.connection)
  unfolding unregister_consumer
  channel-unregister = elim (Bool-cases (member k (s.queue i).consumers)) [
    | inl here ↦ rw here (refl, refl)
    | inr gone ↦ rw gone (refl, refl)
  ]
