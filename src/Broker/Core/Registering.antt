-- ===== src/Broker/Core/Registering.antt =====
-- Broker.RegisterConsumer of broker/broker.go, on all its branches, and the invariant.
use golang_mq.Base.{
  ℕ, ◌≡◌, ◌<◌, String, refl, false, none, some, [], arith, nat_beq, nat_beq_iff, nat_eq, string_eq,
  inl, inr, Bool-cases, Option-cases, Option, length,
}
use golang_mq.Base.Map.{lookup, member, add, IsDistinct}
use golang_mq.Base.Map.Laws.{beq_refl, remove-absent}
use golang_mq.Broker.State.{Server, Consumer, Queue, Error, queue_not_found, tag_in_use}
use golang_mq.Broker.State.Updates.{update_all, nat_beq_refl}
use golang_mq.Broker.Consumers.{new_consumer}
use golang_mq.Broker.Consumers.Books.{IsSound}
use golang_mq.Broker.Queues.Held.{IsUnique}
use golang_mq.Broker.Core.{add_consumer, register}
use golang_mq.Broker.Invariant.{IsWell}

pub new_consumer-IsSound : (tag : String) (i id n h : ℕ) → IsSound (new_consumer tag i id n h)
unfolding new_consumer IsDistinct
new_consumer-IsSound tag i id n h = record {
  tagged = refl;
  distinct = tt;
  keyed = tt;
  counted = refl;
  within = omega arith;
}

not_young : (s : Server) (i : ℕ) → IsWell s → member s.next (s.queue i).consumers ≡ false
not_young s i w = elim (Bool-cases (member s.next (s.queue i).consumers)) [
  | inl there ↦ absurd (omega (arith, w.young i s.next there))
  | inr absent ↦ absent
]

add_consumer-IsWell :
    (i h : ℕ) (name : String) (c : Consumer) (s : Server)
    → i < s.next
    → c.queue ≡ i
    → c.pending_messages ≡ []
    → IsSound c
    → IsWell s
    → IsWell (add_consumer i h name c s)
unfolding add_consumer IsUnique member
add_consumer-IsWell i h name c s from own bare sound w = record {
  unique =
      update_all (λ (q : Queue). IsUnique q.consumers) i
        (record (s.queue i) { consumers = add s.next (s.queue i).consumers }) s.queue
        (rw (remove-absent s.next (s.queue i).consumers (not_young s i w))
          (not_young s i w, w.unique i))
        w.unique;
  owner = λ j l m. ground (
    arith,
    w.owner j l,
    w.young j l,
    nat_beq_iff i j,
    nat_beq_iff s.next l,
    remove-absent s.next (s.queue i).consumers,
    not_young s i w,
  );
  young = λ j l m. ground (
    arith,
    w.young j l,
    nat_beq_iff i j,
    nat_beq_iff s.next l,
    remove-absent s.next (s.queue i).consumers,
    not_young s i w,
  );
  made = λ j l m. ground (arith, w.made j l, from, nat_beq_iff i j);
  home = λ l. ground (
    arith,
    w.home l,
    nat_beq_iff s.next l,
    nat_beq_iff i (s.consumer l).queue,
    bare,
    own,
    nat_beq_refl i,
    nat_beq_refl s.next,
    remove-absent s.next (s.queue i).consumers,
    not_young s i w,
  );
  known = λ n j h. omega (arith, w.known n j h);
  named = λ n j h. ground (arith, w.named n j h, nat_beq_iff i j);
  books = update_all IsSound s.next c s.consumer sound w.books;
}

module _ (tag name : String) (h : ℕ) (s : Server) where
  -- The consumer that RegisterConsumer makes for the queue at `i`.
  abbrev made : ℕ → Consumer
  made i = new_consumer tag i (s.channel h).id (length (s.channel h).consumers) h

  -- An error changes nothing: it is reported if the queue is unknown, or if the tag, the client's or
  -- the generated one, is in use on the channel. Otherwise the new consumer stands under its tag on
  -- the channel and is registered with the queue, and with no other.
  pub data RegisterResult : Option Error × String × Server → Type 0 where
    no_queue : lookup name s.broker.queues ≡ none → RegisterResult (some queue_not_found, "", s)
    in_use :
        (i k : ℕ)
        → lookup name s.broker.queues ≡ some i
        → lookup (made i).tag (s.channel h).consumers ≡ some k
        → RegisterResult (some (tag_in_use (made i).tag (s.channel h).id), "", s)
    registers :
        (i k : ℕ) {s' : Server}
        → lookup name s.broker.queues ≡ some i
        → lookup (made i).tag (s.channel h).consumers ≡ none
        → lookup (made i).tag (s'.channel h).consumers ≡ some k
        → s'.consumer k ≡ made i
        → (s'.queue i).consumers ≡ add k (s.queue i).consumers
        → ((j : ℕ) → nat_beq i j ≡ false → s'.queue j ≡ s.queue j)
        → ((l : ℕ) → nat_beq k l ≡ false → s'.consumer l ≡ s.consumer l)
        → RegisterResult (none, (made i).tag, s')

  register_missing :
      lookup name s.broker.queues ≡ none → register tag name h s ≡ (some queue_not_found, "", s)
  unfolding register
  register_missing e = rw (e, register)

  register_refused :
      (i k : ℕ)
      → lookup name s.broker.queues ≡ some i
      → lookup (made i).tag (s.channel h).consumers ≡ some k
      → register tag name h s ≡ (some (tag_in_use (made i).tag (s.channel h).id), "", s)
  unfolding register
  register_refused i k e f = rw (e, register) (rw (f, register))

  register_new :
      (i : ℕ)
      → lookup name s.broker.queues ≡ some i
      → lookup (made i).tag (s.channel h).consumers ≡ none
      → register tag name h s ≡ (none, (made i).tag, add_consumer i h name (made i) s)
  unfolding register
  register_new i e f = rw (e, register) (rw (f, register))

  add_consumer-registers :
      (i : ℕ)
      → lookup name s.broker.queues ≡ some i
      → lookup (made i).tag (s.channel h).consumers ≡ none
      → RegisterResult (none, (made i).tag, add_consumer i h name (made i) s)
  unfolding add_consumer lookup
  add_consumer-registers i e f =
      registers i s.next e f (rw (nat_beq_refl h, beq_refl (made i).tag)) (rw (nat_beq_refl s.next))
        (rw (nat_beq_refl i)) (λ j off. rw off) (λ l off. rw off)

  -- A registration reports an error and changes nothing if the queue is unknown, or if the tag,
  -- the client's or the generated one, is in use on the channel. Otherwise the new consumer stands
  -- under its tag on the channel and is registered with the queue, in addition to those that were,
  -- and no other queue or consumer is touched.
  pub register-result : RegisterResult (register tag name h s)
  register-result = elim (Option-cases (lookup name s.broker.queues)) [
    | inl e ↦ rw (register_missing e) (no_queue e)
    | inr (i, e) ↦ elim (Option-cases (lookup (made i).tag (s.channel h).consumers)) [
      | inl f ↦ rw (register_new i e f) (add_consumer-registers i e f)
      | inr (k, f) ↦ rw (register_refused i k e f) (in_use i k e f)
    ]
  ]

  pub register-IsWell : IsWell s → IsWell (register tag name h s).2
  register-IsWell w = elim (Option-cases (lookup name s.broker.queues)) [
    | inl e ↦ rw (register_missing e) w
    | inr (i, e) ↦ elim (Option-cases (lookup (made i).tag (s.channel h).consumers)) [
      | inl f ↦ rw (register_new i e f) (
          add_consumer-IsWell i h name (made i) s (w.known name i e) (queue-new_consumer i)
            (pending-new_consumer i)
            (new_consumer-IsSound tag i (s.channel h).id (length (s.channel h).consumers) h) w)
      | inr (k, f) ↦ rw (register_refused i k e f) w
    ]
  ]
    where
      pending-new_consumer : (i : ℕ) → (made i).pending_messages ≡ []
      pending-new_consumer i = unfold new_consumer in refl

      queue-new_consumer : (i : ℕ) → (made i).queue ≡ i
      queue-new_consumer i = unfold new_consumer in refl
