-- ===== src/Broker/Invariant.antt =====
-- What holds of the server between two steps: which consumers a queue has, their books, and which
-- names lead to which queues.
use golang_mq.Base.{
  ℕ, ◌≡◌, ◌≤◌, ◌<◌, ◌⊎◌, inl, inr, String, refl, true, some, [], nat_eq, string_eq, arith,
}
use golang_mq.Base.Map.{member, lookup}
use golang_mq.Broker.State.{Server, Message, Count, Frame, count, write}
use golang_mq.Broker.Consumers.Books.{IsSound}
use golang_mq.Broker.Queues.Held.{IsUnique}

-- A consumer is registered with no queue but its own, once, and the addresses of both have been given
-- out; a consumer that is not registered has nothing pending; the books of every consumer are sound;
-- and the name of a queue leads to a queue of that name.
pub record IsWell (s : Server) : Type 0 where
  pub unique : (i : ℕ) → IsUnique (s.queue i).consumers
  pub owner : (i k : ℕ) → member k (s.queue i).consumers ≡ true → (s.consumer k).queue ≡ i
  pub young : (i k : ℕ) → member k (s.queue i).consumers ≡ true → k < s.next
  pub made : (i k : ℕ) → member k (s.queue i).consumers ≡ true → i < s.next
  pub home :
      (k : ℕ)
      → ((s.consumer k).pending_messages ≡ [])
        ⊎ (member k (s.queue (s.consumer k).queue).consumers ≡ true)
  pub books : (k : ℕ) → IsSound (s.consumer k)
  pub known : (name : String) (i : ℕ) → lookup name s.broker.queues ≡ some i → i < s.next
  pub named :
      (name : String) (i : ℕ) → lookup name s.broker.queues ≡ some i → (s.queue i).name ≡ name

-- A step that leaves alone the consumers, who is registered where, and the names of queues.
pub record Spares (s s' : Server) : Type 0 where
  pub registered : (i : ℕ) → (s'.queue i).consumers ≡ (s.queue i).consumers
  pub names : (i : ℕ) → (s'.queue i).name ≡ (s.queue i).name
  pub consumers : (k : ℕ) → s'.consumer k ≡ s.consumer k
  pub queues : s'.broker.queues ≡ s.broker.queues
  pub later : s.next ≤ s'.next

pub Spares-IsWell : {s s' : Server} → Spares s s' → IsWell s → IsWell s'
Spares-IsWell {s} {s'} p w = record {
  unique = λ i. rw p.registered (w.unique i);
  owner = λ i k h. rw p.consumers (w.owner i k (rw p.registered at h));
  young = λ i k h. omega (arith, p.later, w.young i k (rw p.registered at h));
  made = λ i k h. omega (arith, p.later, w.made i k (rw p.registered at h));
  home = λ k. rw (p.consumers k, p.registered) (w.home k);
  books = λ k. rw p.consumers (w.books k);
  known = λ name i h. omega (arith, p.later, w.known name i (rw p.queues at h));
  named = λ name i h. rw p.names (w.named name i (rw p.queues at h));
}

pub count-IsWell : (c : Count) {s : Server} → IsWell s → IsWell (count c s)
count-IsWell c {s} = Spares-IsWell {s = s} (record {
  registered = λ i. refl;
  names = λ i. refl;
  consumers = λ k. refl;
  queues = refl;
  later = omega arith;
})

pub write-IsWell : (f : Frame) {s : Server} → IsWell s → IsWell (write f s)
write-IsWell f {s} = Spares-IsWell {s = s} (record {
  registered = λ i. refl;
  names = λ i. refl;
  consumers = λ k. refl;
  queues = refl;
  later = omega arith;
})

-- A consumer with a message pending is registered.
pub registered_of_pending :
    {s : Server} (k tag : ℕ) {m : Message}
    → IsWell s
    → lookup tag (s.consumer k).pending_messages ≡ some m
    → member k (s.queue (s.consumer k).queue).consumers ≡ true
unfolding lookup
registered_of_pending {s} k tag {m} w h = elim (w.home k) [
  | inl none_pending ↦ let e : lookup tag [] ≡ some m = rw none_pending at h in cc e
  | inr there ↦ there
]
