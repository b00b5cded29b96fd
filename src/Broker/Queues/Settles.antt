-- ===== src/Broker/Queues/Settles.antt =====
-- The messages of the queues when a delivery tag is settled, and when a message is put back in line.
use mathlib.Core.List.Perm
use mathlib.Core.List.{perm_middle}
use golang_mq.Base.{
  ℕ, ◌≡◌, refl, ap, true, false, some, List, ◌∷◌, ◌++◌, arith, nat_beq, nat_beq_iff, nat_eq, Perm,
  inl, inr, Bool-cases, sym,
}
use golang_mq.Base.Map.{member, lookup}
use golang_mq.Broker.State.{Message, Consumer, Server, update, set_queue, set_consumer}
use golang_mq.Broker.State.Updates.{update_all, nat_beq_refl}
use golang_mq.Broker.Consumers.{settle}
use golang_mq.Broker.Consumers.Books.{IsSound, settle-IsSound, values-settle}
use golang_mq.Broker.Queues.{push_front}
use golang_mq.Broker.Queues.Held.{held, pending_of, pending_of_same, pending_of_grow, AgreeBut}
use golang_mq.Broker.Queues.Keeps.{AgreeBut-update, not_elsewhere}
use golang_mq.Broker.Invariant.{IsWell, Spares-IsWell}

abbrev pub settle_at : ℕ → ℕ → Server → Server
settle_at k t s = set_consumer k (settle t (s.consumer k)) s

abbrev pub push_at : ℕ → Message → Server → Server
push_at i m s = set_queue i (push_front m (s.queue i)) s

pub push_at-IsWell : (i : ℕ) (m : Message) (s : Server) → IsWell s → IsWell (push_at i m s)
unfolding push_front
push_at-IsWell i m s w =
    Spares-IsWell {s = s}
      (record {
        registered = λ j. ground (arith, nat_beq_iff i j);
        names = λ j. ground (arith, nat_beq_iff i j);
        consumers = λ k. refl;
        queues = refl;
        later = omega arith;
      })
      w

pub held-push_at : (i : ℕ) (m : Message) (s : Server) → held (push_at i m s) i ≡ m ∷ held s i
unfolding push_front held
held-push_at i m s = rw (nat_beq_refl i)

pub held-push_at_ne :
    (i j : ℕ) (m : Message) (s : Server) → nat_beq i j ≡ false → held (push_at i m s) j ≡ held s j
unfolding push_front held
held-push_at_ne i j m s h = rw h

module _ (k t : ℕ) (s : Server) where
  settled : ℕ → Consumer
  settled = update k (settle t (s.consumer k)) s.consumer

  differs : AgreeBut k settled s.consumer
  unfolding settled
  differs j h = sym (AgreeBut-update k (settle t (s.consumer k)) s.consumer j h)

  -- A queue with which `k` is not registered keeps its messages.
  pub held-settle_at_ne :
      (i : ℕ) → member k (s.queue i).consumers ≡ false → held (settle_at k t s) i ≡ held s i
  unfolding held settled
  held-settle_at_ne i absent =
      ap (λ (l : List Message). (s.queue i).messages ++ l)
        (sym (pending_of_same k settled s.consumer differs (s.queue i).consumers absent))

module _ (k t : ℕ) (m : Message) (s : Server) (w : IsWell s)
    (pends : lookup t (s.consumer k).pending_messages ≡ some m) where
  pub settle_at-IsWell : IsWell (settle_at k t s)
  unfolding settle
  settle_at-IsWell = record {
    unique = w.unique;
    owner = λ j l h. ground (arith, w.owner j l, nat_beq_iff k l);
    young = w.young;
    made = w.made;
    home = λ l. ground (arith, w.home l, nat_beq_iff k l);
    known = w.known;
    named = w.named;
    books =
        update_all IsSound k (settle t (s.consumer k)) s.consumer
          (settle-IsSound t (s.consumer k) pends (w.books k)) w.books;
  }

  -- The queue that `k` is registered with loses the message.
  pub held-settle_at :
      (i : ℕ)
      → member k (s.queue i).consumers ≡ true
      → Perm (held s i) (m ∷ held (settle_at k t s) i)
  unfolding held settled
  held-settle_at i here =
      Perm.trans
        (Perm.append_left (s.queue i).messages (
          pending_of_grow k (settled k t s) s.consumer (differs k t s) m (s.queue i).consumers
            (rw (nat_beq_refl k) (values-settle t (s.consumer k) pends (w.books k))) (w.unique i)
            here))
        (perm_middle (s.queue i).messages (pending_of (settled k t s) (s.queue i).consumers))

  -- Settled and put back in line, the message is with its queue as before, and so are all others.
  pub held-put_back :
      (i : ℕ)
      → member k (s.queue i).consumers ≡ true
      → (j : ℕ) → Perm (held (push_at i m (settle_at k t s)) j) (held s j)
  held-put_back i here j = elim (Bool-cases (nat_beq i j)) [
    | inl at ↦
        rw (← (nat_beq_iff i j).0 at, held-push_at i m (settle_at k t s))
          (Perm.symm (held-settle_at i here))
    | inr off ↦
        rw
          (
            held-push_at_ne i j m (settle_at k t s) off,
            held-settle_at_ne k t s j (not_elsewhere i j k w here off),
          )
          Perm.rfl
  ]
