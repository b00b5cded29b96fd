-- ===== src/Broker/Queues/Keeps.antt =====
-- The first half of a turn of dispatchLoop, the invariant, and the messages of the queues.
use mathlib.Core.List.Perm
use mathlib.Core.List.{perm_middle}
use golang_mq.Base.{
  ℕ, ◌≡◌, true, false, none, List, ◌∷◌, arith, nat_beq, nat_beq_iff, nat_eq, Perm, inl, inr,
  Bool-cases,
}
use golang_mq.Base.Map.{member, lookup}
use golang_mq.Broker.State.{Message, Consumer, Server, update}
use golang_mq.Broker.State.Updates.{update_all, nat_beq_refl}
use golang_mq.Broker.Consumers.{is_free, hold}
use golang_mq.Broker.Consumers.Books.{IsSound, values-hold, hold-IsSound}
use golang_mq.Broker.Queues.{begin}
use golang_mq.Broker.Queues.Held.{held, pending_of, pending_of_same, pending_of_grow, AgreeBut}
use golang_mq.Broker.Invariant.{IsWell}

pub AgreeBut-update : (k : ℕ) (c : Consumer) (f : ℕ → Consumer) → AgreeBut k f (update k c f)
AgreeBut-update k c f j h = rw h

pub not_elsewhere :
    {s : Server} (i j k : ℕ)
    → IsWell s
    → member k (s.queue i).consumers ≡ true
    → nat_beq i j ≡ false
    → member k (s.queue j).consumers ≡ false
not_elsewhere {s} i j k w here other = elim (Bool-cases (member k (s.queue j).consumers)) [
  | inl there ↦ ground (arith, w.owner i k here, w.owner j k there)
  | inr absent ↦ absent
]

module _ (i k : ℕ) (m : Message) (rest : List Message) (s : Server) (w : IsWell s)
    (here : member k (s.queue i).consumers ≡ true)
    (new : lookup m.delivery_tag (s.consumer k).pending_messages ≡ none) where
  pub begin-IsWell : is_free (s.consumer k) ≡ true → IsWell (begin i k m rest s)
  unfolding begin
  begin-IsWell free = record {
    unique = λ j. ground (arith, w.unique j, nat_beq_iff i j);
    owner = λ j l h. ground (arith, w.owner j l, nat_beq_iff i j, nat_beq_iff k l);
    young = λ j l h. ground (arith, w.young j l, nat_beq_iff i j);
    made = λ j l h. ground (arith, w.made j l, nat_beq_iff i j);
    home = λ l.
        ground (arith, w.home l, nat_beq_iff k l, nat_beq_iff i (s.consumer l).queue, w.owner i k);
    known = w.known;
    named = λ name j h. ground (arith, w.named name j, nat_beq_iff i j);
    books =
        update_all IsSound k (hold m (s.consumer k)) s.consumer
          (hold-IsSound m (s.consumer k) new free (w.books k)) w.books;
  }

  pub held-begin :
      (s.queue i).messages ≡ m ∷ rest → (j : ℕ) → Perm (held (begin i k m rest s) j) (held s j)
  unfolding begin held
  held-begin e j = elim (Bool-cases (nat_beq i j)) [
    | inl at ↦
        rw (← (nat_beq_iff i j).0 at, nat_beq_refl i, e)
          (Perm.trans (Perm.append_left rest grown)
            (perm_middle rest (pending_of s.consumer (s.queue i).consumers)))
    | inr off ↦
        rw
          (
            off,
            pending_of_same k s.consumer f agree (s.queue j).consumers
                (not_elsewhere i j k w here off),
          )
          Perm.rfl
  ]
    where
      f : ℕ → Consumer
      f = update k (hold m (s.consumer k)) s.consumer

      agree : AgreeBut k s.consumer f
      agree = AgreeBut-update k (hold m (s.consumer k)) s.consumer

      grown :
          Perm
            (pending_of f (s.queue i).consumers)
            (m ∷ pending_of s.consumer (s.queue i).consumers)
      grown =
          pending_of_grow k s.consumer f agree m (s.queue i).consumers
            (rw (nat_beq_refl k) (values-hold m (s.consumer k) new)) (w.unique i) here
