-- ===== src/Broker/Queues/Held.antt =====
-- The messages that a queue answers for: those in line, and those pending at its consumers.
use mathlib.Core.List.Perm
use mathlib.Core.List.{perm_middle}
use golang_mq.Base.{
  ℕ, ◌≡◌, refl, ap₂, true, false, List, [], ◌∷◌, ◌++◌, arith, nat_beq, nat_beq_iff, nat_eq, Perm,
  inl, inr, Bool-cases, ap,
}
use golang_mq.Base.Map.{values, member}
use golang_mq.Broker.State.{Message, Consumer, Server}

abbrev pub pending : Consumer → List Message
pending c = values c.pending_messages

unfoldable pub pending_of : (ℕ → Consumer) → List ℕ → List Message
pending_of f [] = []
pending_of f (k ∷ ks) = pending (f k) ++ pending_of f ks

unfoldable pub held : Server → ℕ → List Message
unfolding pending_of
held s i = (s.queue i).messages ++ pending_of s.consumer (s.queue i).consumers

-- No address stands twice.
unfoldable pub IsUnique : List ℕ → Type 0
IsUnique [] = Unit
IsUnique (k ∷ ks) = (member k ks ≡ false) × IsUnique ks

-- Two heaps of consumers that differ at `k` at most.
abbrev pub AgreeBut : ℕ → (ℕ → Consumer) → (ℕ → Consumer) → Type 0
AgreeBut k f g = (j : ℕ) → nat_beq k j ≡ false → g j ≡ f j

module _ (k : ℕ) (f g : ℕ → Consumer) (agree : AgreeBut k f g) where
  pub pending_of_same : (ks : List ℕ) → member k ks ≡ false → pending_of g ks ≡ pending_of f ks
  unfolding member pending_of
  pending_of_same [] h = refl
  pending_of_same (j ∷ ks) h =
      ap₂ ◌++◌ (ap pending (agree j (ground (arith, nat_beq_iff j k, nat_beq_iff k j))))
        (pending_of_same ks (ground arith))

  -- One more message at `k` is one more message of a list that has `k`.
  pub pending_of_grow :
      (m : Message) (ks : List ℕ)
      → Perm (pending (g k)) (m ∷ pending (f k))
      → IsUnique ks
      → member k ks ≡ true
      → Perm (pending_of g ks) (m ∷ pending_of f ks)
  unfolding member pending_of IsUnique
  pending_of_grow m [] p u h = cc
  pending_of_grow m (j ∷ ks) p u h = elim (Bool-cases (nat_beq k j)) [
    | inl here ↦
        let e : k ≡ j = (nat_beq_iff k j).0 here in
        rw (pending_of_same ks (rw e u.0)) (Perm.append_right (pending_of f ks) (rw e at p))
    | inr there ↦ rw (agree j there) (
        Perm.trans
          (Perm.append_left (pending (f j))
            (pending_of_grow m ks p u.1 (ground (arith, nat_beq_iff j k, nat_beq_iff k j))))
          (perm_middle (pending (f j)) (pending_of f ks)))
  ]
