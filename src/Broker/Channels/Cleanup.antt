-- ===== src/Broker/Channels/Cleanup.antt =====
-- Channel.cleanup of broker/channel.go: who stays registered, and where the messages are.
use mathlib.Core.List.Perm
use golang_mq.Base.{
  ℕ, ◌≡◌, refl, true, false, List, [], ◌∷◌, arith, nat_beq, nat_beq_iff, nat_eq, Perm, inl, inr,
  Bool-cases, ◌∙◌, subst,
}
use golang_mq.Base.Map.{values, member}
use golang_mq.Base.Map.Members.{member-perm}
use golang_mq.Base.Map.Perms.{values-perm}
use golang_mq.Broker.Range.{Range}
use golang_mq.Broker.State.{Server}
use golang_mq.Broker.Queues.{unregister_consumer}
use golang_mq.Broker.Queues.Held.{held}
use golang_mq.Broker.Queues.Unregister.{
  unregister-IsWell, held-unregister, member-unregister, registered_after, channel-unregister,
}
use golang_mq.Broker.Channels.{cleanup_all, cleanup}
use golang_mq.Broker.Invariant.{IsWell}

module _ (range : Range) where
  pub cleanup_all-IsWell : (ks : List ℕ) (s : Server) → IsWell s → IsWell (cleanup_all range ks s)
  unfolding cleanup_all
  cleanup_all-IsWell [] s w = w
  cleanup_all-IsWell (k ∷ ks) s w =
      cleanup_all-IsWell ks _ (unregister-IsWell range (s.consumer k).queue k s w)

  pub held-cleanup_all :
      (ks : List ℕ) (s : Server)
      → IsWell s
      → (j : ℕ) → Perm (held (cleanup_all range ks s) j) (held s j)
  unfolding cleanup_all
  held-cleanup_all [] s w j = Perm.rfl
  held-cleanup_all (k ∷ ks) s w j =
      Perm.trans (held-cleanup_all ks _ (unregister-IsWell range (s.consumer k).queue k s w) j)
        (held-unregister range (s.consumer k).queue k s w j)

  -- Nobody is registered by the loop.
  pub member-cleanup_all :
      (ks : List ℕ) (s : Server) (j k : ℕ)
      → member k ((cleanup_all range ks s).queue j).consumers ≡ true
      → member k (s.queue j).consumers ≡ true
  unfolding cleanup_all
  member-cleanup_all [] s j k h = h
  member-cleanup_all (l ∷ ks) s j k h =
      registered_after range (s.consumer l).queue l s j k (member-cleanup_all ks _ j k h)

  gone :
      (k : ℕ) (ks : List ℕ) (s : Server)
      → IsWell s
      → (j : ℕ)
      → member k
          ((cleanup_all range ks (unregister_consumer range (s.consumer k).queue k s)).queue
            j).consumers
        ≡ false
  gone k ks s w j =
      let s' = unregister_consumer range (s.consumer k).queue k s in
      elim (Bool-cases (member k ((cleanup_all range ks s').queue j).consumers)) [
        | inl there ↦
            let still : member k (s'.queue j).consumers ≡ true =
              member-cleanup_all ks s' j k there in
            let own : (s.consumer k).queue ≡ j =
              w.owner j k (registered_after range (s.consumer k).queue k s j k still) in
            let out : member k (s'.queue j).consumers ≡ false =
              subst (λ x. member k (s'.queue x).consumers ≡ false) own
                (member-unregister range (s.consumer k).queue k s) in
            cc (still, out)
        | inr absent ↦ absent
      ]

  -- Whoever is in the list is registered nowhere afterwards.
  pub left-cleanup_all :
      (ks : List ℕ) (s : Server)
      → IsWell s
      → (k j : ℕ) → member k ks ≡ true
      → member k ((cleanup_all range ks s).queue j).consumers ≡ false
  unfolding cleanup_all member
  left-cleanup_all [] s w k j h = cc
  left-cleanup_all (l ∷ ks) s w k j h = elim (Bool-cases (nat_beq l k)) [
    | inl here ↦ rw (← (nat_beq_iff l k).0 here) (gone l ks s w j)
    | inr there ↦
        left-cleanup_all ks _ (unregister-IsWell range (s.consumer l).queue l s w) k j
          (ground arith)
  ]

  -- If the invariant holds, the cleanup of a channel keeps it, every queue answers for the same
  -- messages as before, and none of the consumers of the channel is registered with any queue
  -- afterwards.
  pub cleanup-keeps :
      (h : ℕ) (s : Server)
      → IsWell s
      → IsWell (cleanup range h s)
        × ((j : ℕ) → Perm (held (cleanup range h s) j) (held s j))
        × ((k j : ℕ)
            → member k (values (s.channel h).consumers) ≡ true
            → member k ((cleanup range h s).queue j).consumers ≡ false)
  unfolding cleanup
  cleanup-keeps h s w =
      let ks = values (range.visit _ (s.channel h).consumers) in
      (
        cleanup_all-IsWell ks s w,
        held-cleanup_all ks s w,
        λ k j on.
            left-cleanup_all ks s w k j
              (member-perm k (values-perm (range.visit-perm _ (s.channel h).consumers)) ∙ on),
      )

  channel-cleanup_all :
      (ks : List ℕ) (s : Server)
      → ((cleanup_all range ks s).channel ≡ s.channel)
        × ((cleanup_all range ks s).connection ≡ s.connection)
  unfolding cleanup_all
  channel-cleanup_all [] s = (refl, refl)
  channel-cleanup_all (k ∷ ks) s =
      let (a, b) = channel-cleanup_all ks (unregister_consumer range (s.consumer k).queue k s) in
      let (c, d) = channel-unregister range (s.consumer k).queue k s in (a ∙ c, b ∙ d)

  pub channel-cleanup :
      (h : ℕ) (s : Server)
      → ((cleanup range h s).channel ≡ s.channel) × ((cleanup range h s).connection ≡ s.connection)
  unfolding cleanup
  channel-cleanup h s = channel-cleanup_all (values (range.visit _ (s.channel h).consumers)) s

  pub member-cleanup :
      (h : ℕ) (s : Server) (j k : ℕ)
      → member k ((cleanup range h s).queue j).consumers ≡ true
      → member k (s.queue j).consumers ≡ true
  unfolding cleanup
  member-cleanup h s = member-cleanup_all (values (range.visit _ (s.channel h).consumers)) s
