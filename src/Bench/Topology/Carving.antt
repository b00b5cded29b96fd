-- ===== src/Bench/Topology/Carving.antt =====
-- The roles that buildTopology of internal/bench/topology.go stamps on the slots of mixed connections.
use golang_mq.Base.{
  ℕ, zero, suc, ◌+◌, ◌≤◌, ◌≡◌, refl, ap, Bool, true, false, List, [], ◌∷◌, arith, ltb, ◌&&◌, inl,
  inr, Bool-cases, if◌then◌else◌,
}
use golang_mq.Bench.Config.{Config, size_of}
use golang_mq.Bench.Topology.{
  Role, both, publish, consume, ChannelSlot, Topology, conn_role, is_mixed, all_slots, sort_slots,
  count_mixed, next_role, carve, publishes, number_capable, carve_roles,
}

abbrev pub is_publish : Role → Bool
is_publish both = false
is_publish publish = true
is_publish consume = false

abbrev pub is_consume : Role → Bool
is_consume both = false
is_consume publish = false
is_consume consume = true

-- How many slots of mixed connections have a role that passes the test.
unfoldable pub mixed_with : (Role → Bool) → Config → List ChannelSlot → ℕ
mixed_with test c [] = 0
mixed_with test c (s ∷ ss) =
    let rest = mixed_with test c ss in
    if is_mixed (conn_role c s.conn) && test s.role then suc rest else rest

module _ (c : Config) where
  -- What the roles of the other slots come to, whatever is left of both counts.
  abbrev Counts : List ChannelSlot → Type 0
  Counts ss =
      (p k : ℕ)
      → p + k ≤ count_mixed c ss
      → (mixed_with is_publish c (carve c p k ss) ≡ p)
        × (mixed_with is_consume c (carve c p k ss) ≡ k)

  stamped :
      (ss : List ChannelSlot)
      → Counts ss
      → (p k : ℕ) → p + k ≤ suc (count_mixed c ss)
      → ((let r = next_role p k in
            let rest = mixed_with is_publish c (carve c r.1 r.2 ss) in
            if is_publish r.0 then suc rest else rest)
          ≡ p)
        × ((let r = next_role p k in
              let rest = mixed_with is_consume c (carve c r.1 r.2 ss) in
              if is_consume r.0 then suc rest else rest)
            ≡ k)
  unfolding next_role
  stamped ss others (suc p) k h = let (a, b) = others p k (omega (arith, h)) in (ap suc a, b)
  stamped ss others zero (suc k) h = let (a, b) = others 0 k (omega (arith, h)) in (a, ap suc b)
  stamped ss others zero zero h = others 0 0 (omega arith)

  carve-Counts : (ss : List ChannelSlot) → Counts ss
  unfolding carve mixed_with count_mixed next_role
  carve-Counts [] p k h = (omega (arith, h), omega (arith, h))
  carve-Counts (s ∷ ss) p k h = elim (Bool-cases (is_mixed (conn_role c s.conn))) [
    | inl e ↦ rw e (stamped ss (carve-Counts ss) p k (rw e at h))
    | inr e ↦ rw e (carve-Counts ss p k (rw e at h))
  ]

  mixed_with-number_capable :
      (test : Role → Bool) (i : ℕ) (ss : List ChannelSlot)
      → mixed_with test c (number_capable i ss) ≡ mixed_with test c ss
  unfolding mixed_with number_capable
  mixed_with-number_capable test i [] = refl
  mixed_with-number_capable test i (s ∷ ss) = elim (Bool-cases (publishes s.role)) [
    | inl e ↦ rw (e, mixed_with-number_capable test (suc i) ss)
    | inr e ↦ rw (e, mixed_with-number_capable test i ss)
  ]

  -- If the roles can be carved, then of the slots of mixed connections exactly as many are for
  -- publishers only as the settings ask for, and exactly as many for consumers only.
  pub carve_roles-counts :
      (chans : List (List ℕ)) (t : Topology)
      → carve_roles c chans ≡ inr t
      → (mixed_with is_publish c t.slots ≡ size_of c.pub_channels)
        × (mixed_with is_consume c t.slots ≡ size_of c.cons_channels)
  unfolding carve_roles
  carve_roles-counts chans t h =
      let p = size_of c.pub_channels in
      let k = size_of c.cons_channels in
      let sorted = sort_slots (all_slots c 0 chans) in
      elim (Bool-cases (ltb (count_mixed c sorted) (p + k))) [
        | inl over ↦ ground arith
        | inr room ↦
            let e : number_capable 0 (carve c p k sorted) ≡ t.slots = ground arith in
            rw (← e, mixed_with-number_capable, mixed_with-number_capable)
              (carve-Counts sorted p k (ground arith))
      ]
