-- ===== src/Bench/Topology/Slots.antt =====
-- What the loops of buildTopology of internal/bench/topology.go do to the slots: their number, and where
-- they stand.
use golang_mq.Base.{
  ℕ, zero, suc, ◌+◌, ◌≤◌, ◌<◌, ◌≡◌, refl, ap, sym, ◌∙◌, Bool, true, none, List, [], ◌∷◌, ◌++◌, All,
  length, length-append, arith, ltb, nat_beq, inl, inr, Bool-cases, nat_eq,
}
use golang_mq.Base.Map.{member}
use golang_mq.Base.Map.Members.{member-perm}
use golang_mq.Bench.Config.{Config}
use golang_mq.Bench.Placement.Dealing.{joined, below_count, Places}
use golang_mq.Bench.Stats.Refines.{IsNumbered}
use golang_mq.Bench.Topology.{
  Role, ConnRole, ChannelSlot, conn_role, conn_slots, all_slots, insert_slot, sort_slots, carve,
  publishes, capable, number_capable, assign,
}

-- A slot on one of `n` connections, with a global index below `m` and no number yet.
abbrev pub IsUnnumbered : ℕ → ℕ → ChannelSlot → Type 0
IsUnnumbered n m s = (s.conn < n) × (s.publish_cap_idx ≡ none) × (s.global_index < m)

-- A slot on one of `n` connections, with a global index below `m`; its number, if any, is below `k`.
abbrev pub IsSeated : ℕ → ℕ → ℕ → ChannelSlot → Type 0
IsSeated n m k s = (s.conn < n) × IsNumbered k s.publish_cap_idx × (s.global_index < m)

All-append : {A : Type 0} (P : A → Type 0) (xs ys : List A) → All P xs → All P ys → All P (xs ++ ys)
All-append P [] ys h g = g
All-append P (x ∷ xs) ys h g = (h.0, All-append P xs ys h.1 g)

All-append_front :
    {A : Type 0} (P : A → Type 0) (xs ys : List A) → All P (xs ++ ys) → All P xs × All P ys
All-append_front P [] ys h = (tt, h)
All-append_front P (x ∷ xs) ys h = let (a, b) = All-append_front P xs ys h.1 in ((h.0, a), b)

All-member : (P : ℕ → Type 0) (xs : List ℕ) → ((g : ℕ) → member g xs ≡ true → P g) → All P xs
unfolding member
All-member P [] h = tt
All-member P (x ∷ xs) h = (h x (ground arith), All-member P xs λ g m. h g (ground arith))

below_count-member : (n g : ℕ) → member g (below_count n) ≡ true → g < n
unfolding below_count member
below_count-member zero g h = ground arith
below_count-member (suc n) g h = elim (Bool-cases (nat_beq n g)) [
  | inl here ↦ ground arith
  | inr there ↦ let later = below_count-member n g (ground arith) in omega arith
]

pub length-below_count : (n : ℕ) → length (below_count n) ≡ n
unfolding below_count
length-below_count zero = refl
length-below_count (suc n) = ap suc (length-below_count n)

-- The indices that were dealt are below their number.
pub Places-All :
    (n channels : ℕ) (rows : List (List ℕ))
    → Places n channels rows
    → All (λ g. g < channels) (joined rows)
Places-All n channels rows p =
    All-member (λ g. g < channels) (joined rows)
      λ g m. below_count-member channels g (sym (member-perm g p.indices) ∙ m)

module _ (c : Config) (n m : ℕ) where
  conn_slots-All :
      (r : ConnRole) (cn j : ℕ) (gis : List ℕ)
      → cn < n
      → All (λ g. g < m) gis
      → All (IsUnnumbered n m) (conn_slots r cn j gis)
  unfolding conn_slots
  conn_slots-All r cn j [] bound h = tt
  conn_slots-All r cn j (gi ∷ gis) bound h =
      ((bound, refl, h.0), conn_slots-All r cn (suc j) gis bound h.1)

  pub all_slots-All :
      (cn : ℕ) (chans : List (List ℕ))
      → cn + length chans ≤ n
      → All (λ g. g < m) (joined chans)
      → All (IsUnnumbered n m) (all_slots c cn chans)
  unfolding all_slots joined
  all_slots-All cn [] bound h = tt
  all_slots-All cn (gis ∷ rest) bound h =
      let (front, back) = All-append_front (λ g. g < m) gis (joined rest) h in
      All-append (IsUnnumbered n m) (conn_slots (conn_role c cn) cn 0 gis)
        (all_slots c (suc cn) rest) (conn_slots-All (conn_role c cn) cn 0 gis (omega arith) front)
        (all_slots-All (suc cn) rest (omega arith) back)

insert_slot-All :
    (P : ChannelSlot → Type 0) (s : ChannelSlot) (ts : List ChannelSlot)
    → P s
    → All P ts
    → All P (insert_slot s ts)
unfolding insert_slot
insert_slot-All P s [] p h = (p, tt)
insert_slot-All P s (t ∷ ts) p h = elim (Bool-cases (ltb s.global_index t.global_index)) [
  | inl e ↦ rw e (p, h)
  | inr e ↦ rw e (h.0, insert_slot-All P s ts p h.1)
]

pub sort_slots-All :
    (P : ChannelSlot → Type 0) (ss : List ChannelSlot) → All P ss → All P (sort_slots ss)
unfolding sort_slots
sort_slots-All P [] h = tt
sort_slots-All P (s ∷ ss) h = insert_slot-All P s (sort_slots ss) h.0 (sort_slots-All P ss h.1)

pub carve-All :
    (c : Config) (n m : ℕ) (ss : List ChannelSlot) (p k : ℕ)
    → All (IsUnnumbered n m) ss
    → All (IsUnnumbered n m) (carve c p k ss)
unfolding carve
carve-All c n m [] p k h = tt
carve-All c n m (s ∷ ss) p k h = (h.0, carve-All c n m ss _ _ h.1)

pub number_capable-All :
    (n m k i : ℕ) (ss : List ChannelSlot)
    → All (IsUnnumbered n m) ss
    → i + length (capable publishes ss) ≤ k
    → All (IsSeated n m k) (number_capable i ss)
unfolding number_capable capable IsNumbered
number_capable-All n m k i [] h bound = tt
number_capable-All n m k i (s ∷ ss) h bound = elim (Bool-cases (publishes s.role)) [
  | inl e ↦ rw e (
    (h.0.0, omega (arith, (rw e at bound)), h.0.2),
    number_capable-All n m k (suc i) ss h.1 (omega (arith, (rw e at bound))),
  )
  | inr e ↦ rw e ((h.0.0, rw h.0.1 tt, h.0.2), number_capable-All n m k i ss h.1 (rw e at bound))
]

-- What an operation on slots does to a length.
length-conn_slots :
    (r : ConnRole) (cn j : ℕ) (gis : List ℕ) → length (conn_slots r cn j gis) ≡ length gis
unfolding conn_slots
length-conn_slots r cn j [] = refl
length-conn_slots r cn j (gi ∷ gis) = ap suc (length-conn_slots r cn (suc j) gis)

pub length-all_slots :
    (c : Config) (cn : ℕ) (chans : List (List ℕ))
    → length (all_slots c cn chans) ≡ length (joined chans)
unfolding all_slots joined
length-all_slots c cn [] = refl
length-all_slots c cn (gis ∷ rest) =
    let row = conn_slots (conn_role c cn) cn 0 gis in
    omega (
      arith,
      length-append row (all_slots c (suc cn) rest),
      length-append gis (joined rest),
      length-conn_slots (conn_role c cn) cn 0 gis,
      length-all_slots c (suc cn) rest,
    )

length-insert_slot :
    (s : ChannelSlot) (ts : List ChannelSlot) → length (insert_slot s ts) ≡ suc (length ts)
unfolding insert_slot
length-insert_slot s [] = refl
length-insert_slot s (t ∷ ts) = elim (Bool-cases (ltb s.global_index t.global_index)) [
  | inl e ↦ rw e refl
  | inr e ↦ rw e (ap suc (length-insert_slot s ts))
]

pub length-sort_slots : (ss : List ChannelSlot) → length (sort_slots ss) ≡ length ss
unfolding sort_slots
length-sort_slots [] = refl
length-sort_slots (s ∷ ss) = length-insert_slot s (sort_slots ss) ∙ ap suc (length-sort_slots ss)

pub length-carve :
    (c : Config) (ss : List ChannelSlot) (p k : ℕ) → length (carve c p k ss) ≡ length ss
unfolding carve
length-carve c [] p k = refl
length-carve c (s ∷ ss) p k = ap suc (length-carve c ss _ _)

pub length-number_capable :
    (ss : List ChannelSlot) (i : ℕ) → length (number_capable i ss) ≡ length ss
unfolding number_capable
length-number_capable [] i = refl
length-number_capable (s ∷ ss) i = ap suc (length-number_capable ss _)

-- Giving workers to slots keeps what the slots of a topology are known by.
pub assign-All :
    (P : ChannelSlot → Type 0) (test : Role → Bool) (give : List ℕ → ChannelSlot → ChannelSlot)
    → ((row : List ℕ) (s : ChannelSlot) → P s → P (give row s))
    → (ss : List ChannelSlot) (rows : List (List ℕ)) → All P ss
    → All P (assign test give ss rows)
unfolding assign
assign-All P test give keeps [] rows h = tt
assign-All P test give keeps (s ∷ ss) [] h = h
assign-All P test give keeps (s ∷ ss) (row ∷ rows) h = elim (Bool-cases (test s.role)) [
  | inl e ↦ rw e (keeps row s h.0, assign-All P test give keeps ss rows h.1)
  | inr e ↦ rw e (h.0, assign-All P test give keeps ss (row ∷ rows) h.1)
]

pub length-assign :
    (test : Role → Bool) (give : List ℕ → ChannelSlot → ChannelSlot) (ss : List ChannelSlot)
    (rows : List (List ℕ))
    → length (assign test give ss rows) ≡ length ss
unfolding assign
length-assign test give [] rows = refl
length-assign test give (s ∷ ss) [] = refl
length-assign test give (s ∷ ss) (row ∷ rows) = ap suc (length-assign test give ss _)

pub capable-All :
    (m : ℕ) (test : Role → Bool) (ss : List ChannelSlot)
    → All (λ s. s.global_index < m) ss
    → All (λ g. g < m) (capable test ss)
unfolding capable
capable-All m test [] h = tt
capable-All m test (s ∷ ss) h = elim (Bool-cases (test s.role)) [
  | inl e ↦ rw e (h.0, capable-All m test ss h.1)
  | inr e ↦ rw e (capable-All m test ss h.1)
]
