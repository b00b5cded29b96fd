-- ===== src/Bench/Topology.antt =====
-- buildTopology of internal/bench/topology.go. A pointer to a slot is the global index of the slot, and the client of a slot is not modelled.
pub mod Carving
pub mod Slots
pub mod Seating
use golang_mq.Base.{
  ℕ, zero, suc, ◌+◌, Bool, true, false, Option, none, some, List, [], ◌∷◌, ◌++◌, ltb, nat_beq, ◌&&◌,
  ◌⊎◌, inl, inr, length, string_eq, if◌then◌else◌,
}
use golang_mq.Bench.Config.{Config, size_of}
use golang_mq.Bench.Placement.{PlaceError, place_channels, place_workers}

pub data ConnRole : Type 0 where
  mixed publish_only consume_only : ConnRole

pub data Role : Type 0 where
  both publish consume : Role

pub record ChannelSlot : Type 0 where
  pub conn : ℕ
  pub ch : ℕ
  pub global_index : ℕ
  pub role : Role
  pub pub_goroutines : List ℕ
  pub cons_goroutines : List ℕ
  pub publish_cap_idx : Option ℕ

-- `slots` has all slots in the order of their global indices; the other lists refer to it.
pub record Topology : Type 0 where
  pub conn_roles : List ConnRole
  pub conn_channels : List (List ℕ)
  pub slots : List ChannelSlot
  pub publish_capable : List ℕ
  pub consume_capable : List ℕ

pub data BuildError : Type 0 where
  placement : PlaceError → BuildError
  carving_overflow no_consume_capable no_publish_capable : BuildError

-- The role of the connection `i`.
unfoldable pub conn_role : Config → ℕ → ConnRole
conn_role c i =
    if ltb i (size_of c.pub_conns)
    then publish_only
    else if ltb i (size_of c.pub_conns + size_of c.cons_conns)
    then consume_only
    else mixed

-- The roles of `n` connections from `i` on.
unfoldable pub conn_roles_from : Config → ℕ → ℕ → List ConnRole
unfolding conn_role
conn_roles_from c i zero = []
conn_roles_from c i (suc n) = conn_role c i ∷ conn_roles_from c (suc i) n

-- The role of a slot as it is made; that of a mixed connection is the zero value.
abbrev slot_role : ConnRole → Role
slot_role mixed = both
slot_role publish_only = publish
slot_role consume_only = consume

-- The slots of the connection `cn`, from the position `j` on.
unfoldable pub conn_slots : ConnRole → ℕ → ℕ → List ℕ → List ChannelSlot
conn_slots r cn j [] = []
conn_slots r cn j (gi ∷ gis) =
    record {
      conn = cn;
      ch = j;
      global_index = gi;
      role = slot_role r;
      pub_goroutines = [];
      cons_goroutines = [];
      publish_cap_idx = none;
    }
    ∷ conn_slots r cn (suc j) gis

-- The slots of all connections from `cn` on, in the order in which the channels are opened.
unfoldable pub all_slots : Config → ℕ → List (List ℕ) → List ChannelSlot
unfolding conn_role conn_slots
all_slots c cn [] = []
all_slots c cn (gis ∷ rest) = conn_slots (conn_role c cn) cn 0 gis ++ all_slots c (suc cn) rest

-- sort.Slice by the global index; no two slots have the same.
unfoldable pub insert_slot : ChannelSlot → List ChannelSlot → List ChannelSlot
insert_slot s [] = s ∷ []
insert_slot s (t ∷ ts) =
    let rest = insert_slot s ts in
    if ltb s.global_index t.global_index then s ∷ t ∷ ts else t ∷ rest

unfoldable pub sort_slots : List ChannelSlot → List ChannelSlot
unfolding insert_slot
sort_slots [] = []
sort_slots (s ∷ ss) = insert_slot s (sort_slots ss)

abbrev pub is_mixed : ConnRole → Bool
is_mixed mixed = true
is_mixed publish_only = false
is_mixed consume_only = false

-- len(mixed)
unfoldable pub count_mixed : Config → List ChannelSlot → ℕ
unfolding conn_role
count_mixed c [] = 0
count_mixed c (s ∷ ss) =
    let rest = count_mixed c ss in if is_mixed (conn_role c s.conn) then suc rest else rest

-- The switch of the loop that stamps roles: the role, and what is left of both counts.
unfoldable pub next_role : ℕ → ℕ → Role × ℕ × ℕ
next_role (suc p) c = (publish, p, c)
next_role zero (suc c) = (consume, zero, c)
next_role zero zero = (both, zero, zero)

-- The loop that stamps roles on the slots of mixed connections.
unfoldable pub carve : Config → ℕ → ℕ → List ChannelSlot → List ChannelSlot
unfolding conn_role next_role
carve c pub_left cons_left [] = []
carve c pub_left cons_left (s ∷ ss) =
    let r =
      if is_mixed (conn_role c s.conn)
      then next_role pub_left cons_left
      else (s.role, pub_left, cons_left) in
    record s { role = r.0 } ∷ carve c r.1 r.2 ss

abbrev pub publishes : Role → Bool
publishes both = true
publishes publish = true
publishes consume = false

abbrev pub consumes : Role → Bool
consumes both = true
consumes publish = false
consumes consume = true

-- The global indices of the slots whose role passes the test.
unfoldable pub capable : (Role → Bool) → List ChannelSlot → List ℕ
capable test [] = []
capable test (s ∷ ss) =
    let rest = capable test ss in if test s.role then s.global_index ∷ rest else rest

-- sl.publishCapIdx = i, for the publish-capable slots from the index `i` on.
unfoldable pub number_capable : ℕ → List ChannelSlot → List ChannelSlot
number_capable i [] = []
number_capable i (s ∷ ss) =
    let rest = number_capable (if publishes s.role then suc i else i) ss in
    (if publishes s.role then record s { publish_cap_idx = some i } else s) ∷ rest

-- The rows of workers, given to the slots that pass the test, in their order.
unfoldable pub assign :
    (Role → Bool)
    → (List ℕ → ChannelSlot → ChannelSlot)
    → List ChannelSlot
    → List (List ℕ)
    → List ChannelSlot
assign test give [] rows = []
assign test give (s ∷ ss) [] = s ∷ ss
assign test give (s ∷ ss) (row ∷ rows) =
    let rest = assign test give ss (if test s.role then rows else row ∷ rows) in
    (if test s.role then give row s else s) ∷ rest

-- Steps 3 and 4: the workers. The checks stand in front of each placement.
unfoldable pub assign_workers : Config → Topology → BuildError ⊎ Topology
unfolding place_workers assign
assign_workers c t =
    if ltb 0 (size_of c.consumers) && nat_beq (length t.consume_capable) 0
    then inl no_consume_capable
    else elim (place_workers (size_of c.consumers) (length t.consume_capable) c.channels_dist
        c.max_consumers_per_channel) [
          | inl e ↦ inl (placement e)
          | inr consumers ↦
              if ltb 0 (size_of c.publishers) && nat_beq (length t.publish_capable) 0
              then inl no_publish_capable
              else elim (place_workers (size_of c.publishers) (length t.publish_capable)
                  c.pub_channels_dist c.max_publishers_per_channel) [
                    | inl e ↦ inl (placement e)
                    | inr publishers ↦ inr (record t {
                      slots =
                          assign publishes (λ row s. record s { pub_goroutines = row })
                            (assign consumes (λ row s. record s { cons_goroutines = row }) t.slots
                              consumers)
                            publishers;
                    })
                  ]
        ]

-- From the placement of channels to the capability lists.
unfoldable pub carve_roles : Config → List (List ℕ) → BuildError ⊎ Topology
unfolding all_slots sort_slots count_mixed carve capable number_capable conn_roles_from
carve_roles c chans =
    let sorted = sort_slots (all_slots c 0 chans) in
    let slots = carve c (size_of c.pub_channels) (size_of c.cons_channels) sorted in
    if ltb (count_mixed c sorted) (size_of c.pub_channels + size_of c.cons_channels)
    then inl carving_overflow
    else inr (record {
      conn_roles = conn_roles_from c 0 (length chans);
      conn_channels = chans;
      slots = number_capable 0 slots;
      publish_capable = capable publishes slots;
      consume_capable = capable consumes slots;
    })

unfoldable pub build_topology : Config → Bool → BuildError ⊎ Topology
unfolding place_channels carve_roles assign_workers
build_topology c workers =
    elim (place_channels (size_of c.conns) (size_of c.channels) c.conns_dist
      c.max_channels_per_conn) [
        | inl e ↦ inl (placement e)
        | inr chans ↦ elim (carve_roles c chans) [
          | inl e ↦ inl e
          | inr t ↦ if workers then assign_workers c t else inr t
        ]
      ]
