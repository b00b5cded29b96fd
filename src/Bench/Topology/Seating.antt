-- ===== src/Bench/Topology/Seating.antt =====
-- Where the slots of buildTopology of internal/bench/topology.go stand: the connections, the numbers
-- among the publish-capable slots and the global indices that they have.
use golang_mq.Base.{
  ℕ, ◌<◌, ◌≡◌, ◌≢◌, refl, ap, subst, ◌∙◌, Bool, true, false, List, String, All, length, arith, ◌⊎◌,
  inl, inr, nat_eq, if◌then◌else◌,
}
use golang_mq.Base.Map.Perms.{length-perm}
use golang_mq.Bench.Config.{Config, unknown, size_of}
use golang_mq.Bench.Placement.{place_channels, place_workers}
use golang_mq.Bench.Placement.Dealing.{Places, place_channels-Places}
use golang_mq.Bench.Topology.{
  Topology, BuildError, placement, carving_overflow, no_consume_capable, no_publish_capable,
  all_slots, sort_slots, carve, publishes, consumes, capable, number_capable, assign,
  assign_workers, carve_roles, conn_roles_from, build_topology,
}
use golang_mq.Bench.Latency.Order.{All-map}
use golang_mq.Bench.Topology.Slots.{
  IsUnnumbered, IsSeated, Places-All, all_slots-All, sort_slots-All, carve-All, number_capable-All,
  length-all_slots, length-sort_slots, length-carve, length-number_capable, assign-All,
  length-assign, capable-All, length-below_count,
}

-- Each slot stands on a connection, the number of a publish-capable slot is one of their list, and the
-- list refers to slots.
pub record IsIndexed (t : Topology) : Type 0 where
  pub seats :
      All (IsSeated (length t.conn_channels) (length t.slots) (length t.publish_capable)) t.slots
  pub known : All (λ g. g < length t.slots) t.publish_capable

right : {A B : Type 0} → B → A ⊎ B → B
right d (inl a) = d
right d (inr b) = b

-- The topology before workers are given to it, for channels that were placed.
carved : (c : Config) (chans : List (List ℕ)) → Topology
carved c chans =
    let slots =
      carve c (size_of c.pub_channels) (size_of c.cons_channels)
        (sort_slots (all_slots c 0 chans)) in
    record {
      conn_roles = conn_roles_from c 0 (length chans);
      conn_channels = chans;
      slots = number_capable 0 slots;
      publish_capable = capable publishes slots;
      consume_capable = capable consumes slots;
    }

carved-IsIndexed :
    (c : Config) (n channels : ℕ) (chans : List (List ℕ))
    → Places n channels chans
    → IsIndexed (carved c chans)
unfolding carved
carved-IsIndexed c n channels chans p =
    let sorted = sort_slots (all_slots c 0 chans) in
    let slots = carve c (size_of c.pub_channels) (size_of c.cons_channels) sorted in
    let number : length (number_capable 0 slots) ≡ channels =
      length-number_capable slots 0
      ∙ length-carve c sorted _ _
      ∙ length-sort_slots (all_slots c 0 chans)
      ∙ length-all_slots c 0 chans
      ∙ length-perm p.indices
      ∙ length-below_count channels in
    let stand : All (IsUnnumbered (length chans) channels) slots =
      carve-All c (length chans) channels sorted _ _ (
        sort_slots-All (IsUnnumbered (length chans) channels) (all_slots c 0 chans) (
          all_slots-All c (length chans) channels 0 chans (omega arith)
            (Places-All n channels chans p))) in
    record {
      seats = rw number (
          number_capable-All (length chans) channels (length (capable publishes slots)) 0 slots
            stand (omega arith));
      known = rw number (capable-All channels publishes slots (All-map (λ s h. h.2) slots stand));
    }

-- A step that leads to a result has a result of its own, which the next step takes.
went_on :
    {A B E T : Type 0} (x : A ⊎ B) (fail : A → E) (next : B → E ⊎ T) (t : T)
    → ◌≡◌ {A = E ⊎ T} (elim x [ inl a ↦ inl (fail a) | inr b ↦ next b ]) (inr t)
    → (b : B) × (x ≡ inr b) × (next b ≡ inr t)
went_on (inl a) fail next t h = cc
went_on (inr b) fail next t h = (b, refl, h)

-- A check that leads to a result has passed.
passed :
    {E T : Type 0} (b : Bool) (e : E) (rest : E ⊎ T) (t : T)
    → (if b then inl e else rest) ≡ inr t
    → rest ≡ inr t
passed true e rest t h = cc
passed false e rest t h = h

carve_roles-IsIndexed :
    (c : Config) (n channels : ℕ) (chans : List (List ℕ)) (t : Topology)
    → Places n channels chans
    → carve_roles c chans ≡ inr t
    → IsIndexed t
unfolding carve_roles carved right
carve_roles-IsIndexed c n channels chans t p h =
    let made : ◌≡◌ {A = BuildError ⊎ Topology} (inr (carved c chans)) (inr t) =
      passed _ carving_overflow _ t h in
    let same : carved c chans ≡ t = ap (right (carved c chans)) made in
    rw (← same) (carved-IsIndexed c n channels chans p)

-- Workers are given to slots, which stay where they are.
assigned-IsIndexed :
    (t : Topology) (consumers publishers : List (List ℕ))
    → IsIndexed t
    → IsIndexed (record t {
      slots =
          assign publishes
            (λ row s. record s { pub_goroutines = row })
            (assign consumes (λ row s. record s { cons_goroutines = row }) t.slots consumers)
            publishers;
    })
assigned-IsIndexed t consumers publishers i =
    let ss = assign consumes (λ row s. record s { cons_goroutines = row }) t.slots consumers in
    let P = IsSeated (length t.conn_channels) (length t.slots) (length t.publish_capable) in
    let number : length
          (assign publishes (λ row s. record s { pub_goroutines = row }) ss publishers)
        ≡ length t.slots =
      length-assign publishes (λ row s. record s { pub_goroutines = row }) ss publishers
      ∙ length-assign consumes (λ row s. record s { cons_goroutines = row }) t.slots consumers in
    record {
      seats = rw number (
          assign-All P publishes (λ row s. record s { pub_goroutines = row }) (λ row s h. h) ss
            publishers
            (assign-All P consumes (λ row s. record s { cons_goroutines = row }) (λ row s h. h)
              t.slots consumers i.seats));
      known = rw number i.known;
    }

assign_workers-IsIndexed :
    (c : Config) (t r : Topology) → IsIndexed t → assign_workers c t ≡ inr r → IsIndexed r
unfolding assign_workers right
assign_workers-IsIndexed c t r i h =
    let (consumers, _, h1) =
      went_on
        (place_workers (size_of c.consumers) (length t.consume_capable) c.channels_dist
          c.max_consumers_per_channel)
        placement _ r (passed _ no_consume_capable _ r h) in
    let (publishers, _, h2) =
      went_on
        (place_workers (size_of c.publishers) (length t.publish_capable) c.pub_channels_dist
          c.max_publishers_per_channel)
        placement _ r (passed _ no_publish_capable _ r h1) in
    let given = assigned-IsIndexed t consumers publishers i in
    subst (λ x. IsIndexed x) (ap (right t) h2) given

either_way :
    (c : Config) (workers : Bool) (t r : Topology)
    → IsIndexed t
    → (if workers then assign_workers c t else inr t) ≡ inr r
    → IsIndexed r
unfolding right
either_way c true t r i h = assign_workers-IsIndexed c t r i h
either_way c false t r i h = subst (λ x. IsIndexed x) (ap (right t) h) i

-- If buildTopology reports no error, there is at least one connection, and the distribution of the
-- channels has a known name, then each slot stands on a connection and has a global index below the
-- number of slots; the number of a slot is below that of the publish-capable slots, or it has none
-- and is not one of them; and the list of the publish-capable slots refers to slots.
pub build_topology-IsIndexed :
    (c : Config) (workers : Bool) (t : Topology)
    → 0 < size_of c.conns
    → ((d : String) → c.conns_dist ≢ unknown d)
    → build_topology c workers ≡ inr t
    → IsIndexed t
unfolding build_topology
build_topology-IsIndexed c workers t some_conn known h =
    let (chans, placed, h1) =
      went_on
        (place_channels (size_of c.conns) (size_of c.channels) c.conns_dist c.max_channels_per_conn)
        placement _ t h in
    let p =
      place_channels-Places (size_of c.conns) (size_of c.channels) c.conns_dist
        c.max_channels_per_conn chans some_conn known placed in
    let (t0, built, h2) = went_on (carve_roles c chans) (λ e. e) _ t h1 in
    let i = carve_roles-IsIndexed c (size_of c.conns) (size_of c.channels) chans t0 p built in
    either_way c workers t0 t i h2
