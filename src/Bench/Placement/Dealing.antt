-- ===== src/Bench/Placement/Dealing.antt =====
-- Which indices the placement loops of internal/bench/topology.go deal: the channels of the connections
-- and the workers of the slots.
use mathlib.Core.List.Perm
use mathlib.Core.List.{perm_middle, append_assoc}
use golang_mq.Base.{
  ℕ, zero, suc, ◌*◌, ◌/◌, ◌%◌, ◌≤◌, ◌<◌, ◌≡◌, ◌≢◌, String, ◌∙◌, refl, false, List, [], ◌∷◌, ◌++◌,
  arith, Perm, ltb, nat_beq, inl, inr, Bool-cases, length, ap,
}
use native.Mathlib.Nat.{mod-lt, div-lt_iff_lt-mul}
use golang_mq.Base.Int.{ℤ, pos, negsuc}
use golang_mq.Bench.Config.{Distribution, even, uneven, unknown, is_not_positive, size_of}
use golang_mq.Bench.Placement.{
  empties, append_at, deal, place_channels, place_workers, place_workers_in,
}

unfoldable pub joined : List (List ℕ) → List ℕ
joined [] = []
joined (row ∷ rows) = row ++ joined rows

-- The indices below a number, the greatest first.
unfoldable pub below_count : ℕ → List ℕ
below_count zero = []
below_count (suc n) = n ∷ below_count n

length-empties : (n : ℕ) → length (empties n) ≡ n
unfolding empties
length-empties zero = refl
length-empties (suc n) = ap suc (length-empties n)

joined-empties : (n : ℕ) → joined (empties n) ≡ []
unfolding empties joined
joined-empties zero = refl
joined-empties (suc n) = joined-empties n

length-append_at : (k x : ℕ) (rows : List (List ℕ)) → length (append_at k x rows) ≡ length rows
unfolding append_at
length-append_at k x [] = refl
length-append_at zero x (row ∷ rows) = refl
length-append_at (suc k) x (row ∷ rows) = ap suc (length-append_at k x rows)

length-deal : (f : ℕ → ℕ) (n : ℕ) (rows : List (List ℕ)) → length (deal f n rows) ≡ length rows
unfolding deal
length-deal f zero rows = refl
length-deal f (suc i) rows =
    ground (arith, length-append_at (f i) i (deal f i rows), length-deal f i rows)

joined-append_at :
    (k x : ℕ) (rows : List (List ℕ))
    → k < length rows
    → Perm (joined (append_at k x rows)) (x ∷ joined rows)
unfolding append_at joined
joined-append_at k x [] h = absurd (omega (arith, h))
joined-append_at zero x (row ∷ rows) h =
    rw (append_assoc row (x ∷ []) (joined rows)) (perm_middle row (joined rows))
joined-append_at (suc k) x (row ∷ rows) h =
    Perm.trans (Perm.append_left row (joined-append_at k x rows (omega (arith, h))))
      (perm_middle row (joined rows))

joined-deal :
    (f : ℕ → ℕ) (n count : ℕ)
    → ((i : ℕ) → i < count → f i < n)
    → Perm (joined (deal f count (empties n))) (below_count count)
unfolding deal below_count
joined-deal f n zero inside = rw (joined-empties n) Perm.rfl
joined-deal f n (suc i) inside =
    Perm.trans
      (joined-append_at (f i) i (deal f i (empties n))
        (rw (length-deal f i (empties n), length-empties n) (inside i (omega arith))))
      (Perm.cons i (joined-deal f n i (λ j h. inside j (omega (arith, h)))))

-- There is a list for each of `n` places, and these hold each index below `count` once, and no other.
pub record Places (n count : ℕ) (rows : List (List ℕ)) : Type 0 where
  pub places : length rows ≡ n
  pub indices : Perm (joined rows) (below_count count)

deal-Places :
    (f : ℕ → ℕ) (n count : ℕ)
    → ((i : ℕ) → i < count → f i < n)
    → Places n count (deal f count (empties n))
deal-Places f n count inside = record {
  places = length-deal f count (empties n) ∙ length-empties n;
  indices = joined-deal f n count inside;
}

pub fits_below : (n cap count i : ℕ) → 0 < cap → count ≤ n * cap → i < count → i / cap < n
fits_below n cap count i pos_cap room h =
    (div-lt_iff_lt-mul {k = cap} {x = i} {y = n} pos_cap).1 (omega (arith, room, h))

positive : (z : ℤ) → is_not_positive z ≡ false → 0 < size_of z
positive (pos n) h = ground arith
positive (negsuc n) h = cc

place_workers_in-Places :
    (count n : ℕ) (mode : Distribution) (cap : ℤ) (rows : List (List ℕ))
    → 0 < n
    → place_workers_in count n mode cap ≡ inr rows
    → Places n count rows
unfolding place_workers_in
place_workers_in-Places count n even cap rows some_slot h =
    let p : deal (λ j. j % n) count (empties n) ≡ rows = ground arith in
    rw (← p) (deal-Places (λ j. j % n) n count (λ i b. mod-lt i some_slot))
place_workers_in-Places count n uneven cap rows some_slot h =
    elim (Bool-cases (is_not_positive cap)) [
      | inl e ↦
          let p : deal (λ j. 0) count (empties n) ≡ rows = ground arith in
          rw (← p) (deal-Places (λ j. 0) n count (λ i b. some_slot))
      | inr e ↦ elim (Bool-cases (ltb (n * size_of cap) count)) [
        | inl over ↦ ground arith
        | inr room ↦
            let p : deal (λ j. j / size_of cap % n) count (empties n) ≡ rows = ground arith in
            rw (← p) (
              deal-Places (λ j. j / size_of cap % n) n count
                (λ i b. mod-lt (i / size_of cap) some_slot))
      ]
    ]
place_workers_in-Places count n (unknown d) cap rows some_slot h = cc

-- If placeWorkers reports no error, every slot has a list of workers, and these lists together
-- hold each worker once and no other.
pub place_workers-Places :
    (count n : ℕ) (mode : Distribution) (cap : ℤ) (rows : List (List ℕ))
    → place_workers count n mode cap ≡ inr rows
    → Places n count rows
unfolding place_workers
place_workers-Places count n mode cap rows h = elim (Bool-cases (nat_beq count 0)) [
  | inl e ↦
      let p : empties n ≡ rows = ground arith in
      let q : count ≡ 0 = ground arith in
      rw (← p, q) (deal-Places (λ j. 0) n 0 (λ i b. absurd (omega (arith, b))))
  | inr e ↦ elim (Bool-cases (nat_beq n 0)) [
    | inl f ↦ ground arith
    | inr f ↦ place_workers_in-Places count n mode cap rows (ground arith) (ground arith)
  ]
]

-- If there is a connection, the distribution is known and the channels can be placed, then every
-- connection has a list of channels, and these lists together hold each channel once and no other.
pub place_channels-Places :
    (n channels : ℕ) (mode : Distribution) (cap : ℤ) (rows : List (List ℕ))
    → 0 < n
    → ((d : String) → mode ≢ unknown d)
    → place_channels n channels mode cap ≡ inr rows
    → Places n channels rows
unfolding place_channels
place_channels-Places n channels even cap rows some_conn known h =
    let p : deal (λ i. i % n) channels (empties n) ≡ rows = ground arith in
    rw (← p) (deal-Places (λ i. i % n) n channels (λ i b. mod-lt i some_conn))
place_channels-Places n channels uneven cap rows some_conn known h =
    elim (Bool-cases (is_not_positive cap)) [
      | inl e ↦
          let p : deal (λ i. 0) channels (empties n) ≡ rows = ground arith in
          rw (← p) (deal-Places (λ i. 0) n channels (λ i b. some_conn))
      | inr e ↦ elim (Bool-cases (ltb (n * size_of cap) channels)) [
        | inl over ↦ ground arith
        | inr room ↦
            let p : deal (λ i. i / size_of cap) channels (empties n) ≡ rows = ground arith in
            rw (← p) (
              deal-Places (λ i. i / size_of cap) n channels
                (λ i b. fits_below n (size_of cap) channels i (positive cap e) (ground arith) b))
      ]
    ]
place_channels-Places n channels (unknown d) cap rows some_conn known h = absurd (known d refl)
