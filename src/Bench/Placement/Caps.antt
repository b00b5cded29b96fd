-- ===== src/Bench/Placement/Caps.antt =====
-- Uneven packing with a cap, of internal/bench/topology.go: how long the lists become.
use native.Mathlib.Nat.{mod-lt, mod-eq_of_lt, div-add-mod'}
use golang_mq.Base.{
  ℕ, zero, suc, ◌+◌, ◌-◌, ◌*◌, ◌/◌, ◌%◌, ◌≤◌, ◌<◌, ◌≡◌, refl, sym, ◌∙◌, List, [], ◌∷◌, arith, ltb,
  nat_beq, nat_beq_iff, inl, inr, Bool-cases, length, length-append, if◌then◌else◌,
}
use golang_mq.Base.Int.{pos}
use golang_mq.Bench.Config.{uneven}
use golang_mq.Bench.Placement.{
  empties, append_at, deal, place_channels, place_workers, place_workers_in,
}
use golang_mq.Bench.Placement.Dealing.{fits_below}

-- The list at an index; there is nothing past the end.
unfoldable pub row_at : ℕ → List (List ℕ) → List ℕ
row_at k [] = []
row_at zero (row ∷ rows) = row
row_at (suc k) (row ∷ rows) = row_at k rows

row_at-empties : (k n : ℕ) → row_at k (empties n) ≡ []
unfolding row_at empties
row_at-empties k zero = refl
row_at-empties zero (suc n) = refl
row_at-empties (suc k) (suc n) = row_at-empties k n

-- Appending at `j` makes the list there longer by one, and no other.
length-row_at-append_at :
    (k j x : ℕ) (rows : List (List ℕ))
    → length (row_at k (append_at j x rows))
      ≤ (if nat_beq j k then suc (length (row_at k rows)) else length (row_at k rows))
unfolding row_at append_at
length-row_at-append_at k j x [] = ground arith
length-row_at-append_at zero zero x (row ∷ rows) = omega (arith, length-append row (x ∷ []))
length-row_at-append_at zero (suc j) x (row ∷ rows) = ground arith
length-row_at-append_at (suc k) zero x (row ∷ rows) = ground arith
length-row_at-append_at (suc k) (suc j) x (row ∷ rows) =
    ground (arith, length-row_at-append_at k j x rows, nat_beq_iff j k, nat_beq_iff (suc j) (suc k))

-- The index `i` that goes to the list `k` stands between k * cap and (k + 1) * cap.
between : (i cap k : ℕ) → 0 < cap → i / cap ≡ k → (k * cap ≤ i) × (i < k * cap + cap)
between i cap k some_cap h =
    let whole : k * cap + i % cap ≡ i = rw (← h) (div-add-mod' i cap) in
    (omega (arith, whole), omega (arith, whole, mod-lt i some_cap))

module _ (f : ℕ → ℕ) (cap n k : ℕ) (some_cap : 0 < cap) where
  row_bounds :
      (count : ℕ)
      → ((i : ℕ) → i < count → f i ≡ i / cap)
      → (length (row_at k (deal f count (empties n))) ≤ count - k * cap)
        × (length (row_at k (deal f count (empties n))) ≤ cap)
  unfolding deal
  row_bounds zero packs = rw (row_at-empties k n) (omega arith, omega arith)
  row_bounds (suc i) packs =
      let (a, b) = row_bounds i (λ j h. packs j (omega (arith, h))) in
      let step = length-row_at-append_at k (f i) i (deal f i (empties n)) in
      elim (Bool-cases (nat_beq (f i) k)) [
        | inl here ↦
            let (low, high) =
              between i cap k some_cap
                (sym (packs i (omega arith)) ∙ (nat_beq_iff (f i) k).0 here) in
            let grown = rw here at step in
            (omega (arith, grown, a, low), omega (arith, grown, a, low, high))
        | inr other ↦
            let same = rw other at step in (omega (arith, same, a), omega (arith, same, b))
      ]

-- If workers are packed unevenly with a positive cap and placeWorkers reports no error, no slot
-- gets more workers than the cap.
pub place_workers-cap :
    (count slots cap k : ℕ) (rows : List (List ℕ))
    → 0 < cap
    → place_workers count slots uneven (pos cap) ≡ inr rows
    → length (row_at k rows) ≤ cap
unfolding place_workers place_workers_in
place_workers-cap count slots cap k rows some_cap h = elim (Bool-cases (nat_beq count 0)) [
  | inl e ↦
      let p : empties slots ≡ rows = ground arith in rw (← p, row_at-empties k slots) (omega arith)
  | inr e ↦ elim (Bool-cases (nat_beq slots 0)) [
    | inl none_left ↦ ground arith
    | inr f ↦ elim (Bool-cases (ltb (slots * cap) count)) [
      | inl over ↦ ground arith
      | inr room ↦
          let p : deal (λ j. j / cap % slots) count (empties slots) ≡ rows = ground arith in
          rw (← p)
            (row_bounds (λ j. j / cap % slots) cap slots k some_cap count
              (λ i b. mod-eq_of_lt (fits_below slots cap count i some_cap (ground arith) b))).1
    ]
  ]
]

-- If channels are packed unevenly with a positive cap and can be placed, no connection gets more
-- channels than the cap.
pub place_channels-cap :
    (n channels cap k : ℕ) (rows : List (List ℕ))
    → 0 < cap
    → place_channels n channels uneven (pos cap) ≡ inr rows
    → length (row_at k rows) ≤ cap
unfolding place_channels
place_channels-cap n channels cap k rows some_cap h = elim (Bool-cases (ltb (n * cap) channels)) [
  | inl over ↦ ground arith
  | inr room ↦
      let p : deal (λ i. i / cap) channels (empties n) ≡ rows = ground arith in
      rw (← p) (row_bounds (λ i. i / cap) cap n k some_cap channels (λ i b. refl)).1
]
