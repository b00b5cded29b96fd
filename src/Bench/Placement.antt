-- ===== src/Bench/Placement.antt =====
-- The placement loops of internal/bench/topology.go: indices are dealt to a row of lists.
pub mod Dealing
pub mod Caps
use golang_mq.Base.{
  ℕ, zero, suc, ◌+◌, ◌*◌, ◌/◌, ◌%◌, Bool, List, [], ◌∷◌, ◌++◌, ltb, nat_beq, ◌⊎◌, inl, inr, String,
  if◌then◌else◌,
}
use golang_mq.Base.Int.{ℤ}
use golang_mq.Bench.Config.{Distribution, even, uneven, unknown, is_not_positive, size_of}

-- `n` lists that are empty.
unfoldable pub empties : ℕ → List (List ℕ)
empties zero = []
empties (suc n) = [] ∷ empties n

-- rows[k] = append(rows[k], x); an index out of range does not occur.
unfoldable pub append_at : ℕ → ℕ → List (List ℕ) → List (List ℕ)
append_at k x [] = []
append_at zero x (row ∷ rows) = (row ++ x ∷ []) ∷ rows
append_at (suc k) x (row ∷ rows) = row ∷ append_at k x rows

-- for i := 0; i < count; i++ { rows[f(i)] = append(rows[f(i)], i) }
unfoldable pub deal : (ℕ → ℕ) → ℕ → List (List ℕ) → List (List ℕ)
unfolding append_at
deal f zero rows = rows
deal f (suc i) rows = append_at (f i) i (deal f i rows)

pub data PlaceError : Type 0 where
  channels_do_not_fit workers_do_not_fit no_slots : PlaceError
  invalid_distribution : String → PlaceError

-- Step 1 of buildTopology: the channels of each of `n` connections. A distribution that is unknown
-- places none.
unfoldable pub place_channels : ℕ → ℕ → Distribution → ℤ → PlaceError ⊎ List (List ℕ)
unfolding empties deal
place_channels n channels even cap = inr (deal (λ i. i % n) channels (empties n))
place_channels n channels uneven cap =
    if is_not_positive cap
    then inr (deal (λ i. 0) channels (empties n))
    else if ltb (n * size_of cap) channels
    then inl channels_do_not_fit
    else inr (deal (λ i. i / size_of cap) channels (empties n))
place_channels n channels (unknown d) cap = inr (empties n)

-- placeWorkers past its first tests, for at least one worker and at least one slot.
unfoldable pub place_workers_in : ℕ → ℕ → Distribution → ℤ → PlaceError ⊎ List (List ℕ)
unfolding empties deal
place_workers_in count slots even cap = inr (deal (λ j. j % slots) count (empties slots))
place_workers_in count slots uneven cap =
    if is_not_positive cap
    then inr (deal (λ j. 0) count (empties slots))
    else if ltb (slots * size_of cap) count
    then inl workers_do_not_fit
    else inr (deal (λ j. j / size_of cap % slots) count (empties slots))
place_workers_in count slots (unknown d) cap = inl (invalid_distribution d)

-- placeWorkers: the workers of each slot.
unfoldable pub place_workers : ℕ → ℕ → Distribution → ℤ → PlaceError ⊎ List (List ℕ)
unfolding place_workers_in empties
place_workers count slots mode cap =
    if nat_beq count 0
    then inr (empties slots)
    else if nat_beq slots 0
    then inl no_slots
    else place_workers_in count slots mode cap
