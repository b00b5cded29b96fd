-- ===== src/Bench/Latency.antt =====
-- latencySet of internal/bench/metrics.go. The mutex of a set makes each function one step; a `uint64`
-- wraps around at 2^64.
pub mod Order
pub mod Summaries
use golang_mq.Base.{
  ℕ, zero, suc, ◌+◌, ◌-◌, ◌%◌, Bool, true, false, not, ◌&&◌, ◌||◌, List, [], ◌∷◌, ◌++◌, ltb, length,
  if◌then◌else◌,
}
use golang_mq.Base.Int.{ℤ, pos, negsuc, dec}
use golang_mq.Bench.Header.{u64_mod}
use golang_mq.Bench.Float.{Float, of_nat, nought, before, rank}

-- Add(1) and ++ on a `uint64`
unfoldable pub inc_u64 : ℕ → ℕ
inc_u64 n = (n + 1) % u64_mod

pub record LatencySummary (F : Type 0) : Type 0 where
  pub count : ℕ
  pub min : F
  pub avg : F
  pub max : F
  pub p50 : F
  pub p95 : F
  pub p99 : F

pub record LatencySet (F : Type 0) : Type 0 where
  pub samples : List F
  pub count : ℕ
  pub sum : F
  pub min : F
  pub max : F
  pub has : Bool

-- idx < 0 and idx >= len(sorted)
unfoldable pub clamp : ℤ → ℕ → ℕ
clamp (negsuc i) n = 0
clamp (pos i) n = if ltb i n then i else n - 1

module _ {F : Type 0} ⦃f : Float F⦄ where
  unfoldable pub new_latency_set : LatencySet F
  new_latency_set = record {
    samples = [];
    count = 0;
    sum = nought;
    min = nought;
    max = nought;
    has = false;
  }

  unfoldable pub add : F → LatencySet F → LatencySet F
  unfolding inc_u64
  add v s = record {
    samples = s.samples ++ v ∷ [];
    count = inc_u64 s.count;
    sum = f.plus s.sum v;
    min = if not s.has || f.lt v s.min then v else s.min;
    max = if not s.has || f.lt s.max v then v else s.max;
    has = true;
  }

  unfoldable pub reset : LatencySet F → LatencySet F
  reset s = record {
    samples = [];
    count = 0;
    sum = nought;
    min = nought;
    max = nought;
    has = false;
  }

  -- sorted[i]; the index is in range
  unfoldable pub nth : ℕ → List F → F
  nth i [] = nought
  nth zero (x ∷ xs) = x
  nth (suc i) (x ∷ xs) = nth i xs

  unfoldable pub percentile : List F → F → F
  unfolding nth clamp dec rank
  percentile [] p = nought
  percentile (x ∷ xs) p = let n = length (x ∷ xs) in nth (clamp (dec (rank p n)) n) (x ∷ xs)

  -- sort.Float64sAreSorted
  unfoldable pub are_sorted : List F → Bool
  unfolding before
  are_sorted [] = true
  are_sorted (x ∷ []) = true
  are_sorted (x ∷ y ∷ ys) = not (before y x) && are_sorted (y ∷ ys)

  -- sort.Float64s
  unfoldable pub insert : F → List F → List F
  unfolding before
  insert x [] = x ∷ []
  insert x (y ∷ ys) = let rest = insert x ys in if before y x then y ∷ rest else x ∷ y ∷ ys

  unfoldable pub sort : List F → List F
  unfolding insert
  sort [] = []
  sort (x ∷ xs) = insert x (sort xs)

  -- The samples in order: a copy is sorted if they are not in order yet.
  unfoldable pub sorted_samples : List F → List F
  unfolding sort are_sorted
  sorted_samples xs = if ltb 1 (length xs) && not (are_sorted xs) then sort xs else xs

  unfoldable pub summary : LatencySet F → LatencySummary F
  unfolding sorted_samples percentile
  summary s =
      let sorted = sorted_samples s.samples in
      if s.has
      then record {
        count = s.count;
        min = s.min;
        avg = f.over s.sum (of_nat s.count);
        max = s.max;
        p50 = percentile sorted (of_nat 50);
        p95 = percentile sorted (of_nat 95);
        p99 = percentile sorted (of_nat 99);
      }
      else record {
        count = 0;
        min = nought;
        avg = nought;
        max = nought;
        p50 = nought;
        p95 = nought;
        p99 = nought;
      }

  unfoldable pub snapshot_reset : LatencySet F → LatencySummary F × LatencySet F
  unfolding summary reset
  snapshot_reset s = (summary s, reset s)
