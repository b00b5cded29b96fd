-- ===== src/Bench/Latency/Summaries.antt =====
-- What summary and percentile of internal/bench/metrics.go report of the samples added to a set.
use mathlib.Core.List.{Mem, mem-cons_self, mem-cons_of_mem}
use golang_mq.Base.{
  ℕ, zero, suc, ◌^◌, ◌≤◌, ◌<◌, ◌≡◌, refl, true, List, [], ◌∷◌, ◌++◌, inl, inr, All, length,
  length-append, arith, Bool-cases,
}
use golang_mq.Base.Int.{ℤ, pos, negsuc, dec}
use golang_mq.Bench.Float.{Float, of_nat, rank, ◌≼◌, IsNumber, IsAtMost, IsIeee}
use golang_mq.Bench.Latency.{
  LatencySummary, LatencySet, clamp, new_latency_set, add, nth, percentile, sorted_samples, summary,
}
use golang_mq.Bench.Latency.Order.{
  All-map, sorted_samples-All, length-sorted_samples, nth-All, le_refl, sorted_samples-IsSorted,
  nth-le,
}

clamp-bound : (i : ℤ) (n : ℕ) → 0 < n → clamp i n < n
unfolding clamp
clamp-bound (pos i) n some_left = ground arith
clamp-bound (negsuc i) n some_left = some_left

-- Clamping keeps the order of two positions.
clamp_mono : (i j : ℤ) (n : ℕ) → 0 < n → IsAtMost i j → clamp (dec i) n ≤ clamp (dec j) n
unfolding clamp dec IsAtMost
clamp_mono (pos zero) (pos j) n some_left h = ground arith
clamp_mono (pos (suc i)) (pos zero) n some_left h = absurd (omega arith)
clamp_mono (pos (suc i)) (pos (suc j)) n some_left h = ground arith
clamp_mono (pos i) (negsuc j) n some_left h = absurd h
clamp_mono (negsuc i) (pos j) n some_left h = ground arith
clamp_mono (negsuc i) (negsuc j) n some_left h = ground arith

All-append :
    {A : Type 0} (P : A → Type 0) (xs : List A) (y : A) → All P xs → P y → All P (xs ++ y ∷ [])
All-append P [] y h py = (py, tt)
All-append P (x ∷ xs) y h py = (h.0, All-append P xs y h.1 py)

All-Mem : {A : Type 0} (xs : List A) → All (λ x. Mem x xs) xs
All-Mem [] = tt
All-Mem (x ∷ xs) = (mem-cons_self, All-map (λ y m. mem-cons_of_mem x m) xs (All-Mem xs))

module _ {F : Type 0} ⦃f : Float F⦄ where
  -- The set after `vs` were added, the last one first.
  unfoldable pub gather : List F → LatencySet F
  unfolding new_latency_set add
  gather [] = new_latency_set
  gather (v ∷ vs) = add v (gather vs)

  percentile-nth :
      (xs : List F) (p : F)
      → 0 < length xs
      → percentile xs p ≡ nth (clamp (dec (rank p (length xs))) (length xs)) xs
  unfolding percentile
  percentile-nth [] p some_left = absurd (omega arith)
  percentile-nth (x ∷ xs) p some_left = refl

  pub percentile-All :
      (P : F → Type 0) (xs : List F) (p : F)
      → 0 < length xs
      → All P xs
      → P (percentile (sorted_samples xs) p)
  percentile-All P xs p some_left h =
      let ys = sorted_samples xs in
      let filled : 0 < length ys = rw (length-sorted_samples xs) some_left in
      let i = dec (rank p (length ys)) in
      rw (percentile-nth ys p filled) (
        nth-All P (clamp i (length ys)) ys (clamp-bound i (length ys) filled)
          (sorted_samples-All P xs h))

  pub percentile-Mem :
      (xs : List F) (p : F) → 0 < length xs → Mem (percentile (sorted_samples xs) p) xs
  percentile-Mem xs p some_left = percentile-All (λ x. Mem x xs) xs p some_left (All-Mem xs)

  -- What a set knows of its samples.
  record IsKept (s : LatencySet F) : Type 0 where
    numbers : All IsNumber s.samples
    filled : 0 < length s.samples
    has : s.has ≡ true
    least : All (λ x. s.min ≼ x) s.samples
    greatest : All (λ x. x ≼ s.max) s.samples
    least_number : IsNumber s.min
    greatest_number : IsNumber s.max

  -- What a summary shows.
  unfoldable pub IsOrdered : LatencySummary F → Type 0
  IsOrdered o = (o.min ≼ o.p50) × (o.p50 ≼ o.p95) × (o.p95 ≼ o.p99) × (o.p99 ≼ o.max)

  module _ (laws : IsIeee F) where
    first-IsKept : (v : F) → IsNumber v → IsKept (gather (v ∷ []))
    unfolding gather add new_latency_set
    first-IsKept v number = record {
      numbers = (number, tt);
      filled = omega arith;
      has = refl;
      least = (le_refl laws v, tt);
      greatest = (le_refl laws v, tt);
      least_number = number;
      greatest_number = number;
    }

    add-IsKept : (v : F) (s : LatencySet F) → IsNumber v → IsKept s → IsKept (add v s)
    unfolding add
    add-IsKept v s number h = record {
      numbers = All-append IsNumber s.samples v h.numbers number;
      filled = rw (length-append s.samples (v ∷ [])) (omega arith);
      has = refl;
      least = rw h.has (elim (Bool-cases (f.lt v s.min)) [
        | inl e ↦ rw e (
            All-append (λ x. v ≼ x) s.samples v
              (All-map (λ x l. laws.le_trans v s.min x h.least_number (laws.lt_asymm v s.min e) l)
                s.samples h.least)
              (le_refl laws v))
        | inr e ↦ rw e (All-append (λ x. s.min ≼ x) s.samples v h.least e)
      ]);
      greatest = rw h.has (elim (Bool-cases (f.lt s.max v)) [
        | inl e ↦ rw e (
            All-append (λ x. x ≼ v) s.samples v
              (All-map
                (λ x l. laws.le_trans x s.max v h.greatest_number l (laws.lt_asymm s.max v e))
                s.samples h.greatest)
              (le_refl laws v))
        | inr e ↦ rw e (All-append (λ x. x ≼ s.max) s.samples v h.greatest e)
      ]);
      least_number =
          rw h.has (elim (Bool-cases (f.lt v s.min)) [
            | inl e ↦ rw e number
            | inr e ↦ rw e h.least_number
          ]);
      greatest_number = rw h.has (elim (Bool-cases (f.lt s.max v)) [
        | inl e ↦ rw e number
        | inr e ↦ rw e h.greatest_number
      ]);
    }

    gather-IsKept : (v : F) (vs : List F) → All IsNumber (v ∷ vs) → IsKept (gather (v ∷ vs))
    unfolding gather
    gather-IsKept v [] h = first-IsKept v h.0
    gather-IsKept v (w ∷ ws) h = add-IsKept v (gather (w ∷ ws)) h.0 (gather-IsKept w ws h.1)

    percentile-le :
        (xs : List F) (p q : ℕ)
        → All IsNumber xs
        → 0 < length xs
        → length xs < 2 ^ 63
        → p ≤ q
        → q ≤ 100
        → percentile (sorted_samples xs) (of_nat p) ≼ percentile (sorted_samples xs) (of_nat q)
    percentile-le xs p q numbers some_left bound order top =
        let ys = sorted_samples xs in
        let filled : 0 < length ys = rw (length-sorted_samples xs) some_left in
        let n = length ys in
        let i = rank (of_nat p) n in
        let j = rank (of_nat q) n in
        rw (percentile-nth ys (of_nat p) filled, percentile-nth ys (of_nat q) filled)
          (nth-le laws (clamp (dec i) n) (clamp (dec j) n) ys
            (sorted_samples-IsSorted laws xs numbers)
            (clamp_mono i j n filled
              (laws.rank_mono p q n order top (rw (length-sorted_samples xs) bound)))
            (clamp-bound (dec j) n filled))

    summary-kept : (s : LatencySet F) → IsKept s → length s.samples < 2 ^ 63 → IsOrdered (summary s)
    unfolding summary IsOrdered
    summary-kept s h bound =
        let xs = s.samples in
        rw h.has (
          percentile-All (λ x. s.min ≼ x) xs (of_nat 50) h.filled h.least,
          percentile-le xs 50 95 h.numbers h.filled bound (omega arith) (omega arith),
          percentile-le xs 95 99 h.numbers h.filled bound (omega arith) (omega arith),
          percentile-All (λ x. x ≼ s.max) xs (of_nat 99) h.filled h.greatest,
        )

    length-gather : (vs : List F) → length (gather vs).samples ≡ length vs
    unfolding gather add new_latency_set
    length-gather [] = refl
    length-gather (v ∷ vs) =
        rw (length-append (gather vs).samples (v ∷ []), length-gather vs) (omega arith)

    -- For a float64 that compares as IEEE 754 says, the summary of fewer than 2^63 samples, at
    -- least one, none of them a NaN, is in order: the least sample, the percentiles 50, 95 and 99,
    -- and the greatest sample.
    pub summary-IsOrdered :
        (v : F) (vs : List F)
        → All IsNumber (v ∷ vs)
        → length (v ∷ vs) < 2 ^ 63
        → IsOrdered (summary (gather (v ∷ vs)))
    summary-IsOrdered v vs numbers bound =
        summary-kept (gather (v ∷ vs)) (gather-IsKept v vs numbers)
          (rw (length-gather (v ∷ vs)) bound)
