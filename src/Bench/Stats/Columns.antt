-- ===== src/Bench/Stats/Columns.antt =====
-- The columns of perConn, of internal/bench/metrics.go: what is counted by connection adds up.
use golang_mq.Base.{
  ℕ, zero, suc, ◌+◌, ◌≤◌, ◌<◌, ◌≡◌, refl, Bool, true, false, ◌&&◌, List, [], ◌∷◌, All, inl, inr,
  nat_beq, Bool-cases, arith,
}
use golang_mq.Bench.Stats.Ledger.{Entry, count, is_on}

module _ {F : Type 0} where
  -- The entry counts on one of the connections below `conns`, if it counts.
  unfoldable pub IsOn : (Entry F → Bool) → ℕ → Entry F → Type 0
  IsOn p conns e = p e ≡ true → (i : ℕ) × (i < conns) × ((j : ℕ) → is_on j e ≡ nat_beq i j)

  unfoldable pub sum_counts : (Entry F → Bool) → List (Entry F) → ℕ → ℕ → ℕ
  sum_counts p l i zero = 0
  sum_counts p l i (suc n) = count (λ e. is_on i e && p e) l + sum_counts p l (suc i) n

  sum_counts-empty : (p : Entry F → Bool) (i n : ℕ) → sum_counts p [] i n ≡ 0
  unfolding sum_counts count
  sum_counts-empty p i zero = refl
  sum_counts-empty p i (suc n) = omega (arith, sum_counts-empty p (suc i) n)

  sum_counts-skip :
      (p : Entry F → Bool) (e : Entry F) (l : List (Entry F)) (i n : ℕ)
      → ((j : ℕ) → i ≤ j → j < i + n → (is_on j e && p e) ≡ false)
      → sum_counts p (e ∷ l) i n ≡ sum_counts p l i n
  unfolding sum_counts count
  sum_counts-skip p e l i zero h = refl
  sum_counts-skip p e l i (suc n) h =
      rw
        (
          h i (omega arith) (omega arith),
          sum_counts-skip p e l (suc i) n λ j low high. h j (omega arith) (omega arith),
        )
        refl

  sum_counts-hit :
      (p : Entry F → Bool) (e : Entry F) (l : List (Entry F)) (i n k : ℕ)
      → p e ≡ true
      → ((j : ℕ) → is_on j e ≡ nat_beq k j)
      → i ≤ k
      → k < i + n
      → sum_counts p (e ∷ l) i n ≡ suc (sum_counts p l i n)
  unfolding sum_counts count
  sum_counts-hit p e l i zero k counts on low high = absurd (omega arith)
  sum_counts-hit p e l i (suc n) k counts on low high = elim (Bool-cases (nat_beq k i)) [
    | inl here ↦
        rw
          (
            counts,
            on i,
            here,
            sum_counts-skip p e l (suc i) n λ j above below. rw (on j, counts) (ground arith),
          )
          (omega arith)
    | inr other ↦
        rw (on i, other, sum_counts-hit p e l (suc i) n k counts on (ground arith) (omega arith))
          (omega arith)
  ]

  -- Each counted entry counts on one connection.
  pub sum_counts-count :
      (p : Entry F → Bool) (conns : ℕ) (l : List (Entry F))
      → All (IsOn p conns) l
      → sum_counts p l 0 conns ≡ count p l
  unfolding count IsOn
  sum_counts-count p conns [] h = sum_counts-empty p 0 conns
  sum_counts-count p conns (e ∷ l) h = elim (Bool-cases (p e)) [
    | inl counts ↦
        let (k, bound, on) = h.0 counts in
        rw
          (
            sum_counts-hit p e l 0 conns k counts on (omega arith) (omega arith),
            sum_counts-count p conns l h.1,
            counts,
          )
          refl
    | inr not_counted ↦
        rw
          (
            sum_counts-skip p e l 0 conns λ j low high. rw not_counted (ground arith),
            sum_counts-count p conns l h.1,
            not_counted,
          )
          refl
  ]
