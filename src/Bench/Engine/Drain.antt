-- ===== src/Bench/Engine/Drain.antt =====
-- The drain of Run in internal/bench/engine.go: polling until the run is drained, the deadline has
-- passed, or the context is done.
use golang_mq.Base.{
  ℕ, zero, suc, ◌+◌, ◌≤◌, ◌<◌, subst, ◌≡◌, refl, ap, ◌∙◌, Bool, true, false, not, ◌&&◌, Option,
  none, some, ltb, arith, Bool-cases, inl, inr, if◌then◌else◌,
}
use golang_mq.Bench.Config.{Config, is_not_positive}
use golang_mq.Bench.Float.{Float}
use golang_mq.Bench.Stats.{drained}
use golang_mq.Bench.Counters.{Stats}

-- What one iteration sees: the statistics, time.Now().Before(deadline), and whether the wait was ended
-- by the context.
pub record Poll (F : Type 0) : Type 0 where
  pub stats : Stats F
  pub before_deadline : Bool
  pub context_done : Bool

pub data DrainEnd : Type 0 where
  is_drained timed_out was_interrupted : DrainEnd

module _ {F : Type 0} ⦃f : Float F⦄ where
  -- Whether the run waits at all.
  unfoldable pub need_drain : Config → Bool → Stats F → Bool
  need_drain c interrupted s =
      not interrupted
      && (not (is_not_positive c.consumers)
          && (if c.ack then ltb 0 s.all_published else ltb 0 s.published))

  -- The loop, for at most `fuel` iterations, from the `i`th on.
  unfoldable pub drain_loop : Bool → (ℕ → Poll F) → ℕ → ℕ → Option DrainEnd
  unfolding drained
  drain_loop ack polls i zero = none
  drain_loop ack polls i (suc fuel) =
      let rest = drain_loop ack polls (suc i) fuel in
      if drained ack (polls i).stats
      then some is_drained
      else if not (polls i).before_deadline
      then some timed_out
      else if (polls i).context_done
      then some was_interrupted
      else rest

  -- Why the loop ends as it does.
  unfoldable pub EndsAt : Bool → Poll F → DrainEnd → Type 0
  EndsAt ack p is_drained = drained ack p.stats ≡ true
  EndsAt ack p timed_out = (drained ack p.stats ≡ false) × (p.before_deadline ≡ false)
  EndsAt ack p was_interrupted =
      (drained ack p.stats ≡ false) × (p.before_deadline ≡ true) × (p.context_done ≡ true)

  -- A poll at which the loop does not end.
  unfoldable pub GoesOn : Bool → Poll F → Type 0
  GoesOn ack p =
      (drained ack p.stats ≡ false) × (p.before_deadline ≡ true) × (p.context_done ≡ false)

  -- Each poll from the first on goes on, if the first does and those after it do.
  GoesOn-from :
      (ack : Bool) (polls : ℕ → Poll F) (i k : ℕ)
      → GoesOn ack (polls i)
      → ((j : ℕ) → suc i ≤ j → j < k → GoesOn ack (polls j))
      → (j : ℕ) → i ≤ j
      → j < k
      → GoesOn ack (polls j)
  GoesOn-from ack polls i k first others j low high = elim (Bool-cases (ltb i j)) [
    | inl above ↦ others j (ground (arith, above)) high
    | inr below ↦
        let same : i ≡ j = ground (arith, below, low) in
        subst (λ m. GoesOn ack (polls m)) same first
  ]

  ends_within :
      (ack : Bool) (polls : ℕ → Poll F) (n i t : ℕ)
      → t ≡ i + n
      → (polls t).before_deadline ≡ false
      → (k : ℕ) × (end : DrainEnd) × (k ≤ t)
        × (drain_loop ack polls i (suc n) ≡ some end)
        × EndsAt ack (polls k) end
        × ((j : ℕ) → i ≤ j → j < k → GoesOn ack (polls j))
  unfolding drain_loop EndsAt GoesOn
  ends_within ack polls zero i t place late =
      let passed : (polls i).before_deadline ≡ false =
        let e : i ≡ t = omega arith in ap (λ j. (polls j).before_deadline) e ∙ late in
      elim (Bool-cases (drained ack (polls i).stats)) [
        | inl done ↦ (
          i,
          is_drained,
          omega arith,
          rw done refl,
          done,
          λ j low high. absurd (omega (arith, low, high)),
        )
        | inr not_done ↦ (
          i,
          timed_out,
          omega arith,
          rw (not_done, passed) refl,
          (not_done, passed),
          λ j low high. absurd (omega (arith, low, high)),
        )
      ]
  ends_within ack polls (suc n) i t place late = elim (Bool-cases (drained ack (polls i).stats)) [
    | inl done ↦ (
      i,
      is_drained,
      omega arith,
      rw done refl,
      done,
      λ j low high. absurd (omega (arith, low, high)),
    )
    | inr not_done ↦ elim (Bool-cases (polls i).before_deadline) [
      | inr passed ↦ (
        i,
        timed_out,
        omega arith,
        rw (not_done, passed) refl,
        (not_done, passed),
        λ j low high. absurd (omega (arith, low, high)),
      )
      | inl early ↦ elim (Bool-cases (polls i).context_done) [
        | inl stopped ↦ (
          i,
          was_interrupted,
          omega arith,
          rw (not_done, early, stopped) refl,
          (not_done, early, stopped),
          λ j low high. absurd (omega (arith, low, high)),
        )
        | inr waits ↦
            let (k, end, order, result, why, before) =
              ends_within ack polls n (suc i) t (omega arith) late in
            (
              k,
              end,
              order,
              rw (not_done, early, waits) result,
              why,
              GoesOn-from ack polls i k (not_done, early, waits) before,
            )
      ]
    ]
  ]

  -- If the deadline has passed at some poll, the drain loop ends by that poll, at the first poll
  -- at which the run is drained, the deadline has passed or the context is done; and it says that
  -- it is drained if it is, else that it has timed out if the deadline has passed, and else that
  -- it was interrupted.
  pub drain_loop-EndsAt :
      (ack : Bool) (polls : ℕ → Poll F) (n : ℕ)
      → (polls n).before_deadline ≡ false
      → (k : ℕ) × (end : DrainEnd) × (k ≤ n)
        × (drain_loop ack polls 0 (suc n) ≡ some end)
        × EndsAt ack (polls k) end
        × ((j : ℕ) → j < k → GoesOn ack (polls j))
  drain_loop-EndsAt ack polls n late =
      let (k, end, order, result, why, before) = ends_within ack polls n 0 n (omega arith) late in
      (k, end, order, result, why, λ j high. before j (omega arith) high)
