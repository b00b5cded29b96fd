-- ===== src/Bench/Worker/Tally.antt =====
-- What the runs of the workers of internal/bench/worker.go keep: the tally of the messages that were seen.
use golang_mq.Base.{
  ℕ, zero, suc, ◌^◌, ◌≤◌, ◌<◌, ◌≡◌, refl, ap, subst, sym, ◌∙◌, Bool, true, false, not, ◌||◌, ◌-◌,
  nat_beq, ◌⊎◌, none, some, List, [], ◌∷◌, length, arith, Bool-cases, Option-cases, inl, inr,
  if◌then◌else◌,
}
use mathlib.Core.Option.{some-injective}
use golang_mq.Base.Int.{ℤ, pos, below}
use golang_mq.Bench.Float.{Float}
use golang_mq.Bench.Topology.{ChannelSlot}
use golang_mq.Bench.Counters.{change_at}
use golang_mq.Bench.Stats.Ledger.{
  Entry, publication, delivery, answer_to_ack, Log, count, empty_log, note, begin_log, sample_log,
  is_consumption, stats_of,
}
use golang_mq.Bench.Stats.Refines.{
  IsNumbered, record_ack-stats, begin_measured-stats, sample_window-stats, new_stats-stats,
}
use golang_mq.Bench.Worker.{
  Shared, PublishWorker, Turn, Arrival, index_before, stamp, mint, finish_publish, latency, time_at,
  seen_at, receive, acknowledge,
}
use golang_mq.Bench.Worker.Runs.{
  new_shared, Step, mints, finishes, receives, acknowledges, begins_measured, samples, Reach,
  starts, goes,
}
use golang_mq.Bench.Worker.Flags.{
  count_true, none_seen, none_true, length-mark, count_true-mark, seen_at-mark-others,
  count_true-length,
}
use golang_mq.Bench.Worker.Minting.{inc_u64-suc}
use golang_mq.Bench.Worker.Publishing.{all-note, length-repeat, finish-fine}
use golang_mq.Bench.Worker.Receiving.{delivered_to, receive-stats}

module _ {F : Type 0} ⦃f : Float F⦄ (conns capable total : ℕ) where
  -- The consumptions that were recorded are the messages that were seen.
  pub record IsTallied (s : Shared F) (l : Log F) : Type 0 where
    pub kept : s.stats ≡ stats_of conns capable total l
    pub tally : count is_consumption l.all ≡ count_true s.seen
    pub times : length s.sent_times ≡ total
    pub flags : length s.seen ≡ total
    pub unseen : (i : ℕ) → s.seq_gen ≤ i → seen_at i s.seen ≡ false

change_at-cases :
    {A : Type 0} (g : A → A) (i : ℕ) (xs : List A)
    → (change_at g i xs ≡ none)
      ⊎ ((ys : List A) × (change_at g i xs ≡ some ys) × (length ys ≡ length xs))
unfolding change_at
change_at-cases g i [] = inl refl
change_at-cases g zero (x ∷ xs) = inr (g x ∷ xs, refl, refl)
change_at-cases g (suc i) (x ∷ xs) = elim (change_at-cases g i xs) [
  | inl miss ↦ inl (rw miss refl)
  | inr (ys, hit, l) ↦ inr (x ∷ ys, rw hit refl, rw l refl)
]

module _ {F : Type 0} where
  -- What minting leaves as it is.
  record IsStamped (seq : ℕ) (s r : Shared F) : Type 0 where
    number : r.seq_gen ≡ seq
    stats : r.stats ≡ s.stats
    seen : r.seen ≡ s.seen
    times : length r.sent_times ≡ length s.sent_times

  stamp-IsStamped :
      (seq : ℕ) (now : ℤ) (body : List ℕ) (s : Shared F)
      → IsStamped s.seq_gen s (stamp seq now body s).1
  unfolding stamp
  stamp-IsStamped seq now body s = elim (change_at-cases (λ t. now) (seq - 1) s.sent_times) [
    | inl miss ↦
        rw (stamp, miss) (record { number = refl; stats = refl; seen = refl; times = refl })
    | inr (ys, hit, l) ↦
        rw (stamp, hit) (record { number = refl; stats = refl; seen = refl; times = l })
  ]

  mint-IsStamped :
      (now : ℤ) (body : List ℕ) (s : Shared F)
      → suc s.seq_gen < 2 ^ 63
      → IsStamped (suc s.seq_gen) s (mint now body s).1
  unfolding mint
  mint-IsStamped now body s small =
      rw (inc_u64-suc s.seq_gen (omega arith))
        (elim (Bool-cases (
          nat_beq (suc s.seq_gen) 0
          || not (below (index_before (suc s.seq_gen)) (length s.sent_times)))) [
            | inl over ↦ rw over (record { number = refl; stats = refl; seen = refl; times = refl })
            | inr fits ↦ rw fits (
                stamped
                  (stamp-IsStamped (suc s.seq_gen) now body (record s { seq_gen = suc s.seq_gen })))
          ])
    where
      stamped :
          {r : Shared F}
          → IsStamped (suc s.seq_gen) (record s { seq_gen = suc s.seq_gen }) r
          → IsStamped (suc s.seq_gen) s r
      stamped h = record { number = h.number; stats = h.stats; seen = h.seen; times = h.times }

module _ {F : Type 0} ⦃f : Float F⦄ (conns capable total : ℕ) where
  -- A step that changes neither what was consumed nor what was seen.
  carries :
      (s r : Shared F) (l m : Log F)
      → IsTallied conns capable total s l
      → r.stats ≡ stats_of conns capable total m
      → count is_consumption m.all ≡ count is_consumption l.all
      → r.seen ≡ s.seen
      → length r.sent_times ≡ length s.sent_times
      → s.seq_gen ≤ r.seq_gen
      → IsTallied conns capable total r m
  carries s r l m h kept same seen times later = record {
    kept = kept;
    tally = same ∙ h.tally ∙ sym (ap count_true seen);
    times = times ∙ h.times;
    flags = ap length seen ∙ h.flags;
    unseen = λ i above. ap (seen_at i) seen ∙ h.unseen i (omega arith);
  }

  not_consumed :
      (seq : ℕ) (e : Entry F) (l : Log F)
      → is_consumption e ≡ false
      → count is_consumption (note seq e l).all ≡ count is_consumption l.all
  unfolding count
  not_consumed seq e l silent = rw (all-note seq e l, silent) refl

  finish-IsTallied :
      (w : PublishWorker) (t : Turn F) (seq : ℕ) (body : List ℕ) (s : Shared F) (l : Log F)
      → w.slot.conn < conns
      → IsNumbered capable w.slot.publish_cap_idx
      → IsTallied conns capable total s l
      → (m : Log F) × IsTallied conns capable total (finish_publish w t seq body s).1 m
  finish-IsTallied w t seq body s l on_conn on_channel h = elim (Option-cases t.publish_error) [
    | inl taken ↦ (
      note seq (publication w.slot) l,
      rw (finish-fine conns capable total w t seq body s l on_conn on_channel taken h.kept) (
          carries s _ l (note seq (publication w.slot) l) h refl
            (not_consumed seq (publication w.slot) l refl) refl refl (omega arith)),
    )
    | inr (e, refused) ↦ (
      l,
      unfold finish_publish in rw refused (carries s _ l l h h.kept refl refl refl (omega arith)),
    )
  ]

  -- A delivery counts as a consumption if and only if it marks a message.
  receive-IsTallied :
      (sl : ChannelSlot) (g : ℕ) (recv : ℤ) (s : Shared F) (l : Log F)
      → sl.conn < conns
      → g < s.seq_gen
      → g < length s.sent_times
      → length s.sent_times < 2 ^ 63
      → IsTallied conns capable total s l
      → (r : Shared F) × (receive sl (suc g) recv s ≡ some r)
        × IsTallied conns capable total r (delivered_to conns capable total sl g recv s l)
  unfolding count
  receive-IsTallied sl g recv s l on_conn given small bound h = (
    _,
    receive-stats conns capable total sl g recv s l on_conn small bound h.kept,
    record {
      kept = refl;
      tally =
          rw
            (
              all-note (suc g)
                  (delivery sl (latency recv (time_at g s.sent_times)) (seen_at g s.seen)) l,
              count_true-mark g s.seen (omega (arith, h.times, h.flags)),
              h.tally,
            )
            (fresh (seen_at g s.seen) (count_true s.seen));
      times = h.times;
      flags = length-mark g s.seen ∙ h.flags;
      unseen = λ i above. seen_at-mark-others g i s.seen (omega arith) ∙ h.unseen i above;
    },
  )
    where
      fresh : (b : Bool) (n : ℕ) → (if not b then suc n else n) ≡ (if b then n else suc n)
      fresh true n = refl
      fresh false n = refl

  acknowledge-IsTallied :
      (ack : Bool) (seq : ℕ) (a : Arrival F) (s : Shared F) (l : Log F)
      → IsTallied conns capable total s l
      → (m : Log F) × IsTallied conns capable total (acknowledge ack seq a s).1 m
  unfolding acknowledge
  acknowledge-IsTallied false seq a s l h = (l, h)
  acknowledge-IsTallied true seq a s l h = elim (Option-cases a.ack_error) [
    | inl taken ↦ (
      note seq (answer_to_ack a.took_us) l,
      rw taken (
          carries s _ l (note seq (answer_to_ack a.took_us) l) h
            (rw h.kept (record_ack-stats conns capable total seq a.took_us l))
            (not_consumed seq (answer_to_ack a.took_us) l refl) refl refl (omega arith)),
    )
    | inr (e, refused) ↦ (l, rw refused h)
  ]

  Step-IsTallied :
      (s s' : Shared F) (l : Log F)
      → total < 2 ^ 63
      → IsTallied conns capable total s l
      → Step conns capable total s s'
      → (m : Log F) × IsTallied conns capable total s' m
  Step-IsTallied s s' l bound h (mints now body small) =
      let m = mint-IsStamped now body s small in
      (l, carries s _ l l h (m.stats ∙ h.kept) refl m.seen m.times (omega (arith, m.number)))
  Step-IsTallied s s' l bound h (finishes w t seq body on_conn on_channel) =
      finish-IsTallied w t seq body s l on_conn on_channel h
  Step-IsTallied s s' l bound h (receives sl g recv on_conn given small e) =
      let (r, hit, after) =
        receive-IsTallied sl g recv s l on_conn given small (omega (arith, h.times)) h in
      (
        _,
        subst
            (λ x. IsTallied conns capable total x (delivered_to conns capable total sl g recv s l))
            (some-injective _ _ (sym hit ∙ e)) after,
      )
  Step-IsTallied s s' l bound h (acknowledges ack seq a) = acknowledge-IsTallied ack seq a s l h
  Step-IsTallied s s' l bound h begins_measured = (
    begin_log s.seq_gen l,
    carries s _ l (begin_log s.seq_gen l) h
        (rw h.kept (begin_measured-stats conns capable total s.seq_gen l))
        (unfold begin_log in refl) refl refl (omega arith),
  )
  Step-IsTallied s s' l bound h (samples ts end) = (
    sample_log l,
    carries s _ l (sample_log l) h (rw h.kept (sample_window-stats conns capable total ts end l))
        (unfold sample_log in refl) refl refl (omega arith),
  )

  new-IsTallied : IsTallied {F = F} conns capable total (new_shared conns capable total) empty_log
  unfolding new_shared empty_log count
  new-IsTallied = record {
    kept = new_stats-stats conns capable total;
    tally = sym (none_true total);
    times = length-repeat total (pos 0);
    flags = length-repeat total false;
    unseen = λ i above. none_seen i total;
  }

  pub Reach-IsTallied :
      {s : Shared F}
      → total < 2 ^ 63
      → Reach conns capable total s
      → (l : Log F) × IsTallied conns capable total s l
  Reach-IsTallied bound starts = (empty_log, new-IsTallied)
  Reach-IsTallied bound (goes r step) =
      let (l, h) = Reach-IsTallied bound r in Step-IsTallied _ _ l bound h step

  -- If the budget is below 2^63, then however the minting, sending, receiving and acknowledging of
  -- all workers interleave, with whatever errors, boundaries and samples, as long as only messages
  -- whose numbers were given out within the budget are delivered: the all-time counter of consumed
  -- messages is the number of messages that were seen, so that none counts twice, and is at most
  -- the budget.
  pub Reach-consumed :
      {s : Shared F}
      → total < 2 ^ 63
      → Reach conns capable total s
      → (s.stats.all_consumed ≡ count_true s.seen) × (s.stats.all_consumed ≤ total)
  unfolding stats_of
  Reach-consumed {s} bound r =
      let (l, h) = Reach-IsTallied bound r in
      let small : count_true s.seen ≤ total = omega (arith, count_true-length s.seen, h.flags) in
      let e : s.stats.all_consumed ≡ count_true s.seen =
        ap (λ x. x.all_consumed) h.kept ∙ omega (arith, h.tally, small) in
      (e, omega (arith, e, small))
