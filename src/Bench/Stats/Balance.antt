-- ===== src/Bench/Stats/Balance.antt =====
-- How the counters of stats of internal/bench/metrics.go agree with one another.
use golang_mq.Base.{
  ℕ, zero, suc, ◌+◌, ◌<◌, ◌≡◌, refl, some, Bool, true, false, ◌&&◌, List, [], ◌∷◌, All, inl, inr,
  leb, Bool-cases, arith,
}
use golang_mq.Bench.Float.{Float}
use golang_mq.Bench.Latency.{add}
use golang_mq.Bench.Latency.Summaries.{gather}
use golang_mq.Bench.Counters.{Stats, ConnStats, IntervalRecord, new_stats}
use golang_mq.Bench.Stats.Ledger.{
  Entry, publication, delivery, answer_to_ack, Log, count, table, wrap, empty_log, note, begin_log,
  sample_log, latencies, row_of, stats_of, is_on, is_publication, is_delivery, is_duplicate,
  is_consumption,
}
use golang_mq.Bench.Stats.Refines.{inc-wrap}
use golang_mq.Bench.Stats.Runs.{
  Event, publishes, delivers, acks, begins_measured, samples, IsPlaced, log_event, log_of, run,
  rows_along, run-new_stats,
}
use golang_mq.Bench.Stats.Columns.{IsOn, sum_counts, sum_counts-count}

unfoldable pub sum_conns : {F : Type 0} → (ConnStats F → ℕ) → List (ConnStats F) → ℕ
sum_conns g [] = 0
sum_conns g (c ∷ cs) = g c + sum_conns g cs

-- The totals of one state against one another; all are numbers below 2^64. The counters of the window
-- are not compared: a sample swaps them one by one, and may come between the updates of a record call.
pub record IsBalanced {F : Type 0} (s : Stats F) : Type 0 where
  pub deliveries : s.delivered ≡ wrap (s.consumed + s.duplicates)
  pub samples : s.del_lat_tot.count ≡ s.delivered
  pub conns_published : s.published ≡ wrap (sum_conns (λ c. c.published) s.per_conn)
  pub conns_delivered : s.delivered ≡ wrap (sum_conns (λ c. c.delivered) s.per_conn)
  pub conns_consumed : s.consumed ≡ wrap (sum_conns (λ c. c.consumed) s.per_conn)

module _ {F : Type 0} where
  count-deliveries :
      (l : List (Entry F)) → count is_delivery l ≡ count is_consumption l + count is_duplicate l
  unfolding count
  count-deliveries [] = omega arith
  count-deliveries (publication sl ∷ l) = count-deliveries l
  count-deliveries (delivery sl v true ∷ l) = omega (arith, count-deliveries l)
  count-deliveries (delivery sl v false ∷ l) = omega (arith, count-deliveries l)
  count-deliveries (answer_to_ack v ∷ l) = count-deliveries l

  -- The connection of an entry is one of those below `conns`.
  unfoldable pub IsSeated : ℕ → Entry F → Type 0
  IsSeated conns (publication sl) = sl.conn < conns
  IsSeated conns (delivery sl v dup) = sl.conn < conns
  IsSeated conns (answer_to_ack v) = Unit

  IsSeated-IsOn :
      (p : Entry F → Bool) (conns : ℕ) (l : List (Entry F))
      → ((v : F) → p (answer_to_ack v) ≡ false)
      → All (IsSeated conns) l
      → All (IsOn p conns) l
  unfolding IsOn IsSeated
  IsSeated-IsOn p conns [] silent h = tt
  IsSeated-IsOn p conns (publication sl ∷ l) silent h =
      ((λ counts. (sl.conn, h.0, λ j. refl)), IsSeated-IsOn p conns l silent h.1)
  IsSeated-IsOn p conns (delivery sl v dup ∷ l) silent h =
      ((λ counts. (sl.conn, h.0, λ j. refl)), IsSeated-IsOn p conns l silent h.1)
  IsSeated-IsOn p conns (answer_to_ack v ∷ l) silent h =
      ((λ counts. cc (counts, silent v)), IsSeated-IsOn p conns l silent h.1)

  note-IsSeated :
      (conns seq : ℕ) (e : Entry F) (l : Log F)
      → IsSeated conns e
      → All (IsSeated conns) l.measured
      → All (IsSeated conns) (note seq e l).measured
  unfolding note
  note-IsSeated conns seq e l on h = elim (Bool-cases (leb seq l.cutoff)) [
    | inl small ↦ rw small h
    | inr large ↦ rw large (on, h)
  ]

  event-IsSeated :
      (conns capable : ℕ) (e : Event F) (l : Log F)
      → IsPlaced conns capable e
      → All (IsSeated conns) l.measured
      → All (IsSeated conns) (log_event e l).measured
  unfolding IsPlaced IsSeated log_event begin_log sample_log
  event-IsSeated conns capable (publishes sl seq v) l on h =
      note-IsSeated conns seq (publication sl) l on.0 h
  event-IsSeated conns capable (delivers sl seq v dup) l on h =
      note-IsSeated conns seq (delivery sl v dup) l on h
  event-IsSeated conns capable (acks seq v) l on h =
      note-IsSeated conns seq (answer_to_ack v) l tt h
  event-IsSeated conns capable (begins_measured seq) l on h = tt
  event-IsSeated conns capable (samples ts end) l on h = h

  pub log_of-IsSeated :
      (conns capable : ℕ) (es : List (Event F)) (l : Log F)
      → All (IsPlaced conns capable) es
      → All (IsSeated conns) l.measured
      → All (IsSeated conns) (log_of es l).measured
  unfolding log_of
  log_of-IsSeated conns capable [] l on h = h
  log_of-IsSeated conns capable (e ∷ es) l on h =
      log_of-IsSeated conns capable es (log_event e l) on.1
        (event-IsSeated conns capable e l on.0 h)

module _ {F : Type 0} ⦃f : Float F⦄ where
  gather-count :
      (l : List (Entry F)) → (gather (latencies (λ sl. true) l)).count ≡ wrap (count is_delivery l)
  unfolding gather latencies count add
  gather-count [] = refl
  gather-count (publication sl ∷ l) = gather-count l
  gather-count (delivery sl v dup ∷ l) = rw (gather-count l) (inc-wrap (count is_delivery l))
  gather-count (answer_to_ack v ∷ l) = gather-count l

  -- A column of the table of connections adds up to the sum of its counts.
  conns-sum :
      (column : ConnStats F → ℕ) (p : Entry F → Bool) (l : List (Entry F)) (i n : ℕ)
      → ((j : ℕ) → column (row_of l j) ≡ wrap (count (λ e. is_on j e && p e) l))
      → wrap (sum_conns column (table (row_of l) i n)) ≡ wrap (sum_counts p l i n)
  unfolding sum_conns table sum_counts
  conns-sum column p l i zero h = refl
  conns-sum column p l i (suc n) h = omega (arith, h i, conns-sum column p l (suc i) n h)

  column-total :
      (column : ConnStats F → ℕ) (p : Entry F → Bool) (l : List (Entry F)) (conns : ℕ)
      → ((j : ℕ) → column (row_of l j) ≡ wrap (count (λ e. is_on j e && p e) l))
      → ((v : F) → p (answer_to_ack v) ≡ false)
      → All (IsSeated conns) l
      → wrap (count p l) ≡ wrap (sum_conns column (table (row_of l) 0 conns))
  column-total column p l conns h silent seated =
      rw
        (
          conns-sum column p l 0 conns h,
          sum_counts-count p conns l (IsSeated-IsOn p conns l silent seated),
        )
        refl

  pub stats_of-IsBalanced :
      (conns capable total : ℕ) (l : Log F)
      → All (IsSeated conns) l.measured
      → IsBalanced (stats_of conns capable total l)
  unfolding stats_of row_of
  stats_of-IsBalanced conns capable total l seated = record {
    deliveries = omega (arith, count-deliveries l.measured);
    samples = gather-count l.measured;
    conns_published =
        column-total (λ c. c.published) is_publication l.measured conns (λ j. refl) (λ v. refl)
          seated;
    conns_delivered =
        column-total (λ c. c.delivered) is_delivery l.measured conns (λ j. refl) (λ v. refl) seated;
    conns_consumed =
        column-total (λ c. c.consumed) is_consumption l.measured conns (λ j. refl) (λ v. refl)
          seated;
  }

  -- After any run of record calls, boundaries and samples whose slots stand in the topology,
  -- modulo 2^64: the deliveries of the phase are the consumed messages and the duplicates; as many
  -- latencies are kept as there are deliveries; and the published, delivered and consumed messages
  -- of all connections add up to the totals.
  pub run-IsBalanced :
      (conns capable total : ℕ) (es : List (Event F))
      → All (IsPlaced conns capable) es
      → (end : List (IntervalRecord F) × Stats F) × (run es (new_stats conns capable total)
          ≡ some end)
        × IsBalanced end.1
  unfolding empty_log
  run-IsBalanced conns capable total es placed =
      let l = log_of es empty_log in
      (
        (rows_along conns capable total es empty_log, stats_of conns capable total l),
        run-new_stats conns capable total es placed,
        stats_of-IsBalanced conns capable total l
            (log_of-IsSeated conns capable es empty_log placed tt),
      )
