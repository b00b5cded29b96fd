-- ===== src/Bench/Engine/Sums.antt =====
-- What the summary of a run adds up to: buildSummary of internal/bench/engine.go, on the statistics that
-- the run has made and after the loss was stored.
use golang_mq.Base.{
  ℕ, zero, suc, ◌+◌, ◌-◌, ◌<◌, ◌≡◌, refl, sym, ap, ◌∙◌, true, some, List, [], ◌∷◌, String, ltb,
  length, All, arith, Bool-cases, inl, inr,
}
use golang_mq.Base.Int.{ℤ}
use golang_mq.Bench.Config.{Config}
use golang_mq.Bench.Float.{Float}
use golang_mq.Bench.Latency.{summary, new_latency_set, add}
use golang_mq.Bench.Latency.Summaries.{gather}
use golang_mq.Bench.Topology.{Topology, ChannelSlot}
use golang_mq.Bench.Stats.{loss}
use golang_mq.Bench.Counters.{Stats, ConnStats, IntervalRecord, new_stats}
use golang_mq.Bench.Stats.Ledger.{
  Log, row_of, count_of, wrap, table, empty_log, latencies, stats_of,
}
use golang_mq.Bench.Stats.Refines.{length-table}
use golang_mq.Bench.Stats.Runs.{Event, IsPlaced, log_of, run, rows_along, run-new_stats}
use golang_mq.Bench.Stats.Balance.{sum_conns, IsBalanced, stats_of-IsBalanced, log_of-IsSeated}
use golang_mq.Bench.Engine.Summary.{
  Summary, ByConnRow, ByPubChRow, slot_at, by_conn_rows, by_channel_rows, rate, seconds,
  summary_with, build_summary, store_drops,
}

unfoldable pub sum_by_conn : {F : Type 0} → (ByConnRow F → ℕ) → List (ByConnRow F) → ℕ
sum_by_conn g [] = 0
sum_by_conn g (r ∷ rs) = g r + sum_by_conn g rs

-- The numbers of a summary against one another; all are below 2^64.
pub record IsAddedUp {F : Type 0} (conns : ℕ) (o : Summary F) : Type 0 where
  pub deliveries : o.delivered ≡ wrap (o.consumed + o.duplicates)
  pub latencies : o.delivery_latency.count ≡ o.delivered
  pub rows : length o.by_conn ≡ conns
  pub rows_published : o.published ≡ wrap (sum_by_conn (λ r. r.published) o.by_conn)
  pub rows_consumed : o.consumed ≡ wrap (sum_by_conn (λ r. r.consumed) o.by_conn)
  pub lost : o.drops ≡ o.published - o.consumed

slot_at-some :
    (i : ℕ) (ss : List ChannelSlot) → i < length ss → (s : ChannelSlot) × (slot_at i ss ≡ some s)
unfolding slot_at
slot_at-some i [] h = absurd (omega arith)
slot_at-some zero (s ∷ ss) h = (s, refl)
slot_at-some (suc i) (s ∷ ss) h = slot_at-some i ss (omega arith)

module _ {F : Type 0} ⦃f : Float F⦄ where
  channel_rows-some :
      (sec : F) (slots : List ChannelSlot) (gis counts : List ℕ)
      → All (λ gi. gi < length slots) gis
      → length counts ≡ length gis
      → (rows : List (ByPubChRow F)) × (by_channel_rows sec slots gis counts ≡ some rows)
  unfolding by_channel_rows
  channel_rows-some sec slots [] counts h same = ([], refl)
  channel_rows-some sec slots (gi ∷ gis) [] h same = absurd (omega (arith, same))
  channel_rows-some sec slots (gi ∷ gis) (n ∷ ns) h same =
      let (sl, e) = slot_at-some gi slots h.0 in
      let (rows, later) = channel_rows-some sec slots gis ns h.1 (omega (arith, same)) in
      (
        record { conn = sl.conn; ch = sl.ch; published = n; rate_per_sec = rate n sec } ∷ rows,
        rw (by_channel_rows, e, later) refl,
      )

  conn_rows-sum :
      (column : ConnStats F → ℕ) (shown : ByConnRow F → ℕ) (sec : F)
      → ((i : ℕ) (c : ConnStats F) (cs : List (ConnStats F))
          → sum_by_conn shown (by_conn_rows sec i (c ∷ cs))
            ≡ column c + sum_by_conn shown (by_conn_rows sec (suc i) cs))
      → (i : ℕ) (cs : List (ConnStats F))
      → sum_by_conn shown (by_conn_rows sec i cs) ≡ sum_conns column cs
  unfolding by_conn_rows sum_by_conn sum_conns
  conn_rows-sum column shown sec h i [] = refl
  conn_rows-sum column shown sec h i (c ∷ cs) =
      h i c cs ∙ ap (λ n. column c + n) (conn_rows-sum column shown sec h (suc i) cs)

  length-conn_rows :
      (sec : F) (i : ℕ) (cs : List (ConnStats F)) → length (by_conn_rows sec i cs) ≡ length cs
  unfolding by_conn_rows
  length-conn_rows sec i [] = refl
  length-conn_rows sec i (c ∷ cs) = ap suc (length-conn_rows sec (suc i) cs)

  summary-count : (vs : List F) → (summary (gather vs)).count ≡ (gather vs).count
  unfolding summary gather new_latency_set add
  summary-count [] = refl
  summary-count (v ∷ vs) = refl

  store_drops-set :
      (s : Stats F) → s.drops ≡ 0 → store_drops s ≡ record s { drops = s.published - s.consumed }
  unfolding store_drops loss
  store_drops-set s e = elim (Bool-cases (ltb s.consumed s.published)) [
    | inl less ↦ rw (store_drops, less) refl
    | inr more ↦
        let nothing : s.published - s.consumed ≡ 0 = ground arith in
        rw (store_drops, more) (ap (λ d. record s { drops = d }) (e ∙ sym nothing))
  ]

  -- A summary of balanced statistics whose loss was stored.
  summary-IsAddedUp :
      (duration_text : ℤ → String) (runid : String) (c : Config) (t : Topology) (ns : ℕ)
      (conns capable total : ℕ) (l : Log F) (rows : List (ByPubChRow F))
      → IsBalanced (stats_of conns capable total l)
      → IsAddedUp conns (
          summary_with duration_text runid c t
            (record (stats_of conns capable total l) {
              drops =
                  (stats_of conns capable total l).published
                  - (stats_of conns capable total l).consumed;
            })
            ns
            rows)
  unfolding summary_with stats_of sum_by_conn by_conn_rows
  summary-IsAddedUp duration_text runid c t ns conns capable total l rows h =
      let sec = seconds ns in
      let table_rows = table (row_of l.measured) 0 conns in
      record {
        deliveries = h.deliveries;
        latencies = summary-count (latencies (λ sl. true) l.measured) ∙ h.samples;
        rows = length-conn_rows sec 0 table_rows ∙ length-table (row_of l.measured) 0 conns;
        rows_published =
            h.conns_published
            ∙ ap wrap (
                sym (
                  conn_rows-sum (λ x. x.published) (λ r. r.published) sec (λ i x xs. refl) 0
                    table_rows));
        rows_consumed =
            h.conns_consumed
            ∙ ap wrap (
                sym (
                  conn_rows-sum (λ x. x.consumed) (λ r. r.consumed) sec (λ i x xs. refl) 0
                    table_rows));
        lost = refl;
      }

  build_summary-some :
      (duration_text : ℤ → String) (runid : String) (c : Config) (t : Topology) (r : Stats F)
      (ns : ℕ) (rows : List (ByPubChRow F))
      → by_channel_rows (seconds ns) t.slots t.publish_capable r.per_pub_ch ≡ some rows
      → build_summary duration_text runid c t r ns
        ≡ some (summary_with duration_text runid c t r ns rows)
  unfolding build_summary
  build_summary-some duration_text runid c t r ns rows e = rw (build_summary, e) refl

  -- If the slots of a run stand in a topology whose publish-capable channels have slots, the
  -- summary of the run can be made, and adds up: it has a row for each connection, whose published
  -- and consumed messages sum to its totals modulo 2^64, its deliveries are the consumed messages
  -- and the duplicates modulo 2^64, it counts as many delivery latencies, and its drops are what
  -- was published beyond what was consumed.
  pub build_summary-IsAddedUp :
      (duration_text : ℤ → String) (runid : String) (c : Config) (t : Topology) (ns : ℕ)
      (conns total : ℕ) (es : List (Event F))
      → All (IsPlaced conns (length t.publish_capable)) es
      → All (λ gi. gi < length t.slots) t.publish_capable
      → (end : List (IntervalRecord F) × Stats F) × (o : Summary F) × (run es
            (new_stats conns (length t.publish_capable) total)
          ≡ some end)
        × (build_summary duration_text runid c t (store_drops end.1) ns ≡ some o)
        × IsAddedUp conns o
  unfolding empty_log
  build_summary-IsAddedUp duration_text runid c t ns conns total es placed known =
      let capable = length t.publish_capable in
      let l = log_of es empty_log in
      let s = stats_of conns capable total l in
      let (rows, e) =
        channel_rows-some (seconds ns) t.slots t.publish_capable s.per_pub_ch known
          (unfold stats_of in length-table (count_of l.measured) 0 capable) in
      (
        (rows_along conns capable total es empty_log, s),
        summary_with duration_text runid c t (record s { drops = s.published - s.consumed }) ns
            rows,
        run-new_stats conns capable total es placed,
        ap (λ r. build_summary duration_text runid c t r ns)
              (store_drops-set s (unfold stats_of in refl))
            ∙ build_summary-some duration_text runid c t
                (record s { drops = s.published - s.consumed }) ns rows e,
        summary-IsAddedUp duration_text runid c t ns conns capable total l rows (
            stats_of-IsBalanced conns capable total l
              (log_of-IsSeated conns capable es empty_log placed tt)),
      )
