-- ===== src/Bench/Stats/Refines.antt =====
-- The record calls of internal/bench/metrics.go against the log that specifies them.
use golang_mq.Base.{
  ℕ, zero, suc, ◌+◌, ◌≤◌, ◌<◌, ◌≡◌, refl, Bool, true, false, not, Option, none, some, List, [], ◌∷◌,
  inl, inr, leb, nat_beq, arith, Bool-cases, if◌then◌else◌, length,
}
use golang_mq.Broker.State.Updates.{nat_beq_refl}
use golang_mq.Bench.Float.{Float}
use golang_mq.Bench.Latency.{inc_u64, new_latency_set, snapshot_reset, reset}
use golang_mq.Bench.Latency.Summaries.{gather}
use golang_mq.Bench.Topology.{both, publish, consume, ChannelSlot}
use golang_mq.Bench.Stats.{
  count_on_channel, record_publish, record_deliver, record_ack, reset_all, begin_measured,
  sample_window, publish_on_conn, deliver_on_conn,
}
use golang_mq.Bench.Counters.{change_at, repeat, role_key, add_role, new_stats, new_conn_stats}
use golang_mq.Bench.Stats.Ledger.{
  Entry, publication, delivery, answer_to_ack, Log, count, table, wrap, empty_log, note, begin_log,
  sample_log, latencies, ack_latencies, sum_of, sets_of, row_of, count_of, stats_of, is_both,
  is_dedicated,
}

pub inc-wrap : (n : ℕ) → inc_u64 (wrap n) ≡ wrap (suc n)
unfolding inc_u64
inc-wrap n = omega arith

table-same :
    {A : Type 0} (g h : ℕ → A) (i n : ℕ) → ((j : ℕ) → i ≤ j → h j ≡ g j) → table h i n ≡ table g i n
unfolding table
table-same g h i zero e = refl
table-same g h i (suc n) e =
    rw (e i (omega arith), table-same g h (suc i) n (λ j later. e j (omega arith))) refl

-- A change of one entry of a table.
change_at-table :
    {A : Type 0} (change : A → A) (g h : ℕ → A) (k i n t : ℕ)
    → t ≡ i + k
    → k < n
    → h t ≡ change (g t)
    → ((j : ℕ) → nat_beq t j ≡ false → h j ≡ g j)
    → change_at change k (table g i n) ≡ some (table h i n)
unfolding change_at table
change_at-table change g h k i zero t place bound here others = absurd (omega arith)
change_at-table change g h zero i (suc n) t place bound here others =
    let e : t ≡ i = omega arith in
    rw (table-same g h (suc i) n (λ j later. others j (ground arith)), ← rw e at here) refl
change_at-table change g h (suc k) i (suc n) t place bound here others =
    rw
      (
        change_at-table change g h k (suc i) n t (omega arith) (omega arith) here others,
        others i (ground arith),
      )
      refl

pub length-table : {A : Type 0} (g : ℕ → A) (i n : ℕ) → length (table g i n) ≡ n
unfolding table
length-table g i zero = refl
length-table g i (suc n) = rw (length-table g (suc i) n) refl

repeat-table :
    {A : Type 0} (h : ℕ → A) (x : A) (i n : ℕ) → ((j : ℕ) → h j ≡ x) → repeat n x ≡ table h i n
unfolding repeat table
repeat-table h x i zero e = refl
repeat-table h x i (suc n) e = rw (e i, repeat-table h x (suc i) n e) refl

-- A counter that steps unless a Boolean is set, and one that steps if it is.
count-fresh :
    (dup : Bool) (n : ℕ)
    → (if dup then wrap n else wrap (suc n)) ≡ wrap (if not dup then suc n else n)
count-fresh true n = refl
count-fresh false n = refl

count-dup :
    (dup : Bool) (n : ℕ) → (if dup then wrap (suc n) else wrap n) ≡ wrap (if dup then suc n else n)
count-dup true n = refl
count-dup false n = refl

-- The index of a slot among the publish-capable channels.
unfoldable pub IsNumbered : ℕ → Option ℕ → Type 0
IsNumbered capable none = Unit
IsNumbered capable (some k) = k < capable

module _ {F : Type 0} ⦃f : Float F⦄ where
  row-publish :
      (sl : ChannelSlot) (l : List (Entry F))
      → row_of (publication sl ∷ l) sl.conn ≡ publish_on_conn (row_of l sl.conn)
  unfolding row_of count latencies
  row-publish sl l = rw (nat_beq_refl sl.conn, inc-wrap) refl

  row-deliver :
      (sl : ChannelSlot) (v : F) (dup : Bool) (l : List (Entry F))
      → row_of (delivery sl v dup ∷ l) sl.conn ≡ deliver_on_conn v dup (row_of l sl.conn)
  unfolding row_of count latencies sum_of
  row-deliver sl v true l = rw (nat_beq_refl sl.conn, inc-wrap) refl
  row-deliver sl v false l = rw (nat_beq_refl sl.conn) (simp inc-wrap refl)

  row-publish-others :
      (sl : ChannelSlot) (l : List (Entry F)) (j : ℕ)
      → nat_beq sl.conn j ≡ false
      → row_of (publication sl ∷ l) j ≡ row_of l j
  unfolding row_of count latencies
  row-publish-others sl l j e = rw e refl

  row-deliver-others :
      (sl : ChannelSlot) (v : F) (dup : Bool) (l : List (Entry F)) (j : ℕ)
      → nat_beq sl.conn j ≡ false
      → row_of (delivery sl v dup ∷ l) j ≡ row_of l j
  unfolding row_of count latencies
  row-deliver-others sl v dup l j e = rw e refl

  channels-publish :
      (capable : ℕ) (at : Option ℕ) (sl : ChannelSlot) (l : List (Entry F))
      → sl.publish_cap_idx ≡ at
      → IsNumbered capable at
      → count_on_channel at (table (count_of l) 0 capable)
        ≡ some (table (count_of (publication sl ∷ l)) 0 capable)
  unfolding count_on_channel count_of count IsNumbered
  channels-publish capable none sl l e bound = rw e refl
  channels-publish capable (some k) sl l e bound =
      change_at-table inc_u64 (count_of l) (count_of (publication sl ∷ l)) k 0 capable k
        (omega arith) bound (rw (e, nat_beq_refl k, inc-wrap) refl) (λ j other. rw (e, other) refl)

  add_role-sets :
      (sl : ChannelSlot) (v : F) (dup : Bool) (l : List (Entry F))
      → add_role (role_key sl.role) v (sets_of l) ≡ sets_of (delivery sl v dup ∷ l)
  unfolding add_role role_key sets_of latencies gather
  add_role-sets sl v dup l =
      elim sl.role
        as (λ r. add_role (role_key r) v (sets_of l) ≡ record {
          both_set = gather (
              if is_both r
              then v ∷ latencies (λ s. is_both s.role) l
              else latencies (λ s. is_both s.role) l);
          cons_set = gather (
              if is_dedicated r
              then v ∷ latencies (λ s. is_dedicated s.role) l
              else latencies (λ s. is_dedicated s.role) l);
        }) [ both ↦ refl | publish ↦ refl | consume ↦ refl ]

  rows-publish :
      (conns : ℕ) (sl : ChannelSlot) (l : List (Entry F))
      → sl.conn < conns
      → change_at publish_on_conn sl.conn (table (row_of l) 0 conns)
        ≡ some (table (row_of (publication sl ∷ l)) 0 conns)
  rows-publish conns sl l on_conn =
      change_at-table publish_on_conn (row_of l) (row_of (publication sl ∷ l)) sl.conn 0 conns
        sl.conn (omega arith) on_conn (row-publish sl l) (row-publish-others sl l)

  rows-deliver :
      (conns : ℕ) (sl : ChannelSlot) (v : F) (dup : Bool) (l : List (Entry F))
      → sl.conn < conns
      → change_at (deliver_on_conn v dup) sl.conn (table (row_of l) 0 conns)
        ≡ some (table (row_of (delivery sl v dup ∷ l)) 0 conns)
  rows-deliver conns sl v dup l on_conn =
      change_at-table (deliver_on_conn v dup) (row_of l) (row_of (delivery sl v dup ∷ l)) sl.conn 0
        conns sl.conn (omega arith) on_conn (row-deliver sl v dup l) (row-deliver-others sl v dup l)

  module _ (conns capable total : ℕ) where
    pub record_publish-stats :
        (sl : ChannelSlot) (seq : ℕ) (lat_us : F) (l : Log F)
        → sl.conn < conns
        → IsNumbered capable sl.publish_cap_idx
        → record_publish sl seq lat_us (stats_of conns capable total l)
          ≡ some (stats_of conns capable total (note seq (publication sl) l))
    unfolding record_publish stats_of note count latencies ack_latencies sets_of
    record_publish-stats sl seq lat_us l on_conn on_channel = elim (Bool-cases (leb seq l.cutoff)) [
      | inl e ↦ rw (e, inc-wrap) refl
      | inr e ↦
          rw
            (
              e,
              rows-publish conns sl l.measured on_conn,
              channels-publish capable sl.publish_cap_idx sl l.measured refl on_channel,
            )
            (simp inc-wrap refl)
    ]

    pub record_deliver-stats :
        (sl : ChannelSlot) (seq : ℕ) (del_lat_us : F) (dup : Bool) (l : Log F)
        → sl.conn < conns
        → record_deliver sl seq del_lat_us dup (stats_of conns capable total l)
          ≡ some (stats_of conns capable total (note seq (delivery sl del_lat_us dup) l))
    unfolding record_deliver stats_of note count latencies ack_latencies count_of gather
    record_deliver-stats sl seq v dup l on_conn = elim (Bool-cases (leb seq l.cutoff)) [
      | inl e ↦ rw e (simp (inc-wrap, count-fresh) refl)
      | inr e ↦
          rw
            (
              e,
              rows-deliver conns sl v dup l.measured on_conn,
              add_role-sets sl v dup l.measured,
              add_role-sets sl v dup l.window,
            )
            (simp (inc-wrap, count-fresh, count-dup) refl)
    ]

    pub record_ack-stats :
        (seq : ℕ) (lat_us : F) (l : Log F)
        → record_ack seq lat_us (stats_of conns capable total l)
          ≡ stats_of conns capable total (note seq (answer_to_ack lat_us) l)
    unfolding record_ack stats_of note count latencies ack_latencies count_of row_of sets_of gather
    record_ack-stats seq lat_us l = elim (Bool-cases (leb seq l.cutoff)) [
      | inl e ↦ rw (e, inc-wrap) refl
      | inr e ↦ rw (e, inc-wrap) refl
    ]

    pub begin_measured-stats :
        (seq : ℕ) (l : Log F)
        → begin_measured seq (stats_of conns capable total l)
          ≡ stats_of conns capable total (begin_log seq l)
    unfolding begin_measured reset_all stats_of begin_log row_of count_of count latencies
        new_conn_stats sum_of
    begin_measured-stats seq l =
        rw
          (
            length-table (row_of l.measured) 0 conns,
            length-table (count_of l.measured) 0 capable,
            repeat-table (row_of {F = F} []) new_conn_stats 0 conns λ j. refl,
            repeat-table (count_of {F = F} []) 0 0 capable λ j. refl,
          )
          refl

    pub sample_window-stats :
        (ts end : ℕ) (l : Log F)
        → (sample_window ts end (stats_of conns capable total l)).1
          ≡ stats_of conns capable total (sample_log l)
    unfolding sample_window stats_of sample_log sets_of gather latencies ack_latencies count
        snapshot_reset reset new_latency_set
    sample_window-stats ts end l = refl

    pub new_stats-stats :
        new_stats {F = F} conns capable total ≡ stats_of conns capable total empty_log
    unfolding new_stats stats_of empty_log row_of count_of count latencies new_conn_stats sum_of
    new_stats-stats =
        rw
          (
            repeat-table (row_of {F = F} []) new_conn_stats 0 conns λ j. refl,
            repeat-table (count_of {F = F} []) 0 0 capable λ j. refl,
          )
          refl
