-- ===== src/Bench/Stats.antt =====
-- stats of internal/bench/metrics.go. A record call and the boundary of the warmup are one step against
-- each other, by phaseMu; a sample of the window, which takes no lock, is one step too. `none` is the
-- panic of an index that is out of range.
pub mod Ledger
pub mod Refines
pub mod Runs
pub mod Windows
pub mod Columns
pub mod Balance
use golang_mq.Base.{
  ℕ, zero, suc, ◌-◌, Bool, true, false, ◌&&◌, Option, none, some, List, [], ◌∷◌, String, ltb, leb,
  length, if◌then◌else◌,
}
use golang_mq.Bench.Float.{Float, nought, of_nat, difference}
use golang_mq.Bench.Latency.{
  LatencySet, LatencySummary, inc_u64, new_latency_set, add, reset, snapshot_reset,
}
use golang_mq.Bench.Topology.{Role, both, publish, consume, ChannelSlot}
use golang_mq.Bench.Counters.{
  RoleKey, both_key, cons_key, role_key, RoleSets, ConnStats, Stats, IntervalRecord, change_at,
  repeat, new_role_sets, add_role, reset_roles, new_conn_stats, new_stats,
}

-- The channel of the slot counts, if it is publish-capable.
unfoldable pub count_on_channel : Option ℕ → List ℕ → Option (List ℕ)
unfolding change_at inc_u64
count_on_channel none counts = some counts
count_on_channel (some k) counts = change_at inc_u64 k counts

module _ {F : Type 0} ⦃f : Float F⦄ where
  abbrev publish_on_conn : ConnStats F → ConnStats F
  publish_on_conn c = record c { published = inc_u64 c.published }

  -- The latency that a publication took is not recorded.
  unfoldable pub record_publish : ChannelSlot → ℕ → F → Stats F → Option (Stats F)
  unfolding change_at count_on_channel inc_u64
  record_publish sl seq lat_us s =
      let counted = record s { all_published = inc_u64 s.all_published } in
      if leb seq s.phase_from
      then some counted
      else elim (change_at publish_on_conn sl.conn s.per_conn) [
        | none ↦ none
        | some per_conn ↦ elim (count_on_channel sl.publish_cap_idx s.per_pub_ch) [
          | none ↦ none
          | some per_pub_ch ↦ some (record counted {
            published = inc_u64 s.published;
            pub_w = inc_u64 s.pub_w;
            per_conn = per_conn;
            per_pub_ch = per_pub_ch;
          })
        ]
      ]

  abbrev deliver_on_conn : F → Bool → ConnStats F → ConnStats F
  deliver_on_conn del_lat_us dup c = record c {
    delivered = inc_u64 c.delivered;
    consumed = if dup then c.consumed else inc_u64 c.consumed;
    del_lat_sum = f.plus c.del_lat_sum del_lat_us;
    del_lat_count = inc_u64 c.del_lat_count;
  }

  unfoldable pub record_deliver : ChannelSlot → ℕ → F → Bool → Stats F → Option (Stats F)
  unfolding change_at add_role role_key add inc_u64
  record_deliver sl seq del_lat_us dup s =
      let counted = record s {
        all_delivered = inc_u64 s.all_delivered;
        all_consumed = if dup then s.all_consumed else inc_u64 s.all_consumed;
      } in
      let k = role_key sl.role in
      if leb seq s.phase_from
      then some counted
      else elim (change_at (deliver_on_conn del_lat_us dup) sl.conn s.per_conn) [
        | none ↦ none
        | some per_conn ↦ some (record counted {
          delivered = inc_u64 s.delivered;
          del_w = inc_u64 s.del_w;
          duplicates = if dup then inc_u64 s.duplicates else s.duplicates;
          dup_w = if dup then inc_u64 s.dup_w else s.dup_w;
          consumed = if dup then s.consumed else inc_u64 s.consumed;
          cons_w = if dup then s.cons_w else inc_u64 s.cons_w;
          del_lat_tot = add del_lat_us s.del_lat_tot;
          del_lat_win = add del_lat_us s.del_lat_win;
          role_del_tot = add_role k del_lat_us s.role_del_tot;
          role_del_win = add_role k del_lat_us s.role_del_win;
          per_conn = per_conn;
        })
      ]

  unfoldable pub record_ack : ℕ → F → Stats F → Stats F
  unfolding add inc_u64
  record_ack seq lat_us s =
      let counted = record s { all_acks = inc_u64 s.all_acks } in
      if leb seq s.phase_from then counted else record counted {
        ack_lat_tot = add lat_us s.ack_lat_tot;
        ack_lat_win = add lat_us s.ack_lat_win;
      }

  -- No more work is in flight.
  unfoldable pub drained : Bool → Stats F → Bool
  drained ack s =
      if ack
      then leb s.all_published s.all_consumed && leb s.all_delivered s.all_acks
      else leb s.published s.consumed

  unfoldable pub reset_all : Stats F → Stats F
  unfolding reset reset_roles repeat new_conn_stats
  reset_all s = record s {
    published = 0;
    delivered = 0;
    consumed = 0;
    duplicates = 0;
    drops = 0;
    pub_w = 0;
    del_w = 0;
    cons_w = 0;
    dup_w = 0;
    del_lat_tot = reset s.del_lat_tot;
    ack_lat_tot = reset s.ack_lat_tot;
    del_lat_win = reset s.del_lat_win;
    ack_lat_win = reset s.ack_lat_win;
    role_del_tot = reset_roles s.role_del_tot;
    role_del_win = reset_roles s.role_del_win;
    per_conn = repeat (length s.per_conn) new_conn_stats;
    per_pub_ch = repeat (length s.per_pub_ch) 0;
  }

  -- beginMeasured; `seq` is the last sequence number that was given out.
  unfoldable pub begin_measured : ℕ → Stats F → Stats F
  unfolding reset_all
  begin_measured seq s = reset_all (record s { phase_from = seq })

  -- pub - con, if pub > con
  unfoldable pub loss : Stats F → Option ℕ
  loss s = if ltb s.consumed s.published then some (s.published - s.consumed) else none

  unfoldable pub sample_window : ℕ → ℕ → Stats F → IntervalRecord F × Stats F
  unfolding snapshot_reset difference loss
  sample_window ts end s =
      let ack = snapshot_reset s.ack_lat_win in
      let del = snapshot_reset s.del_lat_win in
      let both_role = snapshot_reset s.role_del_win.both_set in
      let cons_role = snapshot_reset s.role_del_win.cons_set in
      (
        record {
          ts_start = ts;
          window_ms = f.over (f.of_int (difference end ts)) (of_nat 1_000_000);
          published = s.pub_w;
          delivered = s.del_w;
          consumed = s.cons_w;
          duplicates = s.dup_w;
          drops = elim (loss s) [ none ↦ 0 | some lost ↦ lost ];
          del_lat = del.0;
          ack_avg_us = if ltb 0 ack.0.count then ack.0.avg else nought;
          both_p95_us = both_role.0.p95;
          cons_p95_us = cons_role.0.p95;
        },
        record s {
          pub_w = 0;
          del_w = 0;
          cons_w = 0;
          dup_w = 0;
          del_lat_win = del.1;
          ack_lat_win = ack.1;
          role_del_win = record { both_set = both_role.1; cons_set = cons_role.1 };
        },
      )
