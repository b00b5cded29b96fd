-- ===== src/Bench/Engine/Summary.antt =====
-- buildSummary, summaryConfig and the names of a run, of internal/bench/engine.go, and the names of the
-- roles, of internal/bench/topology.go. How a duration is printed is a parameter.
use Prim.Native.String.{◌++◌ as ◌^+◌}
use golang_mq.Base.{
  ℕ, zero, suc, ◌/◌, ◌%◌, Bool, Option, none, some, List, [], ◌∷◌, String, ltb, length,
  if◌then◌else◌,
}
use golang_mq.Base.Int.{ℤ}
use golang_mq.Bench.Config.{Config, Distribution, even, uneven, unknown}
use golang_mq.Bench.Float.{Float, of_nat, nought}
use golang_mq.Bench.Latency.{LatencySet, LatencySummary, summary}
use golang_mq.Bench.Topology.{
  Topology, ConnRole, mixed, publish_only, consume_only, Role, both, publish, consume, ChannelSlot,
}
use golang_mq.Bench.Stats.{loss}
use golang_mq.Bench.Counters.{Stats, ConnStats}

unfoldable pub conn_role_name : ConnRole → String
conn_role_name mixed = "mixed"
conn_role_name publish_only = "pub"
conn_role_name consume_only = "cons"

unfoldable pub role_name : Role → String
role_name both = "both"
role_name publish = "publish"
role_name consume = "consume"

unfoldable pub exchange_of : String → String
exchange_of runid = "bench.ex." ^+ runid

unfoldable pub queue_of : String → String
queue_of runid = "bench.q." ^+ runid

unfoldable pub routing_key_of : String → String
routing_key_of runid = "bench.rk." ^+ runid

unfoldable pub distribution_name : Distribution → String
distribution_name even = "even"
distribution_name uneven = "uneven"
distribution_name (unknown d) = d

-- A value of the map that summaryConfig makes.
pub data Setting : Type 0 where
  text : String → Setting
  number : ℤ → Setting
  flag : Bool → Setting

unfoldable pub summary_config : (ℤ → String) → Config → List (String × Setting)
unfolding distribution_name
summary_config duration_text c =
    ("addr", text c.addr)
    ∷ ("conns", number c.conns)
    ∷ ("pub-conns", number c.pub_conns)
    ∷ ("cons-conns", number c.cons_conns)
    ∷ ("channels", number c.channels)
    ∷ ("pub-channels", number c.pub_channels)
    ∷ ("cons-channels", number c.cons_channels)
    ∷ ("conns-distribution", text (distribution_name c.conns_dist))
    ∷ ("channels-distribution", text (distribution_name c.channels_dist))
    ∷ ("pub-channels-distribution", text (distribution_name c.pub_channels_dist))
    ∷ ("max-channels-per-conn", number c.max_channels_per_conn)
    ∷ ("max-consumers-per-channel", number c.max_consumers_per_channel)
    ∷ ("max-publishers-per-channel", number c.max_publishers_per_channel)
    ∷ ("publishers", number c.publishers)
    ∷ ("consumers", number c.consumers)
    ∷ ("msgs", number c.msgs)
    ∷ ("size", number c.size)
    ∷ ("ack", flag c.ack)
    ∷ ("prefetch", number c.prefetch)
    ∷ ("duration", text (duration_text c.duration))
    ∷ ("warmup", text (duration_text c.warmup))
    ∷ ("report", text (duration_text c.report))
    ∷ ("drain-timeout", text (duration_text c.drain_timeout))
    ∷ ("output", text c.output)
    ∷ ("quiet", flag c.quiet)
    ∷ []

pub record TopoConnRow : Type 0 where
  pub channels : ℕ
  pub role : String

pub record TopologySummary : Type 0 where
  pub conns : List TopoConnRow
  pub publish_capable : ℕ
  pub consume_capable : ℕ

pub record RoleRow (F : Type 0) : Type 0 where
  pub p95_us : F
  pub n : ℕ

pub record ByConnRow (F : Type 0) : Type 0 where
  pub conn : ℕ
  pub published : ℕ
  pub consumed : ℕ
  pub pub_rate_per_sec : F
  pub avg_delivery_lat_us : F

pub record ByPubChRow (F : Type 0) : Type 0 where
  pub conn : ℕ
  pub ch : ℕ
  pub published : ℕ
  pub rate_per_sec : F

-- Summary; the map by role has both keys.
pub record Summary (F : Type 0) : Type 0 where
  pub run_id : String
  pub config : List (String × Setting)
  pub topology : TopologySummary
  pub published : ℕ
  pub delivered : ℕ
  pub consumed : ℕ
  pub duplicates : ℕ
  pub drops : ℕ
  pub elapsed_ms : ℕ
  pub consumed_rate_per_sec : F
  pub delivery_latency : LatencySummary F
  pub ack_latency : LatencySummary F
  pub by_role_both : RoleRow F
  pub by_role_cons : RoleRow F
  pub by_conn : List (ByConnRow F)
  pub by_publish_channel : List (ByPubChRow F)

-- The rows of the connections, with their roles and channels.
unfoldable pub topo_rows : List ConnRole → List (List ℕ) → List TopoConnRow
unfolding conn_role_name
topo_rows [] chans = []
topo_rows (r ∷ rs) [] = []
topo_rows (r ∷ rs) (c ∷ cs) =
    record { channels = length c; role = conn_role_name r } ∷ topo_rows rs cs

-- slots[gi], of the global index of a slot
unfoldable pub slot_at : ℕ → List ChannelSlot → Option ChannelSlot
slot_at i [] = none
slot_at zero (s ∷ ss) = some s
slot_at (suc i) (s ∷ ss) = slot_at i ss

module _ {F : Type 0} ⦃f : Float F⦄ where
  -- elapsed.Seconds() of nanoseconds
  unfoldable pub seconds : ℕ → F
  seconds ns =
      f.plus (of_nat (ns / 1_000_000_000))
        (f.over (of_nat (ns % 1_000_000_000)) (of_nat 1_000_000_000))

  -- A rate, which is 0 if no time has gone by.
  unfoldable pub rate : ℕ → F → F
  rate n sec = if f.lt nought sec then f.over (of_nat n) sec else nought

  unfoldable pub by_conn_rows : F → ℕ → List (ConnStats F) → List (ByConnRow F)
  unfolding rate
  by_conn_rows sec i [] = []
  by_conn_rows sec i (c ∷ cs) =
      record {
        conn = i;
        published = c.published;
        consumed = c.consumed;
        pub_rate_per_sec = rate c.published sec;
        avg_delivery_lat_us =
            if ltb 0 c.del_lat_count then f.over c.del_lat_sum (of_nat c.del_lat_count) else nought;
      }
      ∷ by_conn_rows sec (suc i) cs

  -- The publish-capable slots with their counters, which are as many; `none` is a panic.
  unfoldable pub by_channel_rows :
      F → List ChannelSlot → List ℕ → List ℕ → Option (List (ByPubChRow F))
  unfolding rate slot_at
  by_channel_rows sec slots [] counts = some []
  by_channel_rows sec slots (gi ∷ gis) [] = none
  by_channel_rows sec slots (gi ∷ gis) (n ∷ ns) = elim (slot_at gi slots) [
    | none ↦ none
    | some sl ↦ elim (by_channel_rows sec slots gis ns) [
      | none ↦ none
      | some rows ↦
          some
            (record { conn = sl.conn; ch = sl.ch; published = n; rate_per_sec = rate n sec } ∷ rows)
    ]
  ]

  unfoldable pub role_row : LatencySet F → RoleRow F
  unfolding summary
  role_row s = let o = summary s in record { p95_us = o.p95; n = o.count }

  -- The summary, on the rows of the publish-capable channels.
  unfoldable pub summary_with :
      (ℤ → String) → String → Config → Topology → Stats F → ℕ → List (ByPubChRow F) → Summary F
  unfolding summary_config topo_rows seconds rate by_conn_rows role_row summary
  summary_with duration_text runid c t s ns by_channel = record {
    run_id = runid;
    config = summary_config duration_text c;
    topology = record {
      conns = topo_rows t.conn_roles t.conn_channels;
      publish_capable = length t.publish_capable;
      consume_capable = length t.consume_capable;
    };
    published = s.published;
    delivered = s.delivered;
    consumed = s.consumed;
    duplicates = s.duplicates;
    drops = s.drops;
    elapsed_ms = ns / 1_000_000;
    consumed_rate_per_sec = rate s.consumed (seconds ns);
    delivery_latency = summary s.del_lat_tot;
    ack_latency = summary s.ack_lat_tot;
    by_role_both = role_row s.role_del_tot.both_set;
    by_role_cons = role_row s.role_del_tot.cons_set;
    by_conn = by_conn_rows (seconds ns) 0 s.per_conn;
    by_publish_channel = by_channel;
  }

  -- buildSummary, `ns` nanoseconds after the phase began
  unfoldable pub build_summary :
      (ℤ → String) → String → Config → Topology → Stats F → ℕ → Option (Summary F)
  unfolding by_channel_rows summary_with
  build_summary duration_text runid c t s ns =
      elim (by_channel_rows (seconds ns) t.slots t.publish_capable s.per_pub_ch) [
        | none ↦ none
        | some by_channel ↦ some (summary_with duration_text runid c t s ns by_channel)
      ]

  -- The loss at the end of a run that was not interrupted, before the summary is made.
  unfoldable pub store_drops : Stats F → Stats F
  unfolding loss
  store_drops s = elim (loss s) [ none ↦ s | some lost ↦ record s { drops = lost } ]
