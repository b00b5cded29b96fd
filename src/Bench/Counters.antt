-- ===== src/Bench/Counters.antt =====
-- The state of stats of internal/bench/metrics.go, and the parts that it is made of.
use golang_mq.Base.{ℕ, zero, suc, Option, none, some, List, [], ◌∷◌}
use golang_mq.Bench.Float.{Float, nought}
use golang_mq.Bench.Latency.{LatencySet, LatencySummary, new_latency_set, add, reset}
use golang_mq.Bench.Topology.{Role, both, publish, consume}

-- The families of latencies: the entries of roleKeys.
pub data RoleKey : Type 0 where
  both_key cons_key : RoleKey

-- Role.key; `none` is the empty string.
unfoldable pub role_key : Role → Option RoleKey
role_key both = some both_key
role_key consume = some cons_key
role_key publish = none

-- A map of roleKeys to sets, which has both keys.
pub record RoleSets (F : Type 0) : Type 0 where
  pub both_set : LatencySet F
  pub cons_set : LatencySet F

pub record ConnStats (F : Type 0) : Type 0 where
  pub published : ℕ
  pub consumed : ℕ
  pub delivered : ℕ
  pub del_lat_sum : F
  pub del_lat_count : ℕ

pub record Stats (F : Type 0) : Type 0 where
  pub phase_from : ℕ
  pub published : ℕ
  pub delivered : ℕ
  pub consumed : ℕ
  pub duplicates : ℕ
  pub drops : ℕ
  pub all_published : ℕ
  pub all_delivered : ℕ
  pub all_consumed : ℕ
  pub all_acks : ℕ
  pub pub_w : ℕ
  pub del_w : ℕ
  pub cons_w : ℕ
  pub dup_w : ℕ
  pub del_lat_tot : LatencySet F
  pub ack_lat_tot : LatencySet F
  pub del_lat_win : LatencySet F
  pub ack_lat_win : LatencySet F
  pub role_del_tot : RoleSets F
  pub role_del_win : RoleSets F
  pub per_conn : List (ConnStats F)
  pub per_pub_ch : List ℕ
  pub total : ℕ

-- One row of the CSV. Times are in nanoseconds.
pub record IntervalRecord (F : Type 0) : Type 0 where
  pub ts_start : ℕ
  pub window_ms : F
  pub published : ℕ
  pub delivered : ℕ
  pub consumed : ℕ
  pub duplicates : ℕ
  pub drops : ℕ
  pub del_lat : LatencySummary F
  pub ack_avg_us : F
  pub both_p95_us : F
  pub cons_p95_us : F

-- p := &xs[i], and a change of it
unfoldable pub change_at {ℓ} : {A : Type ℓ} → (A → A) → ℕ → List A → Option (List A)
change_at g i [] = none
change_at g zero (x ∷ xs) = some (g x ∷ xs)
change_at g (suc i) (x ∷ xs) = elim (change_at g i xs) [ none ↦ none | some ys ↦ some (x ∷ ys) ]

-- make([]T, n)
unfoldable pub repeat {ℓ} : {A : Type ℓ} → ℕ → A → List A
repeat zero x = []
repeat (suc n) x = x ∷ repeat n x

module _ {F : Type 0} ⦃f : Float F⦄ where
  unfoldable pub new_role_sets : RoleSets F
  new_role_sets = record { both_set = new_latency_set; cons_set = new_latency_set }

  -- m[k].add(v), for a role that has a key
  unfoldable pub add_role : Option RoleKey → F → RoleSets F → RoleSets F
  unfolding add
  add_role none v m = m
  add_role (some both_key) v m = record m { both_set = add v m.both_set }
  add_role (some cons_key) v m = record m { cons_set = add v m.cons_set }

  unfoldable pub reset_roles : RoleSets F → RoleSets F
  unfolding reset
  reset_roles m = record { both_set = reset m.both_set; cons_set = reset m.cons_set }

  unfoldable pub new_conn_stats : ConnStats F
  new_conn_stats = record {
    published = 0;
    consumed = 0;
    delivered = 0;
    del_lat_sum = nought;
    del_lat_count = 0;
  }

  -- newStats, for `conns` connections and `capable` channels that can publish
  unfoldable pub new_stats : ℕ → ℕ → ℕ → Stats F
  unfolding new_role_sets new_conn_stats repeat
  new_stats conns capable total = record {
    phase_from = 0;
    published = 0;
    delivered = 0;
    consumed = 0;
    duplicates = 0;
    drops = 0;
    all_published = 0;
    all_delivered = 0;
    all_consumed = 0;
    all_acks = 0;
    pub_w = 0;
    del_w = 0;
    cons_w = 0;
    dup_w = 0;
    del_lat_tot = new_latency_set;
    ack_lat_tot = new_latency_set;
    del_lat_win = new_latency_set;
    ack_lat_win = new_latency_set;
    role_del_tot = new_role_sets;
    role_del_win = new_role_sets;
    per_conn = repeat conns new_conn_stats;
    per_pub_ch = repeat capable 0;
    total = total;
  }
