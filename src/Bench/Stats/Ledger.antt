-- ===== src/Bench/Stats/Ledger.antt =====
-- The specification of stats of internal/bench/metrics.go: a log of what was recorded, which every
-- counter of the program can be read off.
use golang_mq.Base.{
  ℕ, zero, suc, ◌%◌, Bool, true, false, not, ◌&&◌, Option, none, some, List, [], ◌∷◌, leb, nat_beq,
  if◌then◌else◌,
}
use golang_mq.Bench.Header.{u64_mod}
use golang_mq.Bench.Float.{Float, nought}
use golang_mq.Bench.Latency.Summaries.{gather}
use golang_mq.Bench.Topology.{Role, both, publish, consume, ChannelSlot}
use golang_mq.Bench.Counters.{RoleSets, ConnStats, Stats}

-- What a record call says: a publication on a slot, a delivery there with its latency and whether it
-- is a duplicate, the latency of an acknowledgement.
pub data Entry (F : Type 0) : Type 0 where
  publication : ChannelSlot → Entry F
  delivery : ChannelSlot → F → Bool → Entry F
  answer_to_ack : F → Entry F

-- The entries, the last one first: those of the measured phase, those since the last row, and all.
pub record Log (F : Type 0) : Type 0 where
  pub cutoff : ℕ
  pub measured : List (Entry F)
  pub window : List (Entry F)
  pub all : List (Entry F)

unfoldable pub count {ℓ} : {A : Type ℓ} → (A → Bool) → List A → ℕ
count p [] = 0
count p (x ∷ xs) = let n = count p xs in if p x then suc n else n

unfoldable pub table {ℓ} : {A : Type ℓ} → (ℕ → A) → ℕ → ℕ → List A
table g i zero = []
table g i (suc n) = g i ∷ table g (suc i) n

abbrev pub wrap : ℕ → ℕ
wrap n = n % u64_mod

abbrev pub is_slot : ℕ → Option ℕ → Bool
is_slot k none = false
is_slot k (some j) = nat_beq j k

abbrev pub is_both : Role → Bool
is_both both = true
is_both publish = false
is_both consume = false

abbrev pub is_dedicated : Role → Bool
is_dedicated both = false
is_dedicated publish = false
is_dedicated consume = true

module _ {F : Type 0} where
  unfoldable pub empty_log : Log F
  empty_log = record { cutoff = 0; measured = []; window = []; all = [] }

  -- An entry about the message `seq`: a message of the warmup counts among all entries only.
  unfoldable pub note : ℕ → Entry F → Log F → Log F
  note seq e l =
      if leb seq l.cutoff
      then record l { all = e ∷ l.all }
      else record l { measured = e ∷ l.measured; window = e ∷ l.window; all = e ∷ l.all }

  unfoldable pub begin_log : ℕ → Log F → Log F
  begin_log seq l = record l { cutoff = seq; measured = []; window = [] }

  unfoldable pub sample_log : Log F → Log F
  sample_log l = record l { window = [] }

  abbrev pub is_publication : Entry F → Bool
  is_publication (publication sl) = true
  is_publication (delivery sl v dup) = false
  is_publication (answer_to_ack v) = false

  abbrev pub is_delivery : Entry F → Bool
  is_delivery (publication sl) = false
  is_delivery (delivery sl v dup) = true
  is_delivery (answer_to_ack v) = false

  abbrev pub is_duplicate : Entry F → Bool
  is_duplicate (publication sl) = false
  is_duplicate (delivery sl v dup) = dup
  is_duplicate (answer_to_ack v) = false

  abbrev pub is_consumption : Entry F → Bool
  is_consumption (publication sl) = false
  is_consumption (delivery sl v dup) = not dup
  is_consumption (answer_to_ack v) = false

  abbrev pub is_ack : Entry F → Bool
  is_ack (publication sl) = false
  is_ack (delivery sl v dup) = false
  is_ack (answer_to_ack v) = true

  -- The entries of the connection `i`.
  abbrev pub is_on : ℕ → Entry F → Bool
  is_on i (publication sl) = nat_beq sl.conn i
  is_on i (delivery sl v dup) = nat_beq sl.conn i
  is_on i (answer_to_ack v) = false

  -- The publications on the publish-capable channel `k`.
  abbrev pub is_publication_on : ℕ → Entry F → Bool
  is_publication_on k (publication sl) = is_slot k sl.publish_cap_idx
  is_publication_on k (delivery sl v dup) = false
  is_publication_on k (answer_to_ack v) = false

  -- The latencies of the deliveries on slots that pass the test, and those of acknowledgements.
  unfoldable pub latencies : (ChannelSlot → Bool) → List (Entry F) → List F
  latencies p [] = []
  latencies p (publication sl ∷ l) = latencies p l
  latencies p (delivery sl v dup ∷ l) = let vs = latencies p l in if p sl then v ∷ vs else vs
  latencies p (answer_to_ack v ∷ l) = latencies p l

  unfoldable pub ack_latencies : List (Entry F) → List F
  ack_latencies [] = []
  ack_latencies (publication sl ∷ l) = ack_latencies l
  ack_latencies (delivery sl v dup ∷ l) = ack_latencies l
  ack_latencies (answer_to_ack v ∷ l) = v ∷ ack_latencies l

module _ {F : Type 0} ⦃f : Float F⦄ where
  unfoldable pub sum_of : List F → F
  sum_of [] = nought
  sum_of (v ∷ vs) = f.plus (sum_of vs) v

  unfoldable pub sets_of : List (Entry F) → RoleSets F
  unfolding latencies gather
  sets_of l = record {
    both_set = gather (latencies (λ sl. is_both sl.role) l);
    cons_set = gather (latencies (λ sl. is_dedicated sl.role) l);
  }

  unfoldable pub row_of : List (Entry F) → ℕ → ConnStats F
  unfolding count latencies sum_of
  row_of l i = record {
    published = wrap (count (λ e. is_on i e && is_publication e) l);
    consumed = wrap (count (λ e. is_on i e && is_consumption e) l);
    delivered = wrap (count (λ e. is_on i e && is_delivery e) l);
    del_lat_sum = sum_of (latencies (λ sl. nat_beq sl.conn i) l);
    del_lat_count = wrap (count (λ e. is_on i e && is_delivery e) l);
  }

  unfoldable pub count_of : List (Entry F) → ℕ → ℕ
  unfolding count
  count_of l k = wrap (count (is_publication_on k) l)

  -- What the program keeps, for a log.
  unfoldable pub stats_of : ℕ → ℕ → ℕ → Log F → Stats F
  unfolding count gather latencies ack_latencies sets_of row_of count_of table
  stats_of conns capable total l = record {
    phase_from = l.cutoff;
    published = wrap (count is_publication l.measured);
    delivered = wrap (count is_delivery l.measured);
    consumed = wrap (count is_consumption l.measured);
    duplicates = wrap (count is_duplicate l.measured);
    drops = 0;
    all_published = wrap (count is_publication l.all);
    all_delivered = wrap (count is_delivery l.all);
    all_consumed = wrap (count is_consumption l.all);
    all_acks = wrap (count is_ack l.all);
    pub_w = wrap (count is_publication l.window);
    del_w = wrap (count is_delivery l.window);
    cons_w = wrap (count is_consumption l.window);
    dup_w = wrap (count is_duplicate l.window);
    del_lat_tot = gather (latencies (λ sl. true) l.measured);
    ack_lat_tot = gather (ack_latencies l.measured);
    del_lat_win = gather (latencies (λ sl. true) l.window);
    ack_lat_win = gather (ack_latencies l.window);
    role_del_tot = sets_of l.measured;
    role_del_win = sets_of l.window;
    per_conn = table (row_of l.measured) 0 conns;
    per_pub_ch = table (count_of l.measured) 0 capable;
    total = total;
  }
