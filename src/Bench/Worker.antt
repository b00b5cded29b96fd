-- ===== src/Bench/Worker.antt =====
-- publishWorker and consumeWorker of internal/bench/worker.go, over the state that they share. The SDK
-- and the clock are parameters: what an iteration gets from them is a record.
pub mod Minting
pub mod Publishing
pub mod Receiving
pub mod Flags
pub mod Runs
pub mod Tally
pub mod Drain
use golang_mq.Base.{
  ℕ, zero, suc, ◌+◌, ◌-◌, ◌%◌, Bool, true, false, not, ◌&&◌, ◌||◌, Option, none, some, List, [],
  ◌∷◌, ◌++◌, String, ltb, nat_beq, length, if◌then◌else◌,
}
use golang_mq.Base.Int.{ℤ, pos, negsuc, dec, below}
use golang_mq.Bench.Float.{Float, of_nat, nought}
use golang_mq.Bench.Header.{u64_mod, encode_header, decode_header, to_u64, to_i64}
use golang_mq.Bench.Latency.{inc_u64}
use golang_mq.Bench.Topology.{ChannelSlot}
use golang_mq.Bench.Stats.{record_publish, record_deliver, record_ack}
use golang_mq.Bench.Counters.{Stats, change_at, repeat}

-- What goes to the SDK's Publish.
pub record Message : Type 0 where
  pub exchange : String
  pub routing_key : String
  pub body : List ℕ

pub data WorkerError : Type 0 where
  exceeds_budget : ℕ → ℕ → WorkerError
  of_sdk : String → WorkerError

-- seqGen, sentTimes, seen and st, which the workers share; `sent` is what Publish was given.
pub record Shared (F : Type 0) : Type 0 where
  pub seq_gen : ℕ
  pub sent_times : List ℤ
  pub seen : List Bool
  pub stats : Stats F
  pub sent : List Message

pub record PublishWorker : Type 0 where
  pub slot : ChannelSlot
  pub exchange : String
  pub routing_key : String
  pub size : ℕ
  pub msgs : ℕ

-- What one iteration of a publisher meets: whether it is told to stop, the clock, and the result and
-- the duration of Publish.
pub record Turn (F : Type 0) : Type 0 where
  pub stopped : Bool
  pub now : ℤ
  pub publish_error : Option String
  pub took_us : F

pub record ConsumeWorker : Type 0 where
  pub slot : ChannelSlot
  pub ack : Bool

-- What one iteration of a consumer meets: a delivery, the clock, and the result and the duration of Ack.
pub record Arrival (F : Type 0) : Type 0 where
  pub body : List ℕ
  pub recv_nanos : ℤ
  pub ack_error : Option String
  pub took_us : F

-- What a call ends with: a value, an error that is returned, or a panic.
pub data Outcome (A : Type 0) : Type 0 where
  fine : A → Outcome A
  fails : WorkerError → Outcome A
  panics : Outcome A

-- a - b on `int64`
unfoldable pub sub_i64 : ℤ → ℤ → ℤ
unfolding to_u64 to_i64
sub_i64 a b = to_i64 ((to_u64 a + (u64_mod - to_u64 b)) % u64_mod)

-- int(seq) - 1
unfoldable pub index_before : ℕ → ℤ
unfolding to_i64
index_before seq = to_i64 ((seq + (u64_mod - 1)) % u64_mod)

unfoldable pub is_positive : ℤ → Bool
is_positive (pos n) = ltb 0 n
is_positive (negsuc n) = false

module _ {F : Type 0} where
  -- Stamping sentTimes[seq-1], and the header of the body.
  unfoldable pub stamp : ℕ → ℤ → List ℕ → Shared F → Outcome (List ℕ) × Shared F
  unfolding change_at encode_header
  stamp seq now body s = elim (change_at (λ t. now) (seq - 1) s.sent_times) [
    | none ↦ (panics, s)
    | some sent_times ↦ (
      elim (encode_header body seq now) [ none ↦ panics | some b ↦ fine b ],
      record s { sent_times = sent_times },
    )
  ]

  -- The iteration up to Publish: the sequence number, and the body under it.
  unfoldable pub mint : ℤ → List ℕ → Shared F → Outcome (List ℕ) × Shared F
  unfolding stamp inc_u64 index_before below
  mint now body s =
      let seq = inc_u64 s.seq_gen in
      let counted = record s { seq_gen = seq } in
      let n = length s.sent_times in
      if nat_beq seq 0 || not (below (index_before seq) n)
      then (fails (exceeds_budget seq n), counted)
      else stamp seq now body counted

-- sentTimes[idx]
unfoldable pub time_at : ℕ → List ℤ → ℤ
time_at i [] = pos 0
time_at zero (t ∷ ts) = t
time_at (suc i) (t ∷ ts) = time_at i ts

-- seen[idx]
unfoldable pub seen_at : ℕ → List Bool → Bool
seen_at i [] = false
seen_at zero (b ∷ bs) = b
seen_at (suc i) (b ∷ bs) = seen_at i bs

-- seen[idx] = true
unfoldable pub mark : ℕ → List Bool → List Bool
mark i [] = []
mark zero (b ∷ bs) = true ∷ bs
mark (suc i) (b ∷ bs) = b ∷ mark i bs

-- The index of a sequence number in sentTimes: `none` is -1, and an index below 0 that is let through
-- is a panic.
unfoldable pub index_of : ℕ → ℕ → Outcome (Option ℕ)
unfolding index_before
index_of seq n =
    if ltb 0 seq
    then elim (index_before seq) [
      | pos i ↦ if ltb i n then fine (some i) else fine none
      | negsuc i ↦ panics
    ]
    else fine none

module _ {F : Type 0} ⦃f : Float F⦄ where
  -- The publication is recorded, or the record call has panicked.
  unfoldable pub after_record :
      List ℕ → Option (Stats F) → Shared F → Outcome (Option (List ℕ)) × Shared F
  after_record body none s = (panics, s)
  after_record body (some stats) s = (fine (some body), record s { stats = stats })

  -- The end of an iteration: Publish has returned, and the publication is recorded.
  unfoldable pub finish_publish :
      PublishWorker → Turn F → ℕ → List ℕ → Shared F → Outcome (Option (List ℕ)) × Shared F
  unfolding after_record
  finish_publish w t seq body s =
      let m : Message = record {
        exchange = w.exchange;
        routing_key = w.routing_key;
        body = body;
      } in
      let given = record s { sent = s.sent ++ m ∷ [] } in
      elim t.publish_error [
        | some e ↦ (fails (of_sdk e), given)
        | none ↦ after_record body (record_publish w.slot seq t.took_us s.stats) given
      ]

  -- One iteration of a publisher, with the body that all share; it ends in `fine none` at the stop.
  unfoldable pub publish_once :
      PublishWorker → Turn F → List ℕ → Shared F → Outcome (Option (List ℕ)) × Shared F
  unfolding mint finish_publish
  publish_once w t body s =
      let m = mint t.now body s in
      if t.stopped then (fine none, s) else elim m.0 [
        | fine b ↦ finish_publish w t m.1.seq_gen b m.1
        | fails e ↦ (fails e, m.1)
        | panics ↦ (panics, m.1)
      ]

  -- `n` iterations, from the `i`th on.
  unfoldable pub publish_loop :
      PublishWorker → (ℕ → Turn F) → ℕ → ℕ → List ℕ → Shared F → Outcome Unit × Shared F
  unfolding publish_once
  publish_loop w turn i zero body s = (fine tt, s)
  publish_loop w turn i (suc n) body s =
      let r = publish_once w (turn i) body s in
      elim r.0 [
        | fine o ↦ elim o [ none ↦ (fine tt, r.1) | some b ↦ publish_loop w turn (suc i) n b r.1 ]
        | fails e ↦ (fails e, r.1)
        | panics ↦ (panics, r.1)
      ]

  -- publishWorker.run
  unfoldable pub publish_run : PublishWorker → (ℕ → Turn F) → Shared F → Outcome Unit × Shared F
  unfolding publish_loop repeat
  publish_run w turn s = publish_loop w turn 0 w.msgs (repeat w.size 0) s

  -- The latency of a message that came at `recv` and was sent at `st`, if it was.
  unfoldable pub latency : ℤ → ℤ → F
  unfolding sub_i64 is_positive
  latency recv st =
      if is_positive st then f.over (f.of_int (sub_i64 recv st)) (of_nat 1000) else nought

  -- The delivery is recorded in the state `s`, or the record call has panicked.
  unfoldable pub after_deliver : Option (Stats F) → Shared F → Option (Shared F)
  after_deliver none s = none
  after_deliver (some stats) s = some (record s { stats = stats })

  -- A delivery whose number has an index in sentTimes, or -1.
  unfoldable pub receive_at :
      Outcome (Option ℕ) → ChannelSlot → ℕ → ℤ → Shared F → Option (Shared F)
  unfolding latency time_at seen_at mark after_deliver
  receive_at (fine none) sl seq recv_nanos s =
      after_deliver (record_deliver sl seq nought false s.stats) s
  receive_at (fine (some i)) sl seq recv_nanos s =
      after_deliver
        (record_deliver sl seq (latency recv_nanos (time_at i s.sent_times)) (seen_at i s.seen)
          s.stats)
        (record s { seen = mark i s.seen })
  receive_at (fails e) sl seq recv_nanos s = none
  receive_at panics sl seq recv_nanos s = none

  -- Looking a sequence number up, marking it as seen and recording the delivery; `none` is a panic.
  unfoldable pub receive : ChannelSlot → ℕ → ℤ → Shared F → Option (Shared F)
  unfolding receive_at index_of
  receive sl seq recv_nanos s = receive_at (index_of seq (length s.sent_times)) sl seq recv_nanos s

  -- Acknowledging, for a run with -ack.
  unfoldable pub acknowledge : Bool → ℕ → Arrival F → Shared F → Outcome Unit × Shared F
  unfolding record_ack
  acknowledge ack seq a s =
      if ack
      then elim a.ack_error [
        | some e ↦ (fails (of_sdk e), s)
        | none ↦ (fine tt, record s { stats = record_ack seq a.took_us s.stats })
      ]
      else (fine tt, s)

  -- The rest of an iteration: acknowledging, unless it has panicked.
  unfoldable pub after_receive :
      Bool → ℕ → Arrival F → Shared F → Option (Shared F) → Outcome Unit × Shared F
  unfolding acknowledge
  after_receive ack seq a s none = (panics, s)
  after_receive ack seq a s (some r) = acknowledge ack seq a r

  -- One iteration of a consumer.
  unfoldable pub consume_once : ConsumeWorker → Arrival F → Shared F → Outcome Unit × Shared F
  unfolding after_receive
  consume_once w a s =
      let seq = (decode_header a.body).0 in
      after_receive w.ack seq a s (receive w.slot seq a.recv_nanos s)

  -- consumeWorker.run, over the deliveries until the channel is closed.
  unfoldable pub consume_run : ConsumeWorker → List (Arrival F) → Shared F → Outcome Unit × Shared F
  unfolding consume_once
  consume_run w [] s = (fine tt, s)
  consume_run w (a ∷ later) s =
      let r = consume_once w a s in
      elim r.0 [
        | fine u ↦ consume_run w later r.1
        | fails e ↦ (fails e, r.1)
        | panics ↦ (panics, r.1)
      ]
