-- ===== src/Bench/Worker/Publishing.antt =====
-- The loop of publishWorker.run in internal/bench/worker.go when the SDK takes each message.
use golang_mq.Base.{
  ℕ, zero, suc, ◌+◌, ◌^◌, ◌≤◌, ◌<◌, ◌≡◌, refl, ap, ◌∙◌, false, none, some, List, [], ◌∷◌, ◌++◌, leb,
  length, length-append, arith, Bool-cases, inl, inr,
}
use golang_mq.Bench.Float.{Float}
use golang_mq.Bench.Counters.{repeat}
use golang_mq.Bench.Stats.Ledger.{Entry, publication, Log, count, note, is_publication, stats_of}
use golang_mq.Bench.Stats.Refines.{IsNumbered, record_publish-stats}
use golang_mq.Bench.Worker.{
  Shared, PublishWorker, Turn, Message, fine, finish_publish, publish_once, publish_loop,
  publish_run,
}
use golang_mq.Bench.Worker.Minting.{mint-IsMinted}

pub all-note : {F : Type 0} (seq : ℕ) (e : Entry F) (l : Log F) → (note seq e l).all ≡ e ∷ l.all
unfolding note
all-note seq e l = elim (Bool-cases (leb seq l.cutoff)) [ inl h ↦ rw h refl | inr h ↦ rw h refl ]

pub length-repeat : {A : Type 0} (n : ℕ) (x : A) → length (repeat n x) ≡ n
unfolding repeat
length-repeat zero x = refl
length-repeat (suc n) x = rw (length-repeat n x) refl

-- No iteration is told to stop, and each call of Publish succeeds.
pub record IsServed {F : Type 0} (turn : ℕ → Turn F) : Type 0 where
  pub goes_on : (i : ℕ) → (turn i).stopped ≡ false
  pub taken : (i : ℕ) → (turn i).publish_error ≡ none

module _ {F : Type 0} ⦃f : Float F⦄ (conns capable total : ℕ) where
  -- `n` more messages were given out, sent and counted.
  pub record IsAdvanced (n : ℕ) (s : Shared F) (l : Log F) (end : Shared F) (end_log : Log F)
      : Type 0 where
    pub number : end.seq_gen ≡ s.seq_gen + n
    pub sent : length end.sent ≡ length s.sent + n
    pub budget : length end.sent_times ≡ length s.sent_times
    pub stats : end.stats ≡ stats_of conns capable total end_log
    pub counted : count is_publication end_log.all ≡ count is_publication l.all + n

  pub finish-fine :
      (w : PublishWorker) (t : Turn F) (seq : ℕ) (body : List ℕ) (s : Shared F) (l : Log F)
      → w.slot.conn < conns
      → IsNumbered capable w.slot.publish_cap_idx
      → t.publish_error ≡ none
      → s.stats ≡ stats_of conns capable total l
      → finish_publish w t seq body s ≡ (
        fine (some body),
        record s {
          sent =
              s.sent
              ++ (record { exchange = w.exchange; routing_key = w.routing_key; body = body }) ∷ [];
          stats = stats_of conns capable total (note seq (publication w.slot) l);
        },
      )
  unfolding finish_publish
  finish-fine w t seq body s l on_conn on_channel taken kept =
      rw
        (
          taken,
          kept,
          record_publish-stats conns capable total w.slot seq t.took_us l on_conn on_channel,
        )
        refl

  once-advances :
      (w : PublishWorker) (t : Turn F) (body : List ℕ) (s : Shared F) (l : Log F)
      → w.slot.conn < conns
      → IsNumbered capable w.slot.publish_cap_idx
      → t.stopped ≡ false
      → t.publish_error ≡ none
      → 16 ≤ length body
      → s.seq_gen < length s.sent_times
      → length s.sent_times < 2 ^ 63
      → s.stats ≡ stats_of conns capable total l
      → (b : List ℕ) × (r : Shared F) × (publish_once w t body s ≡ (fine (some b), r))
        × (length b ≡ length body)
        × IsAdvanced 1 s l r (note (suc s.seq_gen) (publication w.slot) l)
  unfolding publish_once count
  once-advances w t body s l on_conn on_channel goes_on taken fits room bound kept =
      let (b, m, minted) = mint-IsMinted t.now body s room bound fits in
      let msg : Message = record { exchange = w.exchange; routing_key = w.routing_key; body = b } in
      let after = note (suc s.seq_gen) (publication w.slot) l in
      (
        b,
        record m { sent = m.sent ++ msg ∷ []; stats = stats_of conns capable total after },
        rw
            (
              goes_on,
              minted.result,
              minted.result,
              minted.number,
              finish-fine w t (suc s.seq_gen) b m l on_conn on_channel taken (minted.stats ∙ kept),
              minted.number,
            )
            refl,
        minted.size,
        record {
          number = omega (arith, minted.number);
          sent = omega (arith, length-append m.sent (msg ∷ []), ap length minted.sent);
          budget = minted.budget;
          stats = refl;
          counted = rw (all-note (suc s.seq_gen) (publication w.slot) l) (omega arith);
        },
      )

  loop-advances :
      (w : PublishWorker) (turn : ℕ → Turn F) (i n : ℕ) (body : List ℕ) (s : Shared F) (l : Log F)
      → w.slot.conn < conns
      → IsNumbered capable w.slot.publish_cap_idx
      → IsServed turn
      → 16 ≤ length body
      → s.seq_gen + n ≤ length s.sent_times
      → length s.sent_times < 2 ^ 63
      → s.stats ≡ stats_of conns capable total l
      → (end : Shared F) × (end_log : Log F) × (publish_loop w turn i n body s ≡ (fine tt, end))
        × IsAdvanced n s l end end_log
  unfolding publish_loop
  loop-advances w turn i zero body s l on_conn on_channel served fits room bound kept = (
    s,
    l,
    refl,
    record {
      number = omega arith;
      sent = omega arith;
      budget = refl;
      stats = kept;
      counted = omega arith;
    },
  )
  loop-advances w turn i (suc n) body s l on_conn on_channel served fits room bound kept =
      let (b, r, once, size, now) =
        once-advances w (turn i) body s l on_conn on_channel (served.goes_on i) (served.taken i)
          fits (omega arith) bound kept in
      let (end, end_log, rest, later) =
        loop-advances w turn (suc i) n b r (note (suc s.seq_gen) (publication w.slot) l) on_conn
          on_channel served (omega (arith, size)) (omega (arith, now.number, now.budget))
          (omega (arith, now.budget)) now.stats in
      (
        end,
        end_log,
        rw (publish_loop, once, once, rest) refl,
        record {
          number = omega (arith, now.number, later.number);
          sent = omega (arith, now.sent, later.sent);
          budget = omega (arith, now.budget, later.budget);
          stats = later.stats;
          counted = omega (arith, now.counted, later.counted);
        },
      )

  -- A publisher on a slot of the topology that is never told to stop, whose every message the SDK
  -- takes, whose body has at least 16 bytes, and for whose messages a budget below 2^63 has room,
  -- returns without an error, after it has taken a number for each message, handed each to the SDK
  -- and counted each as published.
  pub publish_run-IsAdvanced :
      (w : PublishWorker) (turn : ℕ → Turn F) (s : Shared F) (l : Log F)
      → w.slot.conn < conns
      → IsNumbered capable w.slot.publish_cap_idx
      → IsServed turn
      → 16 ≤ w.size
      → s.seq_gen + w.msgs ≤ length s.sent_times
      → length s.sent_times < 2 ^ 63
      → s.stats ≡ stats_of conns capable total l
      → (end : Shared F) × (end_log : Log F) × (publish_run w turn s ≡ (fine tt, end))
        × IsAdvanced w.msgs s l end end_log
  unfolding publish_run
  publish_run-IsAdvanced w turn s l on_conn on_channel served fits room bound kept =
      loop-advances w turn 0 w.msgs (repeat w.size 0) s l on_conn on_channel served
        (rw (length-repeat {A = ℕ} w.size 0) fits) room bound kept
