-- ===== src/Bench/Worker/Receiving.antt =====
-- The path of one message through internal/bench/worker.go: minted, sent, and delivered.
use golang_mq.Base.{
  ℕ, zero, suc, ◌^◌, ◌≤◌, ◌<◌, ◌≡◌, refl, ap, ◌∙◌, Bool, true, false, some, List, [], ◌∷◌, length,
  arith,
}
use golang_mq.Base.Int.{ℤ, pos}
use golang_mq.Bench.Float.{Float, of_nat}
use golang_mq.Bench.Header.{decode_header}
use golang_mq.Bench.Header.Roundtrip.{decode_header-encode_header}
use golang_mq.Bench.Topology.{ChannelSlot}
use golang_mq.Bench.Stats.Ledger.{delivery, Log, note, stats_of}
use golang_mq.Bench.Stats.Refines.{record_deliver-stats}
use golang_mq.Bench.Worker.{
  Shared, ConsumeWorker, Arrival, fine, mint, index_of, latency, sub_i64, is_positive, time_at,
  seen_at, mark, receive, receive_at, after_receive, acknowledge, consume_once,
}
use golang_mq.Bench.Worker.Minting.{IsMinted-mint, index_before-suc}

pub index_of-suc : (g n : ℕ) → g < n → n < 2 ^ 63 → index_of (suc g) n ≡ fine (some g)
unfolding index_of
index_of-suc g n small bound = rw (index_before-suc g (omega arith)) (ground arith)

pub seen_at-mark : (i : ℕ) (bs : List Bool) → i < length bs → seen_at i (mark i bs) ≡ true
unfolding seen_at mark
seen_at-mark i [] h = absurd (omega arith)
seen_at-mark zero (b ∷ bs) h = refl
seen_at-mark (suc i) (b ∷ bs) h = seen_at-mark i bs (omega arith)

module _ {F : Type 0} ⦃f : Float F⦄ (conns capable total : ℕ) where
  -- The state after a delivery of the message with the index `g`.
  abbrev pub delivered_to : ChannelSlot → ℕ → ℤ → Shared F → Log F → Log F
  delivered_to sl g recv s l =
      note (suc g) (delivery sl (latency recv (time_at g s.sent_times)) (seen_at g s.seen)) l

  pub receive-stats :
      (sl : ChannelSlot) (g : ℕ) (recv : ℤ) (s : Shared F) (l : Log F)
      → sl.conn < conns
      → g < length s.sent_times
      → length s.sent_times < 2 ^ 63
      → s.stats ≡ stats_of conns capable total l
      → receive sl (suc g) recv s
        ≡ some (record s {
          seen = mark g s.seen;
          stats = stats_of conns capable total (delivered_to sl g recv s l);
        })
  unfolding receive receive_at
  receive-stats sl g recv s l on_conn small bound kept =
      rw
        (
          index_of-suc g (length s.sent_times) small bound,
          kept,
          record_deliver-stats conns capable total sl (suc g)
              (latency recv (time_at g s.sent_times)) (seen_at g s.seen) l on_conn,
        )
        refl

  consume-stats :
      (w : ConsumeWorker) (a : Arrival F) (g : ℕ) (sent : ℤ) (s : Shared F) (l : Log F)
      → w.slot.conn < conns
      → g < length s.sent_times
      → length s.sent_times < 2 ^ 63
      → s.stats ≡ stats_of conns capable total l
      → decode_header a.body ≡ (suc g, sent)
      → w.ack ≡ false
      → consume_once w a s ≡ (
        fine tt,
        record s {
          seen = mark g s.seen;
          stats = stats_of conns capable total (delivered_to w.slot g a.recv_nanos s l);
        },
      )
  unfolding consume_once after_receive acknowledge
  consume-stats w a g sent s l on_conn small bound kept decoded no_ack =
      rw (decoded, receive-stats w.slot g a.recv_nanos s l on_conn small bound kept, no_ack) refl

  -- The latency of a message that was sent at `now`.
  abbrev pub since : ℕ → ℤ → F
  since now recv = f.over (f.of_int (sub_i64 recv (pos now))) (of_nat 1000)

  latency-pos : (recv : ℤ) (n : ℕ) → 0 < n → latency recv (pos n) ≡ since n recv
  unfolding latency is_positive
  latency-pos recv n later = ground arith

  -- A message is minted within a budget below 2^63, into a body of at least 16 bytes, at a
  -- positive time of 64 bits, as the first under its number, and two consumers that do not ack, or
  -- one of them twice, receive it: the first delivery is recorded as a consumption and the second
  -- as a duplicate, both under the number of the message, each with its time since the message was
  -- sent, in microseconds.
  pub mint-consume_once :
      (body b : List ℕ) (now : ℕ) (s r : Shared F) (l : Log F) (w w' : ConsumeWorker)
      (a a' : Arrival F)
      → s.seq_gen < length s.sent_times
      → length s.sent_times ≡ length s.seen
      → length s.sent_times < 2 ^ 63
      → seen_at s.seq_gen s.seen ≡ false
      → s.stats ≡ stats_of conns capable total l
      → 16 ≤ length body
      → 0 < now
      → now < 2 ^ 63
      → mint (pos now) body s ≡ (fine b, r)
      → w.slot.conn < conns
      → w'.slot.conn < conns
      → w.ack ≡ false
      → w'.ack ≡ false
      → a.body ≡ b
      → a'.body ≡ b
      → (first : Shared F) × (last : Shared F) × (consume_once w a r ≡ (fine tt, first))
        × (consume_once w' a' first ≡ (fine tt, last))
        × (last.stats
            ≡ stats_of conns capable total (
                note
                  (suc s.seq_gen)
                  (delivery w'.slot (since now a'.recv_nanos) true)
                  (note (suc s.seq_gen) (delivery w.slot (since now a.recv_nanos) false) l)))
  mint-consume_once body b now s r l w w' a a' room same_size bound unseen kept fits later in_i64
        minted on_conn on_conn' no_ack no_ack' body_a body_a' =
      let g = s.seq_gen in
      let m = IsMinted-mint (pos now) body s b r room bound fits minted in
      let decoded : decode_header b ≡ (suc g, pos now) =
        decode_header-encode_header body b (suc g) (pos now) (omega arith) in_i64 m.header in
      let small : g < length r.sent_times = omega (arith, m.budget) in
      let bound' : length r.sent_times < 2 ^ 63 = omega (arith, m.budget) in
      let log = delivered_to w.slot g a.recv_nanos r l in
      let first = record r { seen = mark g r.seen; stats = stats_of conns capable total log } in
      let log' = delivered_to w'.slot g a'.recv_nanos first log in
      (
        first,
        record first { seen = mark g first.seen; stats = stats_of conns capable total log' },
        consume-stats w a g (pos now) r l on_conn small bound' (m.stats ∙ kept)
            (ap decode_header body_a ∙ decoded) no_ack,
        consume-stats w' a' g (pos now) first log on_conn' small bound' refl
            (ap decode_header body_a' ∙ decoded) no_ack',
        rw
            (
              m.time,
              latency-pos a.recv_nanos now later,
              latency-pos a'.recv_nanos now later,
              m.seen,
              unseen,
              seen_at-mark g s.seen (omega (arith, same_size)),
            )
            refl,
      )
