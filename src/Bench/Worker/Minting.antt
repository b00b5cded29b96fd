-- ===== src/Bench/Worker/Minting.antt =====
-- The sequence numbers and stamps of publishWorker.run in internal/bench/worker.go.
use golang_mq.Base.{
  ℕ, zero, suc, ◌+◌, ◌-◌, ◌%◌, ◌^◌, ◌≤◌, ◌<◌, ◌≡◌, refl, sym, ap, subst, ◌∙◌, true, false, not,
  ◌||◌, some, List, [], ◌∷◌, ◌++◌, ltb, nat_beq, length, length-append, arith,
}
use golang_mq.Base.Int.{ℤ, pos, below}
use golang_mq.Bench.Header.{u64_mod, encode_header, drop_bytes, put_bytes, to_u64, to_i64}
use golang_mq.Bench.Header.Roundtrip.{length-put_bytes}
use golang_mq.Bench.Latency.{inc_u64}
use golang_mq.Bench.Counters.{change_at}
use golang_mq.Bench.Worker.{
  Shared, Outcome, fine, fails, panics, exceeds_budget, index_before, stamp, mint, time_at,
}

-- Storing a time at an index that is in range.
stored :
    (t : ℤ) (i : ℕ) (xs : List ℤ)
    → i < length xs
    → (ys : List ℤ) × (change_at (λ x. t) i xs ≡ some ys)
      × (length ys ≡ length xs)
      × (time_at i ys ≡ t)
unfolding change_at time_at
stored t i [] h = absurd (omega arith)
stored t zero (x ∷ xs) h = (t ∷ xs, refl, refl, refl)
stored t (suc i) (x ∷ xs) h =
    let (ys, e, l, at) = stored t i xs (omega arith) in (x ∷ ys, rw e refl, rw l refl, at)

length-drop_bytes : (n : ℕ) (b : List ℕ) → length (drop_bytes n b) ≡ length b - n
unfolding drop_bytes
length-drop_bytes zero b = omega arith
length-drop_bytes (suc n) [] = omega arith
length-drop_bytes (suc n) (x ∷ b) = omega (arith, length-drop_bytes n b)

-- A header fits into a body of 16 bytes or more, which keeps its length.
pub encode_header-some :
    (body : List ℕ) (seq : ℕ) (now : ℤ)
    → 16 ≤ length body
    → (b : List ℕ) × (encode_header body seq now ≡ some b) × (length b ≡ length body)
unfolding encode_header
encode_header-some body seq now fits = (
  put_bytes 8 seq ++ (put_bytes 8 (to_u64 now) ++ drop_bytes 16 body),
  ground arith,
  omega (
    arith,
    length-append (put_bytes 8 seq) (put_bytes 8 (to_u64 now) ++ drop_bytes 16 body),
    length-append (put_bytes 8 (to_u64 now)) (drop_bytes 16 body),
    length-put_bytes 8 seq,
    length-put_bytes 8 (to_u64 now),
    length-drop_bytes 16 body,
  ),
)

-- The index of the sequence number after `g`.
pub index_before-suc : (g : ℕ) → suc g < 2 ^ 63 → index_before (suc g) ≡ pos g
unfolding index_before to_i64
index_before-suc g small =
    let e : (suc g + (u64_mod - 1)) % u64_mod ≡ g = omega arith in
    rw (e, ltb_of_lt g (2 ^ 63) (omega arith)) refl
  where
    ltb_of_lt : (a b : ℕ) → a < b → ltb a b ≡ true
    ltb_of_lt a b h = ground arith

pub inc_u64-suc : (g : ℕ) → suc g < u64_mod → inc_u64 g ≡ suc g
unfolding inc_u64
inc_u64-suc g small = omega arith

-- The guard of a sequence number that is in the budget, and of one that is not.
in_budget :
    (g n : ℕ)
    → g < n
    → n < 2 ^ 63
    → (nat_beq (suc g) 0 || not (below (index_before (suc g)) n)) ≡ false
unfolding below
in_budget g n small bound = rw (index_before-suc g (omega arith)) (ground arith)

out_of_budget :
    (g n : ℕ)
    → n ≤ g
    → suc g < 2 ^ 63
    → (nat_beq (suc g) 0 || not (below (index_before (suc g)) n)) ≡ true
unfolding below
out_of_budget g n large bound = rw (index_before-suc g (omega arith)) (ground arith)

-- What a sequence number that is in the budget gives.
pub record IsMinted {F : Type 0} (now : ℤ) (body : List ℕ) (s : Shared F) (b : List ℕ)
    (r : Shared F) : Type 0 where
  pub result : mint now body s ≡ (fine b, r)
  pub header : encode_header body (suc s.seq_gen) now ≡ some b
  pub size : length b ≡ length body
  pub number : r.seq_gen ≡ suc s.seq_gen
  pub time : time_at s.seq_gen r.sent_times ≡ now
  pub budget : length r.sent_times ≡ length s.sent_times
  pub seen : r.seen ≡ s.seen
  pub stats : r.stats ≡ s.stats
  pub sent : r.sent ≡ s.sent

value : Outcome (List ℕ) → List ℕ
value (fine b) = b
value (fails e) = []
value panics = []

module _ {F : Type 0} where
  stamp-fine :
      (g : ℕ) (now : ℤ) (body : List ℕ) (s : Shared F) {times : List ℤ} {b : List ℕ}
      → change_at (λ t. now) g s.sent_times ≡ some times
      → encode_header body (suc g) now ≡ some b
      → stamp (suc g) now body s ≡ (fine b, record s { sent_times = times })
  unfolding stamp
  stamp-fine g now body s stored_now header =
      let e : suc g - 1 ≡ g = omega arith in rw (stamp, e, stored_now, header) refl

  pub mint-IsMinted :
      (now : ℤ) (body : List ℕ) (s : Shared F)
      → s.seq_gen < length s.sent_times
      → length s.sent_times < 2 ^ 63
      → 16 ≤ length body
      → (b : List ℕ) × (r : Shared F) × IsMinted now body s b r
  unfolding mint
  mint-IsMinted now body s room bound fits =
      let (times, stored_now, same_length, at) = stored now s.seq_gen s.sent_times room in
      let (b, header, size) = encode_header-some body (suc s.seq_gen) now fits in
      (
        b,
        record s { seq_gen = suc s.seq_gen; sent_times = times },
        record {
          result =
              rw
                (
                  inc_u64-suc s.seq_gen (omega arith),
                  in_budget s.seq_gen (length s.sent_times) room bound,
                )
                (stamp-fine s.seq_gen now body (record s { seq_gen = suc s.seq_gen }) stored_now
                  header);
          header = header;
          size = size;
          number = refl;
          time = at;
          budget = same_length;
          seen = refl;
          stats = refl;
          sent = refl;
        },
      )

  pub IsMinted-mint :
      (now : ℤ) (body : List ℕ) (s : Shared F) (b : List ℕ) (r : Shared F)
      → s.seq_gen < length s.sent_times
      → length s.sent_times < 2 ^ 63
      → 16 ≤ length body
      → mint now body s ≡ (fine b, r)
      → IsMinted now body s b r
  unfolding value
  IsMinted-mint now body s b r room bound fits e =
      let (b', r', minted) = mint-IsMinted now body s room bound fits in
      let same : Path (Outcome (List ℕ) × Shared F) (fine b', r') (fine b, r) =
        sym minted.result ∙ e in
      subst (λ x. IsMinted now body s x r) (ap (λ x. value x.0) same)
        (subst (λ x. IsMinted now body s b' x) (ap (λ x. x.1) same) minted)

  -- Beyond the budget the call fails, and the number is used up.
  pub mint-exceeds :
      (now : ℤ) (body : List ℕ) (s : Shared F)
      → length s.sent_times ≤ s.seq_gen
      → suc s.seq_gen < 2 ^ 63
      → mint now body s ≡ (
        fails (exceeds_budget (suc s.seq_gen) (length s.sent_times)),
        record s { seq_gen = suc s.seq_gen },
      )
  unfolding mint
  mint-exceeds now body s full bound =
      rw
        (
          inc_u64-suc s.seq_gen (omega arith),
          out_of_budget s.seq_gen (length s.sent_times) full bound,
        )
        refl
