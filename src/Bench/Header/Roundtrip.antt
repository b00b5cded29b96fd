-- ===== src/Bench/Header/Roundtrip.antt =====
-- Writing a header and reading it, of internal/bench/worker.go.
use native.Mathlib.Nat.{div-lt_iff_lt-mul, div-add-mod'}
use golang_mq.Base.{
  ℕ, zero, suc, ◌+◌, ◌*◌, ◌/◌, ◌%◌, ◌^◌, ◌<◌, ◌≡◌, refl, ap, sym, ◌∙◌, true, some, ◌≢◌, List, [],
  ◌∷◌, ◌++◌, arith, ltb, length, length-append, Bool-cases, inl, inr,
}
use golang_mq.Base.Int.{ℤ, pos, negsuc}
use golang_mq.Bench.Header.{
  u64_mod, take_bytes, drop_bytes, put_bytes, get_bytes, to_u64, to_i64, encode_header,
  decode_header,
}

-- 256 ^ k
power : ℕ → ℕ
power zero = 1
power (suc k) = power k * 256

pub length-put_bytes : (k v : ℕ) → length (put_bytes k v) ≡ k
unfolding put_bytes
length-put_bytes zero v = refl
length-put_bytes (suc k) v =
    omega
      (arith, length-append (put_bytes k (v / 256)) ((v % 256) ∷ []), length-put_bytes k (v / 256))

get_bytes-append : (v : ℕ) (xs ys : List ℕ) → get_bytes v (xs ++ ys) ≡ get_bytes (get_bytes v xs) ys
unfolding get_bytes
get_bytes-append v [] ys = refl
get_bytes-append v (x ∷ xs) ys = get_bytes-append (v * 256 + x) xs ys

get_bytes-put_bytes : (k v : ℕ) → v < power k → get_bytes 0 (put_bytes k v) ≡ v
unfolding get_bytes put_bytes power
get_bytes-put_bytes zero v h = omega (arith, h)
get_bytes-put_bytes (suc k) v h =
    get_bytes-append 0 (put_bytes k (v / 256)) ((v % 256) ∷ [])
    ∙ rw
        (get_bytes-put_bytes k (v / 256)
          ((div-lt_iff_lt-mul {k = 256} {x = v} {y = power k} (omega arith)).1 h))
        (div-add-mod' v 256)

take_bytes-append : (xs ys : List ℕ) → take_bytes (length xs) (xs ++ ys) ≡ xs
unfolding take_bytes
take_bytes-append [] ys = refl
take_bytes-append (x ∷ xs) ys = ap (◌∷◌ x) (take_bytes-append xs ys)

drop_bytes-append : (xs ys : List ℕ) → drop_bytes (length xs) (xs ++ ys) ≡ ys
unfolding drop_bytes
drop_bytes-append [] ys = refl
drop_bytes-append (x ∷ xs) ys = drop_bytes-append xs ys

-- The eight bytes at the front, and what follows.
front : (v : ℕ) (ys : List ℕ) → v < u64_mod → get_bytes 0 (take_bytes 8 (put_bytes 8 v ++ ys)) ≡ v
front v ys h =
    ap (λ n. get_bytes 0 (take_bytes n (put_bytes 8 v ++ ys))) (sym (length-put_bytes 8 v))
    ∙ ap (get_bytes 0) (take_bytes-append (put_bytes 8 v) ys)
    ∙ get_bytes-put_bytes 8 v (unfold power in omega (arith, h))

back : (v : ℕ) (ys : List ℕ) → drop_bytes 8 (put_bytes 8 v ++ ys) ≡ ys
back v ys =
    ap (λ n. drop_bytes n (put_bytes 8 v ++ ys)) (sym (length-put_bytes 8 v))
    ∙ drop_bytes-append (put_bytes 8 v) ys

-- The signed numbers of 64 bits.
abbrev pub IsI64 : ℤ → Type 0
IsI64 (pos n) = n < 2 ^ 63
IsI64 (negsuc n) = n < 2 ^ 63

to_u64-bound : (z : ℤ) → IsI64 z → to_u64 z < u64_mod
unfolding to_u64
to_u64-bound (pos n) h = omega (arith, h)
to_u64-bound (negsuc n) h = omega (arith, h)

to_i64-to_u64 : (z : ℤ) → IsI64 z → to_i64 (to_u64 z) ≡ z
unfolding to_u64 to_i64
to_i64-to_u64 (pos n) h = ground (arith, h)
to_i64-to_u64 (negsuc n) h = ground (arith, h)

decode_header-put_bytes :
    (seq u : ℕ) (rest : List ℕ)
    → seq < u64_mod
    → u < u64_mod
    → decode_header (put_bytes 8 seq ++ (put_bytes 8 u ++ rest)) ≡ (seq, to_i64 u)
unfolding decode_header
decode_header-put_bytes seq u rest h g =
    elim (Bool-cases (ltb (length (put_bytes 8 seq ++ (put_bytes 8 u ++ rest))) 16)) [
      | inl short ↦ absurd (roomy short)
      | inr long ↦
          rw
            (
              long,
              front seq (put_bytes 8 u ++ rest) h,
              back seq (put_bytes 8 u ++ rest),
              front u rest g,
            )
            refl
    ]
  where
    roomy : ltb (length (put_bytes 8 seq ++ (put_bytes 8 u ++ rest))) 16 ≢ true
    roomy short = ground (
      arith,
      length-append (put_bytes 8 seq) (put_bytes 8 u ++ rest),
      length-append (put_bytes 8 u) rest,
      length-put_bytes 8 seq,
      length-put_bytes 8 u,
    )

encoded :
    (body written : List ℕ) (seq : ℕ) (send_nanos : ℤ)
    → encode_header body seq send_nanos ≡ some written
    → put_bytes 8 seq ++ (put_bytes 8 (to_u64 send_nanos) ++ drop_bytes 16 body) ≡ written
unfolding encode_header
encoded body written seq z e = ground arith

-- If a sequence number below 2^64 and a time of 64 bits with a sign are encoded into a body that
-- has room for them, then decoding the body returns them.
pub decode_header-encode_header :
    (body written : List ℕ) (seq : ℕ) (send_nanos : ℤ)
    → seq < u64_mod
    → IsI64 send_nanos
    → encode_header body seq send_nanos ≡ some written
    → decode_header written ≡ (seq, send_nanos)
decode_header-encode_header body written seq z small fits h = rw (← encoded body written seq z h) (
    decode_header-put_bytes seq (to_u64 z) (drop_bytes 16 body) small (to_u64-bound z fits)
    ∙ ap (λ x. (seq, x)) (to_i64-to_u64 z fits))
