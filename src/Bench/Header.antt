-- ===== src/Bench/Header.antt =====
-- The header of a message: encodeHeader and decodeHeader of internal/bench/worker.go. A `[]byte` is a
-- list of numbers below 256; a `uint64` is a number below 2^64, an `int64` a signed number.
pub mod Roundtrip
use golang_mq.Base.{
  ℕ, zero, suc, ◌+◌, ◌-◌, ◌*◌, ◌/◌, ◌%◌, ◌^◌, Bool, Option, none, some, List, [], ◌∷◌, ◌++◌, ltb,
  length, if◌then◌else◌,
}
use golang_mq.Base.Int.{ℤ, pos, negsuc}

abbrev pub u64_mod : ℕ
u64_mod = 2 ^ 64

-- The length of the header of a message, in bytes.
abbrev pub header_len : ℕ
header_len = 16

-- b[:n] and b[n:]
unfoldable pub take_bytes : ℕ → List ℕ → List ℕ
take_bytes zero b = []
take_bytes (suc n) [] = []
take_bytes (suc n) (x ∷ b) = x ∷ take_bytes n b

unfoldable pub drop_bytes : ℕ → List ℕ → List ℕ
drop_bytes zero b = b
drop_bytes (suc n) [] = []
drop_bytes (suc n) (x ∷ b) = drop_bytes n b

-- The last `k` bytes of a number, the most significant first: PutUint64 for eight.
unfoldable pub put_bytes : ℕ → ℕ → List ℕ
put_bytes zero v = []
put_bytes (suc k) v = put_bytes k (v / 256) ++ (v % 256) ∷ []

-- The number that bytes spell after what `v` spells: Uint64 for eight.
unfoldable pub get_bytes : ℕ → List ℕ → ℕ
get_bytes v [] = v
get_bytes v (x ∷ b) = get_bytes (v * 256 + x) b

-- uint64(x) and int64(x)
unfoldable pub to_u64 : ℤ → ℕ
to_u64 (pos n) = n
to_u64 (negsuc n) = u64_mod - suc n

unfoldable pub to_i64 : ℕ → ℤ
to_i64 n = if ltb n (2 ^ 63) then pos n else negsuc (u64_mod - suc n)

-- The header is written over the first bytes; `none` is the panic if the body has no room for it.
unfoldable pub encode_header : List ℕ → ℕ → ℤ → Option (List ℕ)
encode_header body seq send_nanos =
    if ltb (length body) header_len
    then none
    else some (put_bytes 8 seq ++ (put_bytes 8 (to_u64 send_nanos) ++ drop_bytes 16 body))

unfoldable pub decode_header : List ℕ → ℕ × ℤ
unfolding take_bytes drop_bytes get_bytes to_i64
decode_header body =
    if ltb (length body) header_len
    then (0, pos 0)
    else (get_bytes 0 (take_bytes 8 body), to_i64 (get_bytes 0 (take_bytes 8 (drop_bytes 8 body))))
