-- ===== src/Bench/Csv.antt =====
-- internal/bench/csv.go. How a number is printed is a parameter. Of a bufio.Writer the model has what it
-- holds, what it has passed to the destination and its sticky error. When a full buffer is written out,
-- where the destination breaks, how much it got then and with which error, is an argument of the call.
pub mod Sessions
use Prim.Native.String.{◌++◌ as ◌^+◌}
use golang_mq.Base.{
  ℕ, zero, suc, Bool, not, ◌||◌, Option, none, some, List, [], ◌∷◌, ◌++◌, ◌⊎◌, inl, inr, String,
  if◌then◌else◌,
}
use golang_mq.Broker.Consumers.{decimal}
use golang_mq.Json.{codes}
use golang_mq.Bench.Float.{Float, of_nat, nought}
use golang_mq.Bench.Counters.{IntervalRecord}

-- strconv.FormatFloat(x, 'f', digits, 64), and a time as RFC 3339
pub record Format (F : Type 0) : Type 0 where
  pub fixed : ℕ → F → String
  pub rfc3339 : ℕ → String

abbrev pub csv_columns : List String
csv_columns =
    "ts_start_rfc3339" ∷ "window_ms" ∷ "published" ∷ "delivered" ∷ "consumed" ∷ "pub_rate_per_s"
    ∷ "delivered_rate_per_s" ∷ "consumed_rate_per_s" ∷ "avg_delivery_lat_us" ∷ "min_delivery_lat_us"
    ∷ "max_delivery_lat_us" ∷ "p50_delivery_lat_us" ∷ "p95_delivery_lat_us" ∷ "p99_delivery_lat_us"
    ∷ "avg_ack_lat_us" ∷ "duplicates" ∷ "drops_cumulative" ∷ "both_lat_p95_us" ∷ "cons_lat_p95_us"
    ∷ []

-- strings.Join(cells, ",")
unfoldable pub join_commas : List String → String
join_commas [] = ""
join_commas (x ∷ []) = x
join_commas (x ∷ y ∷ ys) = x ^+ ("," ^+ join_commas (y ∷ ys))

unfoldable pub line_of : List String → String
unfolding join_commas
line_of cells = join_commas cells ^+ "\n"

-- How a call on the buffer goes: how many of the characters that it then holds it passes to the
-- destination, as a write of a full buffer may, and the error of the destination if it has one. A flush
-- without an error passes all.
pub data Io : Type 0 where
  goes : ℕ → Io
  breaks : ℕ → String → Io

-- bufio.Writer: what it holds, and its sticky error.
pub record Bufio : Type 0 where
  pub held : List ℕ
  pub err : Option String

-- The first `k` characters, and the others.
unfoldable pub pour : ℕ → List ℕ → List ℕ × List ℕ
pour zero xs = ([], xs)
pour (suc k) [] = ([], [])
pour (suc k) (x ∷ xs) = let r = pour k xs in (x ∷ r.0, r.1)

-- A call that passes `k` of these characters on and keeps the others.
unfoldable pub passing : ℕ → List ℕ → Option String → Option String × List ℕ × Bufio
unfolding pour
passing k xs e = (e, (pour k xs).0, record { held = (pour k xs).1; err = e })

-- WriteString: the error, what the destination gets, and the buffer.
unfoldable pub write_string : Io → String → Bufio → Option String × List ℕ × Bufio
unfolding passing codes
write_string io str b = elim b.err [
  | some e ↦ (some e, [], b)
  | none ↦ elim io [
    | goes k ↦ passing k (b.held ++ codes str) none
    | breaks k e ↦ passing k (b.held ++ codes str) (some e)
  ]
]

-- Flush
unfoldable pub flush_bufio : Io → Bufio → Option String × List ℕ × Bufio
unfolding passing
flush_bufio io b = elim b.err [
  | some e ↦ (some e, [], b)
  | none ↦ elim io [
    | goes k ↦ (none, b.held, record { held = []; err = none })
    | breaks k e ↦ passing k b.held (some e)
  ]
]

-- csvWriter; `out` is nil once it is closed, and `sent` is what the destination has got.
pub record CsvWriter : Type 0 where
  pub out : Option Bufio
  pub sent : List ℕ
  pub n : ℕ
  pub err : Option String

-- The result of a call: `none` is a panic, else the error that is returned and the writer.
abbrev pub Result : Type 0
Result = Option (Option String × CsvWriter)

-- What a call retains of a call on the buffer, and how it counts a success.
unfoldable pub retain : (ℕ → ℕ) → Option String × List ℕ × Bufio → CsvWriter → Result
retain count (some e, passed, b) c =
    some (some e, record c { out = some b; sent = c.sent ++ passed; err = some e })
retain count (none, passed, b) c =
    some (none, record c { out = some b; sent = c.sent ++ passed; n = count c.n })

unfoldable pub write_header : Io → CsvWriter → Result
unfolding retain write_string line_of
write_header io c = elim c.err [
  | some e ↦ some (some e, c)
  | none ↦ elim c.out [
    | none ↦ none
    | some b ↦ retain (λ n. n) (write_string io (line_of csv_columns) b) c
  ]
]

unfoldable pub flush : Io → CsvWriter → Result
unfolding retain flush_bufio
flush io c = elim c.err [
  | some e ↦ some (some e, c)
  | none ↦ elim c.out [ none ↦ none | some b ↦ retain (λ n. n) (flush_bufio io b) c ]
]

-- close flushes and drops the writer.
unfoldable pub close : Io → CsvWriter → Option String × CsvWriter
unfolding flush_bufio
close io c = elim c.out [
  | none ↦ (c.err, c)
  | some b ↦ elim c.err [
    | some e ↦ (some e, record c { out = none })
    | none ↦
        let r = flush_bufio io b in (r.0, record c { out = none; sent = c.sent ++ r.1; err = r.0 })
  ]
]

-- newCSVWriter: how the header's write goes, and its flush.
unfoldable pub new_csv_writer : Io → Io → Option (String ⊎ CsvWriter)
unfolding write_header flush
new_csv_writer io io' =
    elim (write_header io
      (record { out = some (record { held = []; err = none }); sent = []; n = 0; err = none })) [
        | none ↦ none
        | some (some e, c) ↦ some (inl e)
        | some (none, c) ↦ elim (flush io' c) [
          | none ↦ none
          | some (some e, d) ↦ some (inl e)
          | some (none, d) ↦ some (inr d)
        ]
      ]

module _ {F : Type 0} ⦃f : Float F⦄ ⦃format : Format F⦄ where
  -- windowMs <= 0 does not hold of a NaN.
  unfoldable pub per_sec : ℕ → F → F
  per_sec n window_ms =
      if not (f.lt nought window_ms || f.is_nan window_ms)
      then nought
      else f.over (of_nat n) (f.over window_ms (of_nat 1000))

  unfoldable pub cells_of : IntervalRecord F → List String
  unfolding decimal per_sec
  cells_of r =
      format.rfc3339 r.ts_start
      ∷ format.fixed 1 r.window_ms
      ∷ decimal r.published
      ∷ decimal r.delivered
      ∷ decimal r.consumed
      ∷ format.fixed 2 (per_sec r.published r.window_ms)
      ∷ format.fixed 2 (per_sec r.delivered r.window_ms)
      ∷ format.fixed 2 (per_sec r.consumed r.window_ms)
      ∷ format.fixed 2 r.del_lat.avg
      ∷ format.fixed 2 r.del_lat.min
      ∷ format.fixed 2 r.del_lat.max
      ∷ format.fixed 2 r.del_lat.p50
      ∷ format.fixed 2 r.del_lat.p95
      ∷ format.fixed 2 r.del_lat.p99
      ∷ format.fixed 2 r.ack_avg_us
      ∷ decimal r.duplicates
      ∷ decimal r.drops
      ∷ format.fixed 2 r.both_p95_us
      ∷ format.fixed 2 r.cons_p95_us
      ∷ []

  unfoldable pub write_interval : Io → IntervalRecord F → CsvWriter → Result
  unfolding retain write_string line_of cells_of
  write_interval io r c = elim c.err [
    | some e ↦ some (some e, c)
    | none ↦ elim c.out [
      | none ↦ none
      | some b ↦ retain suc (write_string io (line_of (cells_of r)) b) c
    ]
  ]
