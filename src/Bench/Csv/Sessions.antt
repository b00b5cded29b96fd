-- ===== src/Bench/Csv/Sessions.antt =====
-- The calls of a csvWriter of internal/bench/csv.go between its construction and its close.
use golang_mq.Base.{
  ℕ, zero, suc, ◌+◌, ◌≡◌, refl, ap, sym, subst, ◌∙◌, Option, none, some, List, [], ◌∷◌, ◌++◌, inl,
  inr, ◌⊎◌, String, length, arith,
}
use mathlib.Core.List.{append_assoc, append-nil}
use golang_mq.Json.{codes}
use golang_mq.Bench.Float.{Float}
use golang_mq.Bench.Counters.{IntervalRecord, repeat}
use golang_mq.Bench.Csv.{
  Format, Io, goes, breaks, Bufio, CsvWriter, Result, csv_columns, line_of, cells_of, pour, passing,
  write_string, flush_bufio, retain, write_header, write_interval, flush, close, new_csv_writer,
}

pub data Call (F : Type 0) : Type 0 where
  writes : IntervalRecord F → Call F
  flushes : Call F

-- The result of a call in front of those of the calls that follow.
unfoldable pub followed :
    Option String
    → Option (List (Option String) × CsvWriter)
    → Option (List (Option String) × CsvWriter)
followed e none = none
followed e (some r) = some (e ∷ r.0, r.1)

-- A writer that is open and has had no error, whose destination has got those characters, and that
-- holds these.
abbrev pub open_with : List ℕ → List ℕ → ℕ → CsvWriter
open_with sent held n = record {
  out = some (record { held = held; err = none });
  sent = sent;
  n = n;
  err = none;
}

pub pour-splits : (k : ℕ) (xs : List ℕ) → (pour k xs).0 ++ (pour k xs).1 ≡ xs
unfolding pour
pour-splits zero xs = refl
pour-splits (suc k) [] = refl
pour-splits (suc k) (x ∷ xs) = ap (λ ys. x ∷ ys) (pour-splits k xs)

-- What a destination has beyond those characters: what is saved, and a part of the rest of the text.
pub record IsKept (sent saved text got : List ℕ) : Type 0 where
  pub part : List ℕ
  pub lost : List ℕ
  pub reached : got ≡ sent ++ (saved ++ part)
  pub within : (saved ++ part) ++ lost ≡ text

-- Characters that were passed on first, and are saved too.
IsKept-first :
    (sent p saved text got : List ℕ)
    → IsKept (sent ++ p) saved text got
    → IsKept sent (p ++ saved) (p ++ text) got
IsKept-first sent p saved text got h = record {
  part = h.part;
  lost = h.lost;
  reached =
      h.reached
      ∙ append_assoc sent p (saved ++ h.part)
      ∙ ap (λ l. sent ++ l) (sym (append_assoc p saved h.part));
  within =
      ap (λ l. l ++ h.lost) (append_assoc p saved h.part)
      ∙ append_assoc p (saved ++ h.part) h.lost
      ∙ ap (λ l. p ++ l) h.within;
}

-- Characters that were passed on first, with nothing saved.
IsKept-part :
    (sent p text got : List ℕ) → IsKept (sent ++ p) [] text got → IsKept sent [] (p ++ text) got
IsKept-part sent p text got h = record {
  part = p ++ h.part;
  lost = h.lost;
  reached = h.reached ∙ append_assoc sent p h.part;
  within = append_assoc p h.part h.lost ∙ ap (λ l. p ++ l) h.within;
}

-- A write and the flush after it, without an error, pass all characters on.
pub passed_whole :
    (k : ℕ) (sent xs : List ℕ) → (sent ++ (pour k xs).0) ++ (pour k xs).1 ≡ sent ++ xs
passed_whole k sent xs =
    append_assoc sent (pour k xs).0 (pour k xs).1 ∙ ap (λ l. sent ++ l) (pour-splits k xs)

-- A call that fails leaves a part of what the buffer held with the destination.
pub failed-IsKept : (k : ℕ) (sent xs : List ℕ) → IsKept sent [] xs (sent ++ (pour k xs).0)
failed-IsKept k sent xs = record {
  part = (pour k xs).0;
  lost = (pour k xs).1;
  reached = refl;
  within = pour-splits k xs;
}

regrouped :
    (k : ℕ) (sent held line off : List ℕ)
    → (sent ++ (pour k (held ++ line)).0) ++ ((pour k (held ++ line)).1 ++ off)
      ≡ sent ++ (held ++ (line ++ off))
regrouped k sent held line off =
    let p = (pour k (held ++ line)).0 in
    let q = (pour k (held ++ line)).1 in
    append_assoc sent p (q ++ off)
    ∙ ap (λ l. sent ++ l)
        (sym (append_assoc p q off)
          ∙ ap (λ l. l ++ off) (pour-splits k (held ++ line))
          ∙ append_assoc held line off)

module _ {F : Type 0} ⦃f : Float F⦄ ⦃format : Format F⦄ where
  unfoldable pub perform : Call F → Io → CsvWriter → Result
  unfolding write_interval flush
  perform (writes r) io c = write_interval io r c
  perform flushes io c = flush io c

  -- Calls and how they go, and the errors that they return.
  unfoldable pub session :
      List (Call F × Io) → CsvWriter → Option (List (Option String) × CsvWriter)
  unfolding perform followed
  session [] c = some ([], c)
  session ((call, io) ∷ calls) c = elim (perform call io c) [
    | none ↦ none
    | some r ↦ followed r.0 (session calls r.1)
  ]

  -- Every call from the first fault on returns that fault.
  unfoldable pub answers : List (Call F × Io) → List (Option String)
  unfolding repeat
  answers [] = []
  answers ((call, goes k) ∷ calls) = none ∷ answers calls
  answers ((call, breaks k e) ∷ calls) = some e ∷ repeat (length calls) (some e)

  unfoldable pub first_fault : List (Call F × Io) → Option String
  first_fault [] = none
  first_fault ((call, goes k) ∷ calls) = first_fault calls
  first_fault ((call, breaks k e) ∷ calls) = some e

  -- The text of the rows up to the first fault, with the row of a write that fails.
  unfoldable pub offered : List (Call F × Io) → List ℕ
  unfolding cells_of line_of codes
  offered [] = []
  offered ((writes r, goes k) ∷ calls) = codes (line_of (cells_of r)) ++ offered calls
  offered ((writes r, breaks k e) ∷ calls) = codes (line_of (cells_of r))
  offered ((flushes, goes k) ∷ calls) = offered calls
  offered ((flushes, breaks k e) ∷ calls) = []

  -- The text that was held, and that of the rows, in front of the last flush before the first fault.
  unfoldable pub saved : List ℕ → List (Call F × Io) → List ℕ
  unfolding cells_of line_of codes
  saved held [] = []
  saved held ((writes r, goes k) ∷ calls) = saved (held ++ codes (line_of (cells_of r))) calls
  saved held ((flushes, goes k) ∷ calls) = held ++ saved [] calls
  saved held ((call, breaks k e) ∷ calls) = []

  -- The number of rows that are written before the first fault.
  unfoldable pub rows_before : List (Call F × Io) → ℕ
  rows_before [] = 0
  rows_before ((writes r, goes k) ∷ calls) = suc (rows_before calls)
  rows_before ((flushes, goes k) ∷ calls) = rows_before calls
  rows_before ((call, breaks k e) ∷ calls) = 0

  saved-moves :
      (p h : List ℕ) (calls : List (Call F × Io))
      → (saved (p ++ h) calls ≡ p ++ saved h calls)
        ⊎ ((saved (p ++ h) calls ≡ []) × (saved h calls ≡ []))
  unfolding saved
  saved-moves p h [] = inr (refl, refl)
  saved-moves p h ((writes r, goes k) ∷ calls) =
      rw (append_assoc p h (codes (line_of (cells_of r))))
        (saved-moves p (h ++ codes (line_of (cells_of r))) calls)
  saved-moves p h ((flushes, goes k) ∷ calls) = inl (append_assoc p h (saved [] calls))
  saved-moves p h ((writes r, breaks k e) ∷ calls) = inr (refl, refl)
  saved-moves p h ((flushes, breaks k e) ∷ calls) = inr (refl, refl)

  failed :
      (calls : List (Call F × Io)) (out : Option Bufio) (sent : List ℕ) (n : ℕ) (e : String)
      → session calls (record { out = out; sent = sent; n = n; err = some e })
        ≡ some
            (repeat (length calls) (some e), record { out = out; sent = sent; n = n; err = some e })
  unfolding session repeat perform write_interval flush followed
  failed [] out sent n e = refl
  failed ((writes r, io) ∷ calls) out sent n e = rw (session, failed calls out sent n e) refl
  failed ((flushes, io) ∷ calls) out sent n e = rw (session, failed calls out sent n e) refl

  -- What a session leaves behind, closed or not.
  pub record IsWritten (calls : List (Call F × Io)) (sent held : List ℕ) (n : ℕ) (c : CsvWriter)
      : Type 0 where
    pub kept : IsKept sent (saved held calls) (held ++ offered calls) c.sent
    pub closing : (io : Io) → (close io c).0 ≡ first_fault (calls ++ (flushes, io) ∷ [])
    pub complete :
        (k : ℕ)
        → first_fault calls ≡ none
        → (close (goes k) c).1.sent ≡ sent ++ (held ++ offered calls)
    pub count : c.n ≡ n + rows_before calls

  -- A write that passes some characters on: what follows keeps what it would have kept without.
  written-IsKept :
      (calls : List (Call F × Io)) (k : ℕ) (sent held line off got : List ℕ)
      → IsKept
          (sent ++ (pour k (held ++ line)).0)
          (saved (pour k (held ++ line)).1 calls)
          ((pour k (held ++ line)).1 ++ off)
          got
      → IsKept sent (saved (held ++ line) calls) (held ++ (line ++ off)) got
  written-IsKept calls k sent held line off got h =
      let p = (pour k (held ++ line)).0 in
      let q = (pour k (held ++ line)).1 in
      let whole : p ++ q ≡ held ++ line = pour-splits k (held ++ line) in
      let text : p ++ (q ++ off) ≡ held ++ (line ++ off) =
        sym (append_assoc p q off) ∙ ap (λ l. l ++ off) whole ∙ append_assoc held line off in
      let moved : IsKept sent (saved (p ++ q) calls) (p ++ (q ++ off)) got =
        elim (saved-moves p q calls) [
          | inl e ↦ rw e (IsKept-first sent p (saved q calls) (q ++ off) got h)
          | inr (e, e') ↦ rw e (IsKept-part sent p (q ++ off) got (rw e' at h))
        ] in
      subst (λ t. IsKept sent (saved (held ++ line) calls) t got) text
        (subst (λ l. IsKept sent (saved l calls) (p ++ (q ++ off)) got) whole moved)

  session-open :
      (calls : List (Call F × Io)) (sent held : List ℕ) (n : ℕ)
      → (c : CsvWriter) × (session calls (open_with sent held n) ≡ some (answers calls, c))
        × IsWritten calls sent held n c
  unfolding session answers rows_before first_fault offered saved perform write_interval flush
      followed retain write_string flush_bufio passing close
  session-open [] sent held n = (
    open_with sent held n,
    refl,
    record {
      kept = record {
        part = [];
        lost = held;
        reached = sym (append-nil sent);
        within = sym (append-nil held);
      };
      closing = λ io.
          elim io as (λ x. (close x (open_with sent held n)).0 ≡ first_fault ((flushes, x) ∷ [])) [
            | goes k ↦ refl
            | breaks k e ↦ refl
          ];
      complete = λ k e. ap (λ l. sent ++ l) (sym (append-nil held));
      count = omega arith;
    },
  )
  session-open ((writes r, goes k) ∷ calls) sent held n =
      let line = codes (line_of (cells_of r)) in
      let q = pour k (held ++ line) in
      let (c, e, h) = session-open calls (sent ++ q.0) q.1 (suc n) in
      (
        c,
        rw (session, e) refl,
        record {
          kept = written-IsKept calls k sent held line (offered calls) c.sent h.kept;
          closing = h.closing;
          complete =
              λ j none_left. h.complete j none_left ∙ regrouped k sent held line (offered calls);
          count = omega (arith, h.count);
        },
      )
  session-open ((flushes, goes k) ∷ calls) sent held n =
      let (c, e, h) = session-open calls (sent ++ held) [] n in
      (
        c,
        rw (session, e) refl,
        record {
          kept = IsKept-first sent held (saved [] calls) (offered calls) c.sent h.kept;
          closing = h.closing;
          complete = λ j none_left. h.complete j none_left ∙ append_assoc sent held (offered calls);
          count = h.count;
        },
      )
  session-open ((writes r, breaks k e) ∷ calls) sent held n =
      let line = codes (line_of (cells_of r)) in
      let q = pour k (held ++ line) in
      (
        record {
          out = some (record { held = q.1; err = some e });
          sent = sent ++ q.0;
          n = n;
          err = some e;
        },
        rw (session, failed calls (some (record { held = q.1; err = some e })) (sent ++ q.0) n e)
            refl,
        record {
          kept = failed-IsKept k sent (held ++ line);
          closing = λ io. refl;
          complete = λ j none_left. cc;
          count = omega arith;
        },
      )
  session-open ((flushes, breaks k e) ∷ calls) sent held n =
      let q = pour k held in
      (
        record {
          out = some (record { held = q.1; err = some e });
          sent = sent ++ q.0;
          n = n;
          err = some e;
        },
        rw (session, failed calls (some (record { held = q.1; err = some e })) (sent ++ q.0) n e)
            refl,
        record {
          kept = rw (append-nil held) (failed-IsKept k sent held);
          closing = λ io. refl;
          complete = λ j none_left. cc;
          count = omega arith;
        },
      )

  -- A CSV writer whose header was written answers each write and flush without an error up to the
  -- first that fails, and each from then on with that error. Its destination has got the header,
  -- then all rows in front of the last flush before the first fault, and beyond them no more than
  -- a beginning of the rows that were written since, a row whose write failed included; the writer
  -- counts the rows before the first fault. Its close returns the first error, the one of its own
  -- flush if there was none before; and if there was none at all, the destination has the header
  -- and all rows.
  pub session-IsWritten :
      (j k : ℕ) (calls : List (Call F × Io))
      → (c : CsvWriter) × (end : CsvWriter) × (new_csv_writer (goes j) (goes k) ≡ some (inr c))
        × (session calls c ≡ some (answers calls, end))
        × IsWritten calls (codes (line_of csv_columns)) [] 0 end
  unfolding new_csv_writer write_header flush retain write_string flush_bufio passing
  session-IsWritten j k calls =
      let header = codes (line_of csv_columns) in
      let (end, e, h) = session-open calls header [] 0 in
      (
        open_with header [] 0,
        end,
        ap (λ l. some (inr (open_with l [] 0))) (pour-splits j header),
        e,
        h,
      )
