-- ===== src/Bench/Engine/Sampler/Faults.antt =====
-- What the sampler of Run in internal/bench/engine.go has written when a write of the CSV fails.
use golang_mq.Base.{
  ℕ, suc, ◌≤◌, arith, ◌≡◌, refl, ap, sym, subst, Bool, ◌∙◌, true, false, some, List, [], ◌∷◌, ◌++◌,
  length, All,
}
use mathlib.Core.List.{append_assoc, append-nil}
use golang_mq.Bench.Float.{Float}
use golang_mq.Bench.Counters.{IntervalRecord}
use golang_mq.Bench.Csv.{
  Format, Io, goes, breaks, CsvWriter, line_of, cells_of, pour, passing, write_interval, flush,
  retain, write_string, flush_bufio,
}
use golang_mq.Json.{codes}
use golang_mq.Bench.Csv.Sessions.{open_with, pour-splits, passed_whole}
use golang_mq.Bench.Stats.{sample_window}
use golang_mq.Bench.Stats.Ledger.{Log, stats_of, sample_log}
use golang_mq.Bench.Stats.Refines.{sample_window-stats}
use golang_mq.Bench.Stats.Runs.{
  Event, publishes, delivers, acks, begins_measured, samples, IsPlaced, log_event, rows_of,
  rows_along, step-stats,
}
use golang_mq.Bench.Engine.Sampler.{
  Turn, works, ticks, Sampler, sample_all, take_turn, tick, write_window, last_window,
}
use golang_mq.Bench.Engine.Sampler.Windows.{events, lines}

-- A turn of a worker is no sample.
unfoldable pub IsWork : {F : Type 0} → Turn F → Type 0
IsWork (works (samples ts end)) = ⊥
IsWork (works (publishes sl seq v)) = Unit
IsWork (works (delivers sl seq v dup)) = Unit
IsWork (works (acks seq v)) = Unit
IsWork (works (begins_measured seq)) = Unit
IsWork (ticks now io io') = Unit

-- How many windows have their row in the destination: those before the first fault. The last arguments
-- are how the calls for the last row go.
unfoldable pub accepted : {F : Type 0} → List (Turn F) → Io → Io → ℕ
accepted [] (goes j) (goes k) = 1
accepted [] (goes j) (breaks k e) = 0
accepted [] (breaks j e) io' = 0
accepted (works e ∷ ts) io io' = accepted ts io io'
accepted (ticks now (goes j) (goes k) ∷ ts) io io' = suc (accepted ts io io')
accepted (ticks now (goes j) (breaks k e) ∷ ts) io io' = 0
accepted (ticks now (breaks j e) i' ∷ ts) io io' = 0

-- What a write passed on, and then a flush that failed, are a beginning of the characters.
begun :
    (j k : ℕ) (xs : List ℕ)
    → ((pour j xs).0 ++ (pour k (pour j xs).1).0) ++ (pour k (pour j xs).1).1 ≡ xs
begun j k xs =
    append_assoc (pour j xs).0 (pour k (pour j xs).1).0 (pour k (pour j xs).1).1
    ∙ ap (λ l. (pour j xs).0 ++ l) (pour-splits k (pour j xs).1)
    ∙ pour-splits j xs

module _ {F : Type 0} ⦃f : Float F⦄ ⦃format : Format F⦄ where
  module _ (conns capable total : ℕ) where
    -- The sampler has returned; its destination has got the first `k` of the rows, and beyond them no
    -- more than a beginning of the next.
    pub record IsPartly (k : ℕ) (rows : List (IntervalRecord F)) (text : List ℕ) (end : Sampler F)
        : Type 0 where
      pub returned : end.returned ≡ true
      pub done : List (IntervalRecord F)
      pub next : List (IntervalRecord F)
      pub rest : List (IntervalRecord F)
      pub part : List ℕ
      pub lost : List ℕ
      pub count : length done ≡ k
      pub reached : end.csv.sent ≡ text ++ (lines done ++ part)
      pub begins : part ++ lost ≡ lines next
      pub at_most_one : length next ≤ 1
      pub parts : done ++ (next ++ rest) ≡ rows

    row-work : (e : Event F) (l : Log F) → IsWork (works e) → rows_of conns capable total e l ≡ []
    unfolding rows_of IsWork
    row-work (publishes sl seq v) l h = refl
    row-work (delivers sl seq v dup) l h = refl
    row-work (acks seq v) l h = refl
    row-work (begins_measured seq) l h = refl
    row-work (samples ts end) l h = absurd h

    -- Once it has returned, the workers go on without it.
    idle :
        (ts : List (Turn F)) (stop start w : ℕ) (io io' : Io) (c : CsvWriter) (l : Log F)
        → All (IsPlaced conns capable) (events start ts stop)
        → (end : Sampler F) × (sample_all ts stop io io' (record {
          window_start = w;
          stats = stats_of conns capable total l;
          csv = c;
          returned = true;
        })
            ≡ some end)
          × (end.returned ≡ true)
          × (end.csv ≡ c)
    unfolding sample_all take_turn events
    idle [] stop start w io io' c l h = (_, refl, refl, refl)
    idle (ticks now x y ∷ ts) stop start w io io' c l h = idle ts stop now w io io' c l h.1
    idle (works e ∷ ts) stop start w io io' c l h =
        let (end, q, a, b) = idle ts stop start w io io' c (log_event e l) h.1 in
        (end, rw (sample_all, take_turn, step-stats conns capable total e l h.0) q, a, b)

    -- The sampler that goes on after a window, whose statistics are those of the log.
    after_window :
        (ts : List (Turn F)) (stop w w' now : ℕ) (io io' : Io) (c : CsvWriter) (r : Bool)
        (l : Log F) (end : Sampler F)
        → sample_all ts stop io io' (record {
          window_start = w';
          stats = stats_of conns capable total (sample_log l);
          csv = c;
          returned = r;
        })
          ≡ some end
        → sample_all ts stop io io' (record {
          window_start = w';
          stats = (sample_window w now (stats_of conns capable total l)).1;
          csv = c;
          returned = r;
        })
          ≡ some end
    after_window ts stop w w' now io io' c r l end q =
        subst
          (λ s.
            sample_all ts stop io io'
              (record { window_start = w'; stats = s; csv = c; returned = r })
            ≡ some end)
          (sym (sample_window-stats conns capable total w now l)) q

    -- Whichever writes and flushes of the CSV fail, however much of the text the destination gets
    -- in each, and however the workers record on the slots of the topology between the ticks, the
    -- goroutine returns without a panic, and the destination has got, after what it had, the rows
    -- of the windows before the first fault, as a run without faults has them, and beyond them no
    -- more than a beginning of the row of the window of that fault.
    pub sample_all-IsPartly :
        (ts : List (Turn F)) (stop start n : ℕ) (io io' : Io) (text : List ℕ) (l : Log F)
        → All IsWork ts
        → All (IsPlaced conns capable) (events start ts stop)
        → (end : Sampler F) × (sample_all ts stop io io' (record {
          window_start = start;
          stats = stats_of conns capable total l;
          csv = open_with text [] n;
          returned = false;
        })
            ≡ some end)
          × IsPartly
              (accepted ts io io')
              (rows_along conns capable total (events start ts stop) l)
              text
              end
    unfolding sample_all take_turn tick write_window last_window write_interval flush retain
        write_string flush_bufio passing events lines rows_along rows_of log_event accepted
    sample_all-IsPartly [] stop start n (goes j) (goes k) text l work h =
        let r = (sample_window start stop (stats_of conns capable total l)).0 in
        let line = codes (line_of (cells_of r)) in
        (
          _,
          refl,
          record {
            returned = refl;
            done = r ∷ [];
            next = [];
            rest = [];
            part = [];
            lost = [];
            count = refl;
            reached =
                passed_whole j text line
                ∙ ap (λ x. text ++ x) (sym (append-nil line) ∙ sym (append-nil (line ++ [])));
            begins = refl;
            at_most_one = omega arith;
            parts = refl;
          },
        )
    sample_all-IsPartly [] stop start n (goes j) (breaks k e) text l work h =
        let r = (sample_window start stop (stats_of conns capable total l)).0 in
        let line = codes (line_of (cells_of r)) in
        (
          _,
          refl,
          record {
            returned = refl;
            done = [];
            next = r ∷ [];
            rest = [];
            part = (pour j line).0 ++ (pour k (pour j line).1).0;
            lost = (pour k (pour j line).1).1;
            count = refl;
            reached = append_assoc text (pour j line).0 (pour k (pour j line).1).0;
            begins = begun j k line ∙ sym (append-nil line);
            at_most_one = omega arith;
            parts = refl;
          },
        )
    sample_all-IsPartly [] stop start n (breaks j e) io' text l work h =
        let r = (sample_window start stop (stats_of conns capable total l)).0 in
        let line = codes (line_of (cells_of r)) in
        (
          _,
          refl,
          record {
            returned = refl;
            done = [];
            next = r ∷ [];
            rest = [];
            part = (pour j line).0;
            lost = (pour j line).1;
            count = refl;
            reached = refl;
            begins = pour-splits j line ∙ sym (append-nil line);
            at_most_one = omega arith;
            parts = refl;
          },
        )
    sample_all-IsPartly (ticks now (goes j) (goes k) ∷ ts) stop start n io io' text l work h =
        let r = (sample_window start now (stats_of conns capable total l)).0 in
        let line = codes (line_of (cells_of r)) in
        let (end, q, p) =
          sample_all-IsPartly ts stop now (suc n) io io' (text ++ line) (sample_log l) work.1 h.1 in
        (
          end,
          after_window ts stop start now now io io'
              (open_with ((text ++ (pour j line).0) ++ (pour j line).1) [] (suc n)) false l end
              (subst
                (λ t.
                  sample_all ts stop io io' (record {
                    window_start = now;
                    stats = stats_of conns capable total (sample_log l);
                    csv = open_with t [] (suc n);
                    returned = false;
                  })
                  ≡ some end)
                (sym (passed_whole j text line)) q),
          record {
            returned = p.returned;
            done = r ∷ p.done;
            next = p.next;
            rest = p.rest;
            part = p.part;
            lost = p.lost;
            count = ap suc p.count;
            reached =
                p.reached
                ∙ append_assoc text line (lines p.done ++ p.part)
                ∙ ap (λ x. text ++ x) (sym (append_assoc line (lines p.done) p.part));
            begins = p.begins;
            at_most_one = p.at_most_one;
            parts = ap (λ rows. r ∷ rows) p.parts;
          },
        )
    sample_all-IsPartly (ticks now (goes j) (breaks k e) ∷ ts) stop start n io io' text l work h =
        let r = (sample_window start now (stats_of conns capable total l)).0 in
        let line = codes (line_of (cells_of r)) in
        let q = pour k (pour j line).1 in
        let c : CsvWriter = record {
          out = some (record { held = q.1; err = some e });
          sent = (text ++ (pour j line).0) ++ q.0;
          n = suc n;
          err = some e;
        } in
        let (end, went, a, b) = idle ts stop now start io io' c (sample_log l) h.1 in
        (
          end,
          after_window ts stop start start now io io' c true l end went,
          record {
            returned = a;
            done = [];
            next = r ∷ [];
            rest = rows_along conns capable total (events now ts stop) (sample_log l);
            part = (pour j line).0 ++ q.0;
            lost = q.1;
            count = refl;
            reached = ap (λ x. x.sent) b ∙ append_assoc text (pour j line).0 q.0;
            begins = begun j k line ∙ sym (append-nil line);
            at_most_one = omega arith;
            parts = refl;
          },
        )
    sample_all-IsPartly (ticks now (breaks j e) y ∷ ts) stop start n io io' text l work h =
        let r = (sample_window start now (stats_of conns capable total l)).0 in
        let line = codes (line_of (cells_of r)) in
        let q = pour j line in
        let c : CsvWriter = record {
          out = some (record { held = q.1; err = some e });
          sent = text ++ q.0;
          n = n;
          err = some e;
        } in
        let (end, went, a, b) = idle ts stop now start io io' c (sample_log l) h.1 in
        (
          end,
          after_window ts stop start start now io io' c true l end went,
          record {
            returned = a;
            done = [];
            next = r ∷ [];
            rest = rows_along conns capable total (events now ts stop) (sample_log l);
            part = q.0;
            lost = q.1;
            count = refl;
            reached = ap (λ x. x.sent) b;
            begins = pour-splits j line ∙ sym (append-nil line);
            at_most_one = omega arith;
            parts = refl;
          },
        )
    sample_all-IsPartly (works e ∷ ts) stop start n io io' text l work h =
        let (end, q, p) =
          sample_all-IsPartly ts stop start n io io' text (log_event e l) work.1 h.1 in
        (
          end,
          rw (sample_all, take_turn, step-stats conns capable total e l h.0) q,
          record {
            returned = p.returned;
            done = p.done;
            next = p.next;
            rest = p.rest;
            part = p.part;
            lost = p.lost;
            count = p.count;
            reached = p.reached;
            begins = p.begins;
            at_most_one = p.at_most_one;
            parts = rw (row-work e l work.0) p.parts;
          },
        )
