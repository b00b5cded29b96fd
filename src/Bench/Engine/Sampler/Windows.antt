-- ===== src/Bench/Engine/Sampler/Windows.antt =====
-- What the sampler of Run in internal/bench/engine.go writes, against the runs of record calls.
use golang_mq.Base.{
  ℕ, suc, ◌+◌, ◌≡◌, refl, ap, ap₂, sym, ◌∙◌, true, false, Option, Option-cases, none, some, inl,
  inr, List, [], ◌∷◌, ◌++◌, All, length, arith,
}
use mathlib.Core.List.{append_assoc, append-nil}
use golang_mq.Bench.Float.{Float}
use golang_mq.Bench.Counters.{Stats, IntervalRecord}
use golang_mq.Bench.Csv.{
  Format, goes, breaks, line_of, cells_of, passing, write_interval, flush, retain, write_string,
  flush_bufio,
}
use golang_mq.Json.{codes}
use golang_mq.Bench.Csv.Sessions.{open_with, passed_whole}
use golang_mq.Bench.Stats.{
  sample_window, record_publish, record_deliver, record_ack, begin_measured,
}
use golang_mq.Bench.Stats.Ledger.{Log, stats_of}
use golang_mq.Bench.Stats.Runs.{
  Event, publishes, delivers, acks, begins_measured, samples, IsPlaced, step, run, no_row,
  after_rows, log_of, rows_along, run-stats,
}
use golang_mq.Bench.Engine.Sampler.{
  Turn, works, ticks, Sampler, sample_all, take_turn, tick, write_window, last_window,
}

-- A turn of a worker is no sample, and a tick has no fault.
unfoldable pub IsCalm : {F : Type 0} → Turn F → Type 0
IsCalm (works (samples ts end)) = ⊥
IsCalm (works (publishes sl seq v)) = Unit
IsCalm (works (delivers sl seq v dup)) = Unit
IsCalm (works (acks seq v)) = Unit
IsCalm (works (begins_measured seq)) = Unit
IsCalm (ticks now (goes j) (goes k)) = Unit
IsCalm (ticks now (goes j) (breaks k e)) = ⊥
IsCalm (ticks now (breaks j e) io') = ⊥

-- The calls of the statistics that the turns come to: each window begins where the one before it
-- ended.
unfoldable pub events : {F : Type 0} → ℕ → List (Turn F) → ℕ → List (Event F)
events start [] stop = samples start stop ∷ []
events start (works e ∷ ts) stop = e ∷ events start ts stop
events start (ticks now io io' ∷ ts) stop = samples start now ∷ events now ts stop

-- When the last window begins.
unfoldable pub last_start : {F : Type 0} → ℕ → List (Turn F) → ℕ
last_start start [] = start
last_start start (works e ∷ ts) = last_start start ts
last_start start (ticks now io io' ∷ ts) = last_start now ts

module _ {F : Type 0} ⦃f : Float F⦄ ⦃format : Format F⦄ where
  unfoldable pub lines : List (IntervalRecord F) → List ℕ
  unfolding line_of cells_of codes
  lines [] = []
  lines (r ∷ rs) = codes (line_of (cells_of r)) ++ lines rs

  -- The sampler that has returned, whose destination has got the rows of a run after those
  -- characters, and which holds no more.
  unfoldable pub written :
      List ℕ → ℕ → ℕ → Option (List (IntervalRecord F) × Stats F) → Option (Sampler F)
  unfolding lines
  written text n start none = none
  written text n start (some (rows, s)) = some (record {
    window_start = start;
    stats = s;
    csv = open_with (text ++ lines rows) [] (n + length rows);
    returned = true;
  })

  written-after :
      (text : List ℕ) (n start : ℕ) (r : IntervalRecord F)
      (x : Option (List (IntervalRecord F) × Stats F))
      → written (text ++ codes (line_of (cells_of r))) (suc n) start x
        ≡ written text n start (after_rows (r ∷ []) x)
  unfolding written after_rows
  written-after text n start r none = refl
  written-after text n start r (some (rows, s)) =
      ap₂
        (λ t k.
          some
            (record { window_start = start; stats = s; csv = open_with t [] k; returned = true }))
        (append_assoc text (codes (line_of (cells_of r))) (lines rows)) (omega arith)

  after_no-rows : (x : Option (List (IntervalRecord F) × Stats F)) → after_rows [] x ≡ x
  unfolding after_rows
  after_no-rows none = refl
  after_no-rows (some r) = refl

  -- A call of a worker makes no row.
  step_of_work :
      (e : Event F) (s : Stats F)
      → IsCalm (works e)
      → (x : Option (Stats F)) × (step e s ≡ no_row x)
  unfolding step no_row IsCalm
  step_of_work (publishes sl seq v) s h = (record_publish sl seq v s, refl)
  step_of_work (delivers sl seq v dup) s h = (record_deliver sl seq v dup s, refl)
  step_of_work (acks seq v) s h = (some (record_ack seq v s), refl)
  step_of_work (begins_measured seq) s h = (some (begin_measured seq s), refl)
  step_of_work (samples ts end) s h = absurd h

  calm_turns :
      (ts : List (Turn F)) (stop start j k n : ℕ) (text : List ℕ) (s : Stats F)
      → All IsCalm ts
      → sample_all ts stop
          (goes j)
          (goes k)
          (record { window_start = start; stats = s; csv = open_with text [] n; returned = false })
        ≡ written text n (last_start start ts) (run (events start ts stop) s)
  unfolding sample_all take_turn tick write_window last_window last_start run step no_row after_rows
      events IsCalm written lines write_interval flush retain write_string flush_bufio passing
  calm_turns [] stop start j k n text s h =
      let r = sample_window start stop s in
      let line = codes (line_of (cells_of r.0)) in
      ap₂
        (λ t m.
          some
            (record { window_start = start; stats = r.1; csv = open_with t [] m; returned = true }))
        (passed_whole j text line ∙ ap (λ l. text ++ l) (sym (append-nil line))) (omega arith)
  calm_turns (ticks now (goes i) (goes i') ∷ ts) stop start j k n text s h =
      let r = sample_window start now s in
      let line = codes (line_of (cells_of r.0)) in
      ap
        (λ t. sample_all ts stop (goes j) (goes k) (record {
          window_start = now;
          stats = r.1;
          csv = open_with t [] (suc n);
          returned = false;
        }))
        (passed_whole i text line)
      ∙ calm_turns ts stop now j k (suc n) (text ++ line) r.1 h.1
      ∙ written-after text n (last_start now ts) r.0 (run (events now ts stop) r.1)
  calm_turns (ticks now (goes i) (breaks i' e) ∷ ts) stop start j k n text s h = absurd h.0
  calm_turns (ticks now (breaks i e) io' ∷ ts) stop start j k n text s h = absurd h.0
  calm_turns (works e ∷ ts) stop start j k n text s h =
      let (x, q) = step_of_work e s h.0 in
      elim (Option-cases x) [
        | inl none_left ↦ rw (sample_all, take_turn, run, q, none_left) refl
        | inr (s', moved) ↦
            rw (sample_all, take_turn, run, q, moved)
              (calm_turns ts stop start j k n text s' h.1
                ∙ ap (written text n (last_start start ts))
                    (sym (after_no-rows (run (events start ts stop) s'))))
      ]

  module _ (conns capable total : ℕ) where
    -- If no write of the CSV fails, then however the workers record on the slots of the topology
    -- between the ticks, the goroutine returns without a panic; it has written one row for each
    -- window, in order, to the destination, after what it had, and counted them; the windows are
    -- those between one tick and the next, the first from the start and the last to the end; and
    -- each row is that of the log of what was recorded at the time.
    pub sample_all-rows_along :
        (ts : List (Turn F)) (stop start j k n : ℕ) (text : List ℕ) (l : Log F)
        → All IsCalm ts
        → All (IsPlaced conns capable) (events start ts stop)
        → sample_all ts stop (goes j) (goes k) (record {
          window_start = start;
          stats = stats_of conns capable total l;
          csv = open_with text [] n;
          returned = false;
        })
          ≡ written text n (last_start start ts) (
              some (
                rows_along conns capable total (events start ts stop) l,
                stats_of conns capable total (log_of (events start ts stop) l),
              ))
    sample_all-rows_along ts stop start j k n text l calm placed =
        calm_turns ts stop start j k n text (stats_of conns capable total l) calm
        ∙ ap (written text n (last_start start ts))
            (run-stats conns capable total (events start ts stop) l placed)
