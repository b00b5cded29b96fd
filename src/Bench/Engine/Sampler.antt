-- ===== src/Bench/Engine/Sampler.antt =====
-- The goroutine of Run in internal/bench/engine.go that samples a window at each tick and one at the
-- end, and writes them to the CSV. A turn is one that it takes, or a call of a worker in between.
pub mod Faults
pub mod Windows
use golang_mq.Base.{ℕ, Bool, true, false, Option, none, some, List, [], ◌∷◌, String, if◌then◌else◌}
use golang_mq.Bench.Float.{Float}
use golang_mq.Bench.Counters.{Stats}
use golang_mq.Bench.Csv.{Format, Io, CsvWriter, write_interval, flush}
use golang_mq.Bench.Stats.{sample_window}
use golang_mq.Bench.Stats.Runs.{Event, step}

-- A tick has its time, and how the write of the row and the flush go.
pub data Turn (F : Type 0) : Type 0 where
  works : Event F → Turn F
  ticks : ℕ → Io → Io → Turn F

-- What the goroutine uses; `returned` is samplerDone.
pub record Sampler (F : Type 0) : Type 0 where
  pub window_start : ℕ
  pub stats : Stats F
  pub csv : CsvWriter
  pub returned : Bool

module _ {F : Type 0} ⦃f : Float F⦄ ⦃format : Format F⦄ where
  -- writeWindow: the error that it returns; `none` is a panic.
  unfoldable pub write_window : ℕ → Io → Io → Sampler F → Option (Option String × Sampler F)
  unfolding sample_window write_interval flush
  write_window now io io' s =
      let r = sample_window s.window_start now s.stats in
      elim (write_interval io r.0 s.csv) [
        | none ↦ none
        | some (some e, c) ↦ some (some e, record s { stats = r.1; csv = c })
        | some (none, c) ↦ elim (flush io' c) [
          | none ↦ none
          | some (some e, d) ↦ some (some e, record s { stats = r.1; csv = d })
          | some (none, d) ↦ some (none, record s { window_start = now; stats = r.1; csv = d })
        ]
      ]

  -- case <-sctx.Done(): the last window, whose errors are dropped.
  unfoldable pub last_window : ℕ → Io → Io → Sampler F → Option (Sampler F)
  unfolding sample_window write_interval flush
  last_window now io io' s =
      let r = sample_window s.window_start now s.stats in
      elim (write_interval io r.0 s.csv) [
        | none ↦ none
        | some (x, c) ↦ elim (flush io' c) [
          | none ↦ none
          | some (y, d) ↦ some (record s { stats = r.1; csv = d; returned = true })
        ]
      ]

  -- A tick ends the loop if its window could not be written.
  unfoldable pub tick : ℕ → Io → Io → Sampler F → Option (Sampler F)
  unfolding write_window
  tick now io io' s = elim (write_window now io io' s) [
    | none ↦ none
    | some (some e, s') ↦ some (record s' { returned = true })
    | some (none, s') ↦ some s'
  ]

  unfoldable pub take_turn : Turn F → Sampler F → Option (Sampler F)
  unfolding tick step
  take_turn (works e) s = elim (step e s.stats) [
    | none ↦ none
    | some r ↦ some (record s { stats = r.1 })
  ]
  take_turn (ticks now io io') s = if s.returned then some s else tick now io io' s

  -- The turns until sctx is done, and then the last window, with its time and how its calls go.
  unfoldable pub sample_all : List (Turn F) → ℕ → Io → Io → Sampler F → Option (Sampler F)
  unfolding take_turn last_window
  sample_all [] now io io' s = if s.returned then some s else last_window now io io' s
  sample_all (t ∷ ts) now io io' s = elim (take_turn t s) [
    | none ↦ none
    | some s' ↦ sample_all ts now io io' s'
  ]
