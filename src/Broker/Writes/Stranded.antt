-- ===== src/Broker/Writes/Stranded.antt =====
-- What becomes of the requests that are buffered in writeCh of broker/connection.go: all are written while
-- writePump runs, and none is answered once it has returned.
use golang_mq.Base.{
  ℕ, ◌≤◌, ◌<◌, ◌≡◌, refl, sym, ◌∙◌, true, false, none, List, [], ◌∷◌, ◌++◌, String, arith,
}
use mathlib.Core.Bool.{true≢false}
use mathlib.Core.List.{append-nil, append_assoc}
use golang_mq.Broker.Writes.{
  Request, Answer, Pump, new_pump, put, refuse, shutdown, serve, stop, puts, refuses, serves, stops,
  shuts_down, Steps, stays, goes,
}
use golang_mq.Broker.Writes.Accounts.{buffered, answered, steps-IsAccounted, buffered-append}

pub Steps-trans : {p q r : Pump} → Steps p q → Steps q r → Steps p r
Steps-trans first stays = first
Steps-trans first (goes later step) = goes (Steps-trans first later) step

unfoldable pub bytes_of : List Request → List String
bytes_of [] = []
bytes_of (r ∷ rs) = r.bytes ∷ bytes_of rs

-- The answers to requests whose bytes were written.
unfoldable pub written : List Request → List Answer
written [] = []
written (r ∷ rs) = record { id = r.id; error = none } ∷ written rs

-- The requests `rs` are served, one after another.
served :
    (rs : List Request) (p : Pump)
    → p.write_ch ≡ rs
    → p.running ≡ true
    → (q : Pump) × Steps p q
      × (q.write_ch ≡ [])
      × (q.wire ≡ p.wire ++ bytes_of rs)
      × (q.answers ≡ p.answers ++ written rs)
unfolding bytes_of written serve
served [] p e running = (p, stays, e, sym (append-nil p.wire), sym (append-nil p.answers))
served (r ∷ rs) p e running =
    let (q, later, empty, wire, answers) = served rs (serve none r rs p) refl running in
    (
      q,
      Steps-trans (goes stays (serves none r rs running e)) later,
      empty,
      wire ∙ append_assoc p.wire (r.bytes ∷ []) (bytes_of rs),
      answers ∙ append_assoc p.answers (record { id = r.id; error = none } ∷ []) (written rs),
    )

pub writes-all :
    (p : Pump)
    → p.running ≡ true
    → (q : Pump) × Steps p q
      × (q.write_ch ≡ [])
      × (q.wire ≡ p.wire ++ bytes_of p.write_ch)
      × (q.answers ≡ p.answers ++ written p.write_ch)
writes-all p running = served p.write_ch p refl running

-- Once writePump has returned, nothing leaves the buffer.
stays_buffered :
    (i : ℕ) {p q : Pump}
    → p.running ≡ false
    → Steps p q
    → (q.running ≡ false) × (buffered i p.write_ch ≤ buffered i q.write_ch)
unfolding put refuse shutdown stop
stays_buffered i stopped stays = (stopped, omega arith)
stays_buffered i {p} stopped (goes {q} before (puts bytes room)) =
    let (s, h) = stays_buffered i stopped before in
    (
      s,
      omega (arith, h, buffered-append i q.write_ch ((record { id = q.next; bytes = bytes }) ∷ [])),
    )
stays_buffered i stopped (goes before (refuses closed)) = stays_buffered i stopped before
stays_buffered i stopped (goes before (serves e r rest running first)) =
    absurd (true≢false (sym running ∙ (stays_buffered i stopped before).0))
stays_buffered i stopped (goes before (stops running closed)) =
    absurd (true≢false (sym running ∙ (stays_buffered i stopped before).0))
stays_buffered i stopped (goes before shuts_down) = stays_buffered i stopped before

-- Once writePump of a connection has returned, a request that is still buffered is never answered,
-- whatever steps follow: the call of send that made it does not return.
pub never-answered :
    (i : ℕ) {p q : Pump}
    → Steps new_pump p
    → p.running ≡ false
    → 0 < buffered i p.write_ch
    → Steps p q
    → answered i q.answers ≡ 0
never-answered i {p} {q} reached stopped waits later =
    let h = (steps-IsAccounted (Steps-trans reached later)).once i in
    let kept = (stays_buffered i stopped later).1 in ground (arith, h, kept)
