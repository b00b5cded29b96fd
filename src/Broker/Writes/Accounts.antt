-- ===== src/Broker/Writes/Accounts.antt =====
-- Which requests of broker/connection.go are answered: each once, and in the order of the calls.
use golang_mq.Base.{
  ℕ, suc, ◌+◌, ◌≤◌, ◌≡◌, ap, none, some, List, [], ◌∷◌, ◌++◌, length, nat_beq, ltb, arith,
  if◌then◌else◌, length-append,
}
use golang_mq.Broker.Writes.{
  Request, Answer, Pump, new_pump, put, refuse, shutdown, serve, stop, Step, puts, refuses, serves,
  stops, shuts_down, Steps, stays, goes, write_capacity,
}

-- How often a number stands among the requests that are buffered, and among the answers.
unfoldable pub buffered : ℕ → List Request → ℕ
buffered i [] = 0
buffered i (r ∷ rs) = (if nat_beq r.id i then 1 else 0) + buffered i rs

unfoldable pub answered : ℕ → List Answer → ℕ
answered i [] = 0
answered i (a ∷ as') = (if nat_beq a.id i then 1 else 0) + answered i as'

-- Each call of send is buffered or answered, once; a call that is yet to come is neither.
pub record IsAccounted (p : Pump) : Type 0 where
  pub once :
      (i : ℕ) → buffered i p.write_ch + answered i p.answers ≡ (if ltb i p.next then 1 else 0)
  pub room : length p.write_ch ≤ write_capacity

pub buffered-append :
    (i : ℕ) (xs ys : List Request) → buffered i (xs ++ ys) ≡ buffered i xs + buffered i ys
unfolding buffered
buffered-append i [] ys = omega arith
buffered-append i (x ∷ xs) ys = omega (arith, buffered-append i xs ys)

answered-append :
    (i : ℕ) (xs ys : List Answer) → answered i (xs ++ ys) ≡ answered i xs + answered i ys
unfolding answered
answered-append i [] ys = omega arith
answered-append i (x ∷ xs) ys = omega (arith, answered-append i xs ys)

-- The number of a call that is new counts once.
next-once :
    (i n : ℕ)
    → (if ltb i n then 1 else 0) + (if nat_beq n i then 1 else 0) ≡ (if ltb i (suc n) then 1 else 0)
next-once i n = ground arith

step-IsAccounted : {p q : Pump} → IsAccounted p → Step p q → IsAccounted q
unfolding put refuse shutdown serve stop buffered answered
step-IsAccounted {p} h (puts bytes room) = record {
  once = λ i. omega (
    arith,
    h.once i,
    buffered-append i p.write_ch ((record { id = p.next; bytes = bytes }) ∷ []),
    next-once i p.next,
  );
  room =
      omega (arith, length-append p.write_ch ((record { id = p.next; bytes = bytes }) ∷ []), room);
}
step-IsAccounted {p} h (refuses closed) = record {
  once = λ i. omega (
    arith,
    h.once i,
    answered-append i p.answers ((record { id = p.next; error = some "connection closed" }) ∷ []),
    next-once i p.next,
  );
  room = h.room;
}
step-IsAccounted {p} h (serves none r rest running first) = record {
  once = λ i. omega (
    arith,
    h.once i,
    ap (buffered i) first,
    answered-append i p.answers ((record { id = r.id; error = none }) ∷ []),
  );
  room = omega (arith, h.room, ap length first);
}
step-IsAccounted {p} h (serves (some e) r rest running first) = record {
  once = λ i. omega (
    arith,
    h.once i,
    ap (buffered i) first,
    answered-append i p.answers ((record { id = r.id; error = some e }) ∷ []),
  );
  room = omega (arith, h.room, ap length first);
}
step-IsAccounted h (stops running closed) = record { once = h.once; room = h.room }
step-IsAccounted h shuts_down = record { once = h.once; room = h.room }

-- However the calls of send, the turns of writePump, write errors and shutdowns of one connection
-- interleave, each call of send that was made is buffered or answered, exactly once, no other is,
-- and the buffer holds at most 64 requests.
pub steps-IsAccounted : {p : Pump} → Steps new_pump p → IsAccounted p
unfolding new_pump buffered answered
steps-IsAccounted stays = record { once = λ i. ground arith; room = omega arith }
steps-IsAccounted (goes before step) = step-IsAccounted (steps-IsAccounted before) step
