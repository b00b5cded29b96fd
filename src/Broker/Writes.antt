-- ===== src/Broker/Writes.antt =====
-- send, writePump and shutdown of broker/connection.go: the requests of all goroutines that write to one
-- connection, over its channel writeCh, and the goroutine that serves them, one step after another.
pub mod Accounts
pub mod Stranded
use golang_mq.Base.{
  ℕ, zero, suc, ◌+◌, ◌<◌, ◌≡◌, Bool, true, false, Option, none, some, List, [], ◌∷◌, ◌++◌, String,
  length,
}

-- make(chan writeRequest, 64)
abbrev pub write_capacity : ℕ
write_capacity = 64

-- writeRequest; the number stands for its channel `err`.
pub record Request : Type 0 where
  pub id : ℕ
  pub bytes : String

-- What was sent on the channel `err` of a request, or returned by send in its place.
pub record Answer : Type 0 where
  pub id : ℕ
  pub error : Option String

-- `next` is the number of the next call of send, `wire` what was written and flushed, in order.
pub record Pump : Type 0 where
  pub next : ℕ
  pub write_ch : List Request
  pub answers : List Answer
  pub wire : List String
  pub running : Bool
  pub closed : Bool

-- NewConnection
unfoldable pub new_pump : Pump
new_pump = record {
  next = 0;
  write_ch = [];
  answers = [];
  wire = [];
  running = true;
  closed = false;
}

-- send whose select puts the request into writeCh
unfoldable pub put : String → Pump → Pump
put bytes p = record p {
  next = suc p.next;
  write_ch = p.write_ch ++ (record { id = p.next; bytes = bytes }) ∷ [];
}

-- send whose select finds the connection closed
unfoldable pub refuse : Pump → Pump
refuse p = record p {
  next = suc p.next;
  answers = p.answers ++ (record { id = p.next; error = some "connection closed" }) ∷ [];
}

-- shutdown
unfoldable pub shutdown : Pump → Pump
shutdown p = record p { closed = true }

-- One turn of writePump that has received the request `r`, with the error of Write or of Flush: on an
-- error the loop ends, and its deferred call closes the connection.
unfoldable pub serve : Option String → Request → List Request → Pump → Pump
unfolding shutdown
serve none r rest p = record p {
  write_ch = rest;
  wire = p.wire ++ r.bytes ∷ [];
  answers = p.answers ++ (record { id = r.id; error = none }) ∷ [];
}
serve (some e) r rest p = shutdown (record p {
  write_ch = rest;
  answers = p.answers ++ (record { id = r.id; error = some e }) ∷ [];
  running = false;
})

-- The return of writePump on `closed`
unfoldable pub stop : Pump → Pump
unfolding shutdown
stop p = shutdown (record p { running = false })

-- A select takes any of its cases that is ready.
pub data Step (p : Pump) : Pump → Type 0 where
  puts : (bytes : String) → length p.write_ch < write_capacity → Step p (put bytes p)
  refuses : p.closed ≡ true → Step p (refuse p)
  serves :
      (error : Option String) (r : Request) (rest : List Request)
      → p.running ≡ true
      → p.write_ch ≡ r ∷ rest
      → Step p (serve error r rest p)
  stops : p.running ≡ true → p.closed ≡ true → Step p (stop p)
  shuts_down : Step p (shutdown p)

-- The steps from one state to another.
pub data Steps (p : Pump) : Pump → Type 0 where
  stays : Steps p p
  goes : {q r : Pump} → Steps p q → Step q r → Steps p r
