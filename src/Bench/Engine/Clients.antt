-- ===== src/Bench/Engine/Clients.antt =====
-- Run of internal/bench/engine.go as a sequence of calls: what it opens and closes, and what it returns.
-- The answers of the SDK, of the file system and of the goroutines that it waits for are parameters.
use Prim.Native.String.{◌++◌ as ◌^+◌}
use golang_mq.Base.{
  ℕ, suc, ◌*◌, Bool, true, false, not, ◌||◌, nat_beq, Option, none, some, List, [], ◌∷◌, ◌++◌, ◌⊎◌,
  inl, inr, String, leb, ◌==◌, string_eq, if◌then◌else◌,
}
use golang_mq.Bench.Config.{Config, is_not_positive, size_of}
use golang_mq.Bench.Float.{Float}
use golang_mq.Bench.Topology.{Topology, ChannelSlot}
use golang_mq.Bench.Validation.{ConfigError, validate, build_plan}
use golang_mq.Bench.Counters.{Stats}
use golang_mq.Bench.Csv.{Io, new_csv_writer}
use golang_mq.Bench.Engine.Summary.{slot_at, store_drops}

-- The errors of the calls. The client 0 is the setup client, and `suc i` is that of the connection `i`.
pub record Sdk : Type 0 where
  pub connect : ℕ → Option String
  pub open_channel : ℕ → ℕ → Option String
  pub declare_exchange : Option String
  pub declare_queue : Option String
  pub bind_queue : Option String
  pub consume : ℕ → Option String

-- Which channel the wait of the warmup received from.
pub data Wake : Type 0 where
  context_done publishers_done timer_fired : Wake

-- What the rest of the run meets: the error of os.Create, how the write and the flush of the header go,
-- whether so many flags and times can be allocated, the end of the warmup with its cutoff, whether the
-- context is done at the end, and the errors and statistics that are left: those of the workers, of the
-- writer's close and of the file's.
pub record Course (F : Type 0) : Type 0 where
  pub create : Option String
  pub header : Io
  pub header_flush : Io
  pub allocates : ℕ → Bool
  pub wake : Wake
  pub cutoff : ℕ
  pub interrupted : Bool
  pub worker_errors : List String
  pub csv_close : Option String
  pub file_close : Option String
  pub stats : Stats F

pub data RunError : Type 0 where
  invalid : ConfigError → RunError
  setup_connect setup_channel declare_exchange declare_queue bind : String → RunError
  connect_conn open_channel : ℕ → String → RunError
  create_csv write_csv : String → String → RunError
  consume : ℕ → ℕ → String → RunError
  warmup_interrupted warmup_exceeded interrupted : RunError
  worker_failures : List String → RunError
  -- The panic of make, which is no error that Run returns.
  allocation_panic : RunError

-- The statistics are those of the summary.
pub record RunResult (F : Type 0) : Type 0 where
  pub run_id : String
  pub csv_path : String
  pub stats : Stats F

pub data Resource : Type 0 where
  client : ℕ → Resource
  csv_file : Resource

pub data Action : Type 0 where
  acquires releases : Resource → Action

-- closeClients
unfoldable pub close_clients : List ℕ → List Action
close_clients [] = []
close_clients (k ∷ ks) = releases (client k) ∷ close_clients ks

-- The calls of the setup client after it has connected, up to the first that fails; it is closed on
-- each path.
unfoldable pub setup_calls : Sdk → Option RunError × List Action
setup_calls sdk = elim (sdk.open_channel 0 0) [
  | some e ↦ (some (setup_channel e), releases (client 0) ∷ [])
  | none ↦ elim sdk.declare_exchange [
    | some e ↦ (some (declare_exchange e), releases (client 0) ∷ [])
    | none ↦ elim sdk.declare_queue [
      | some e ↦ (some (declare_queue e), releases (client 0) ∷ [])
      | none ↦ elim sdk.bind_queue [
        | some e ↦ (some (bind e), releases (client 0) ∷ [])
        | none ↦ (none, releases (client 0) ∷ [])
      ]
    ]
  ]
]

-- The setup client declares the exchange and the queue, and is closed.
unfoldable pub setup : Sdk → Option RunError × List Action
unfolding setup_calls
setup sdk = elim (sdk.connect 0) [
  | some e ↦ (some (setup_connect e), [])
  | none ↦ let r = setup_calls sdk in (r.0, acquires (client 0) ∷ r.1)
]

-- The channels of the connection `i`, from the `j`th on, up to the first that fails.
unfoldable pub open_channels : Sdk → ℕ → ℕ → List ℕ → Option String
open_channels sdk i j [] = none
open_channels sdk i j (gi ∷ gis) = elim (sdk.open_channel (suc i) j) [
  | some e ↦ some e
  | none ↦ open_channels sdk i (suc j) gis
]

-- The clients of the connections from `i` on, beside those that are connected already.
unfoldable pub connect_all : Sdk → ℕ → List (List ℕ) → List ℕ → (RunError ⊎ List ℕ) × List Action
unfolding open_channels close_clients
connect_all sdk i [] clients = (inr clients, [])
connect_all sdk i (chans ∷ rest) clients = elim (sdk.connect (suc i)) [
  | some e ↦ (inl (connect_conn i e), close_clients clients)
  | none ↦ elim (open_channels sdk i 0 chans) [
    | some e ↦
        (inl (open_channel i e), acquires (client (suc i)) ∷ close_clients (clients ++ suc i ∷ []))
    | none ↦
        let r = connect_all sdk (suc i) rest (clients ++ suc i ∷ []) in
        (r.0, acquires (client (suc i)) ∷ r.1)
  ]
]

-- The slot of each consumer, in the order in which they are started.
unfoldable pub each : {A B : Type 0} → A → List B → List A
each a [] = []
each a (b ∷ bs) = a ∷ each a bs

unfoldable pub consumer_slots : List ChannelSlot → List ℕ → List ChannelSlot
unfolding slot_at each
consumer_slots slots [] = []
consumer_slots slots (gi ∷ gis) =
    let rest = consumer_slots slots gis in
    elim (slot_at gi slots) [ none ↦ rest | some sl ↦ each sl sl.cons_goroutines ++ rest ]

-- Starting the consumers from the `k`th on, up to the first that fails.
unfoldable pub start_consumers : Sdk → ℕ → List ChannelSlot → Option RunError
start_consumers sdk k [] = none
start_consumers sdk k (sl ∷ sls) = elim (sdk.consume k) [
  | some e ↦ some (consume sl.conn sl.ch e)
  | none ↦ start_consumers sdk (suc k) sls
]

-- publishers x msgs
unfoldable pub total_of : Config → ℕ
total_of c = size_of c.publishers * size_of c.msgs

-- The path of the CSV; `-` is standard output.
unfoldable pub csv_path : Config → String → String
csv_path c runid =
    if c.output == "-"
    then "-"
    else if c.output == ""
    then "bench-" ^+ (runid ^+ ".csv")
    else c.output

-- The file that openCSV has created.
unfoldable pub opened_file : Bool → List Action
opened_file file = if file then acquires csv_file ∷ [] else []

-- The close of a file that is not nil, which the deferred function makes too; csvFile is nil then.
unfoldable pub close_file : Bool → List Action × Bool
close_file file = (if file then releases csv_file ∷ [] else [], false)

module _ {F : Type 0} where
  unfoldable pub header_error : Course F → Option String
  unfolding new_csv_writer
  header_error course = elim (new_csv_writer course.header course.header_flush) [
    | none ↦ none
    | some r ↦ elim r [ inl e ↦ some e | inr w ↦ none ]
  ]

  -- The first error of closing the writer and the file, if csvFile is not nil.
  unfoldable pub close_error : Bool → Course F → Option String
  close_error file course = elim course.csv_close [
    | some e ↦ some e
    | none ↦ if file then course.file_close else none
  ]

  -- The end of the warmup, if there is one.
  unfoldable pub warmup_error : Config → Course F → Option RunError
  unfolding total_of
  warmup_error c course =
      if is_not_positive c.warmup || nat_beq (total_of c) 0 then none else elim course.wake [
        | context_done ↦ some warmup_interrupted
        | publishers_done ↦ some warmup_exceeded
        | timer_fired ↦ if leb (total_of c) course.cutoff then some warmup_exceeded else none
      ]

module _ {F : Type 0} ⦃f : Float F⦄ where
  -- What is returned once everything has ended.
  unfoldable pub finish_run : Bool → String → String → Course F → RunError ⊎ RunResult F
  unfolding store_drops close_error
  finish_run file path runid course =
      if course.interrupted then inl interrupted else elim course.worker_errors [
        | e ∷ es ↦ inl (worker_failures (e ∷ es))
        | [] ↦ elim (close_error file course) [
          | some e ↦ inl (write_csv path e)
          | none ↦
              inr (record { run_id = runid; csv_path = path; stats = store_drops course.stats })
        ]
      ]

  -- From the header of the CSV on, with csvFile != nil: what is returned, the calls, and whether
  -- csvFile is still not nil. newCSVWriter does not panic.
  unfoldable pub drive :
      Sdk
      → Course F
      → String
      → String
      → Config
      → Topology
      → List ℕ
      → Bool
      → (RunError ⊎ RunResult F) × List Action × Bool
  unfolding start_consumers consumer_slots warmup_error finish_run close_clients header_error
      total_of close_file
  drive sdk course path runid c t clients file = elim (header_error course) [
    | some e ↦ (inl (write_csv path e), close_clients clients, file)
    | none ↦
        if not (course.allocates (total_of c))
        then (inl allocation_panic, [], file)
        else elim (start_consumers sdk 0 (consumer_slots t.slots t.consume_capable)) [
          | some e ↦ (inl e, close_clients clients, file)
          | none ↦ elim (warmup_error c course) [
            | some e ↦ (inl e, close_clients clients, file)
            | none ↦
                let closed = close_file file in
                (finish_run file path runid course, close_clients clients ++ closed.0, closed.1)
          ]
        ]
  ]

  -- openCSV: the error of os.Create, if it is called, and csvFile != nil.
  unfoldable pub open_csv : Course F → Config → Option String × Bool
  open_csv course c =
      if c.output == "-"
      then (none, false)
      else elim course.create [ some e ↦ (some e, false) | none ↦ (none, true) ]

  -- From openCSV on, with the deferred close.
  unfoldable pub with_csv :
      Sdk → Course F → String → Config → Topology → List ℕ → (RunError ⊎ RunResult F) × List Action
  unfolding csv_path drive close_clients open_csv opened_file close_file
  with_csv sdk course runid c t clients =
      let path = csv_path c runid in
      let o = open_csv course c in
      elim o.0 [
        | some e ↦ (inl (create_csv path e), close_clients clients)
        | none ↦
            let r = drive sdk course path runid c t clients o.1 in
            (r.0, opened_file o.1 ++ (r.1 ++ (close_file r.2).0))
      ]

  unfoldable pub with_topology :
      Sdk → Course F → String → Config → Topology → (RunError ⊎ RunResult F) × List Action
  unfolding setup connect_all with_csv
  with_topology sdk course runid c t =
      let s = setup sdk in
      let k = connect_all sdk 0 t.conn_channels [] in
      elim s.0 [
        | some e ↦ (inl e, s.1)
        | none ↦ elim k.0 [
          | inl e ↦ (inl e, s.1 ++ k.1)
          | inr clients ↦
              let r = with_csv sdk course runid c t clients in (r.0, s.1 ++ (k.1 ++ r.1))
        ]
      ]

  -- Run
  unfoldable pub run_benchmark :
      Sdk → Course F → String → Config → (RunError ⊎ RunResult F) × List Action
  unfolding build_plan with_topology
  run_benchmark sdk course runid c = elim (validate c) [
    | some e ↦ (inl (invalid e), [])
    | none ↦ elim (build_plan c) [
      | inl e ↦ (inl (invalid e), [])
      | inr t ↦ with_topology sdk course runid c t
    ]
  ]
