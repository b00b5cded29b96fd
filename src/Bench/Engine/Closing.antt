-- ===== src/Bench/Engine/Closing.antt =====
-- What Run of internal/bench/engine.go opens and closes, over all of its returns.
use golang_mq.Base.{
  ℕ, suc, ◌+◌, ◌≡◌, refl, ap, Bool, true, false, List, [], ◌∷◌, ◌++◌, ◌⊎◌, inl, inr, String,
  nat_beq, string_eq, Bool-cases, Option-cases, arith, if◌then◌else◌,
}
use mathlib.Core.List.{append-nil}
use golang_mq.Bench.Config.{Config}
use golang_mq.Bench.Float.{Float}
use golang_mq.Bench.Topology.{Topology}
use golang_mq.Bench.Validation.{validate, build_plan}
use golang_mq.Bench.Engine.Clients.{
  Sdk, Course, RunError, Resource, client, csv_file, Action, acquires, releases, close_clients,
  setup_calls, setup, open_channels, connect_all, csv_path, start_consumers, consumer_slots,
  header_error, warmup_error, total_of, open_csv, opened_file, close_file, drive, with_csv,
  with_topology, run_benchmark,
}

unfoldable pub is_same : Resource → Resource → Bool
is_same (client j) (client k) = nat_beq j k
is_same (client j) csv_file = false
is_same csv_file (client k) = false
is_same csv_file csv_file = true

abbrev hits : Resource → Resource → ℕ
hits q r = if is_same q r then 1 else 0

-- The number of times that a run acquires a resource, and that it releases it.
unfoldable pub acquired : Resource → List Action → ℕ
unfolding is_same
acquired r [] = 0
acquired r (acquires q ∷ more) = hits q r + acquired r more
acquired r (releases q ∷ more) = acquired r more

unfoldable pub released : Resource → List Action → ℕ
unfolding is_same
released r [] = 0
released r (acquires q ∷ more) = released r more
released r (releases q ∷ more) = hits q r + released r more

acquired-append :
    (r : Resource) (xs ys : List Action) → acquired r (xs ++ ys) ≡ acquired r xs + acquired r ys
unfolding acquired
acquired-append r [] ys = omega arith
acquired-append r (acquires q ∷ xs) ys = omega (arith, acquired-append r xs ys)
acquired-append r (releases q ∷ xs) ys = acquired-append r xs ys

released-append :
    (r : Resource) (xs ys : List Action) → released r (xs ++ ys) ≡ released r xs + released r ys
unfolding released
released-append r [] ys = omega arith
released-append r (acquires q ∷ xs) ys = released-append r xs ys
released-append r (releases q ∷ xs) ys = omega (arith, released-append r xs ys)

-- Closing clients acquires nothing.
acquired-close_clients : (r : Resource) (ks : List ℕ) → acquired r (close_clients ks) ≡ 0
unfolding acquired close_clients
acquired-close_clients r [] = refl
acquired-close_clients r (k ∷ ks) = acquired-close_clients r ks

abbrev closings : Resource → List ℕ → ℕ
closings r ks = released r (close_clients ks)

closings-append :
    (r : Resource) (ks : List ℕ) (k : ℕ)
    → closings r (ks ++ k ∷ []) ≡ closings r ks + hits (client k) r
unfolding close_clients released
closings-append r [] k = omega arith
closings-append r (j ∷ ks) k = omega (arith, closings-append r ks k)

-- The clients that are connected and not closed yet.
left_open : RunError ⊎ List ℕ → List ℕ
left_open (inl e) = []
left_open (inr ks) = ks

connect_all-balance :
    (sdk : Sdk) (i : ℕ) (chans : List (List ℕ)) (ks : List ℕ) (r : Resource)
    → acquired r (connect_all sdk i chans ks).1 + closings r ks
      ≡ released r (connect_all sdk i chans ks).1
        + closings r (left_open (connect_all sdk i chans ks).0)
unfolding connect_all left_open acquired released close_clients
connect_all-balance sdk i [] ks r = refl
connect_all-balance sdk i (c ∷ cs) ks r = elim (Option-cases (sdk.connect (suc i))) [
  | inr (e, failed) ↦ rw (connect_all, failed) (omega (arith, acquired-close_clients r ks))
  | inl connected ↦ elim (Option-cases (open_channels sdk i 0 c)) [
    | inr (e, failed) ↦
        rw (connect_all, connected, connect_all, failed)
          (omega (arith, acquired-close_clients r (ks ++ suc i ∷ []), closings-append r ks (suc i)))
    | inl opened ↦
        rw (connect_all, connected, connect_all, opened)
          (omega (
            arith,
            connect_all-balance sdk (suc i) cs (ks ++ suc i ∷ []) r,
            closings-append r ks (suc i),
          ))
  ]
]

-- Connecting from no client on: what is not closed again is what is left open.
connect_all-opens :
    (sdk : Sdk) (chans : List (List ℕ)) (r : Resource) (x : RunError ⊎ List ℕ)
    → (connect_all sdk 0 chans []).0 ≡ x
    → acquired r (connect_all sdk 0 chans []).1
      ≡ released r (connect_all sdk 0 chans []).1 + closings r (left_open x)
unfolding close_clients released
connect_all-opens sdk chans r x e =
    omega (arith, connect_all-balance sdk 0 chans [] r, ap (λ y. closings r (left_open y)) e)

setup_calls-closes : (sdk : Sdk) → (setup_calls sdk).1 ≡ releases (client 0) ∷ []
unfolding setup_calls
setup_calls-closes sdk = elim (Option-cases (sdk.open_channel 0 0)) [
  | inr (e, failed) ↦ rw (setup_calls, failed) refl
  | inl opened ↦ elim (Option-cases sdk.declare_exchange) [
    | inr (e, failed) ↦ rw (setup_calls, opened, setup_calls, failed) refl
    | inl exchange ↦ elim (Option-cases sdk.declare_queue) [
      | inr (e, failed) ↦ rw (setup_calls, opened, setup_calls, exchange, setup_calls, failed) refl
      | inl queue ↦ elim (Option-cases sdk.bind_queue) [
        | inr (e, failed) ↦
            rw (setup_calls, opened, setup_calls, exchange, setup_calls, queue, setup_calls, failed)
              refl
        | inl bound ↦
            rw (setup_calls, opened, setup_calls, exchange, setup_calls, queue, setup_calls, bound)
              refl
      ]
    ]
  ]
]

setup-balance : (sdk : Sdk) (r : Resource) → acquired r (setup sdk).1 ≡ released r (setup sdk).1
unfolding setup acquired released
setup-balance sdk r = elim (Option-cases (sdk.connect 0)) [
  | inr (e, failed) ↦ rw (setup, failed) refl
  | inl connected ↦ rw (setup, connected, setup_calls-closes sdk) refl
]

Sum-cases : {A B : Type 0} (x : A ⊎ B) → ((a : A) × (x ≡ inl a)) ⊎ ((b : B) × (x ≡ inr b))
Sum-cases (inl a) = inl (a, refl)
Sum-cases (inr b) = inr (b, refl)

both_append :
    (r : Resource) (xs ys : List Action)
    → acquired r xs ≡ released r xs
    → acquired r ys ≡ released r ys
    → acquired r (xs ++ ys) ≡ released r (xs ++ ys)
both_append r xs ys hx hy = omega (arith, hx, hy, acquired-append r xs ys, released-append r xs ys)

closings-csv_file : (ks : List ℕ) → closings csv_file ks ≡ 0
unfolding close_clients released
closings-csv_file [] = refl
closings-csv_file (k ∷ ks) = omega (arith, closings-csv_file ks)

-- The file that is open is closed once.
file-balance :
    (r : Resource) (file : Bool)
    → (acquired r (opened_file file) ≡ released r (close_file file).0)
      × (released r (opened_file file) ≡ 0)
      × (acquired r (close_file file).0 ≡ 0)
unfolding opened_file close_file acquired released
file-balance r true = (refl, refl, refl)
file-balance r false = (refl, refl, refl)

module _ {F : Type 0} ⦃f : Float F⦄ where
  -- Does make panic, or can the flags and times be allocated?
  abbrev IsAllocated : Course F → Config → Type 0
  IsAllocated course c = course.allocates (total_of c) ≡ true

  -- What is closed after the header of the CSV, with the deferred close: every client and the file,
  -- or the file alone if make panics.
  drive-ends :
      (sdk : Sdk) (course : Course F) (path runid : String) (c : Config) (t : Topology)
      (ks : List ℕ) (file : Bool)
      → let r = drive sdk course path runid c t ks file in
        (r.1 ++ (close_file r.2).0 ≡ close_clients ks ++ (close_file file).0)
        ⊎ ((course.allocates (total_of c) ≡ false)
            × (r.1 ++ (close_file r.2).0 ≡ (close_file file).0))
  unfolding drive
  drive-ends sdk course path runid c t ks file = elim (Option-cases (header_error course)) [
    | inr (e, failed) ↦ inl (rw (drive, failed) refl)
    | inl header ↦ elim (Bool-cases (course.allocates (total_of c))) [
      | inr too_large ↦ inr (too_large, rw (drive, header, drive, too_large) refl)
      | inl fits ↦
          elim (Option-cases (start_consumers sdk 0 (consumer_slots t.slots t.consume_capable))) [
            | inr (e, failed) ↦ inl (rw (drive, header, drive, fits, drive, failed) refl)
            | inl started ↦ elim (Option-cases (warmup_error c course)) [
              | inr (e, failed) ↦
                  inl (rw (drive, header, drive, fits, drive, started, drive, failed) refl)
              | inl warm ↦ inl (
                  rw (drive, header, drive, fits, drive, started, drive, warm)
                    (unfold close_file in append-nil (close_clients ks ++ (close_file file).0)))
            ]
          ]
    ]
  ]

  with_csv-balance :
      (sdk : Sdk) (course : Course F) (runid : String) (c : Config) (t : Topology) (ks : List ℕ)
      (r : Resource)
      → (r ≡ csv_file) ⊎ IsAllocated course c
      → acquired r (with_csv sdk course runid c t ks).1 + closings r ks
        ≡ released r (with_csv sdk course runid c t ks).1
  unfolding with_csv
  with_csv-balance sdk course runid c t ks r h =
      let o = open_csv course c in
      elim (Option-cases o.0) [
        | inr (e, failed) ↦ rw (with_csv, failed) (omega (arith, acquired-close_clients r ks))
        | inl opened ↦
            let d = drive sdk course (csv_path c runid) runid c t ks o.1 in
            let end = d.1 ++ (close_file d.2).0 in
            let (a, b, g) = file-balance r o.1 in
            elim (drive-ends sdk course (csv_path c runid) runid c t ks o.1) [
              | inl closed ↦
                  rw (with_csv, opened, closed)
                    (omega (
                      arith,
                      a,
                      b,
                      g,
                      acquired-append r (opened_file o.1) (close_clients ks ++ (close_file o.1).0),
                      released-append r (opened_file o.1) (close_clients ks ++ (close_file o.1).0),
                      acquired-append r (close_clients ks) (close_file o.1).0,
                      released-append r (close_clients ks) (close_file o.1).0,
                      acquired-close_clients r ks,
                    ))
              | inr (too_large, closed) ↦ elim h [
                | inr fits ↦ cc
                | inl is_file ↦
                    let none_left : closings r ks ≡ 0 = rw is_file (closings-csv_file ks) in
                    rw (with_csv, opened, closed)
                      (omega (
                        arith,
                        a,
                        b,
                        g,
                        none_left,
                        acquired-append r (opened_file o.1) (close_file o.1).0,
                        released-append r (opened_file o.1) (close_file o.1).0,
                      ))
              ]
            ]
      ]

  with_topology-balance :
      (sdk : Sdk) (course : Course F) (runid : String) (c : Config) (t : Topology) (r : Resource)
      → (r ≡ csv_file) ⊎ IsAllocated course c
      → acquired r (with_topology sdk course runid c t).1
        ≡ released r (with_topology sdk course runid c t).1
  unfolding with_topology
  with_topology-balance sdk course runid c t r h =
      let s = setup sdk in
      let k = connect_all sdk 0 t.conn_channels [] in
      let before = setup-balance sdk r in
      elim (Option-cases s.0) [
        | inr (e, failed) ↦ rw (with_topology, failed) before
        | inl declared ↦ elim (Sum-cases k.0) [
          | inl (e, failed) ↦
              rw (with_topology, declared, with_topology, failed)
                (both_append r s.1 k.1 before (
                  unfold left_open close_clients released in
                  omega (arith, connect_all-opens sdk t.conn_channels r (inl e) failed)))
          | inr (ks, connected) ↦
              let r' = with_csv sdk course runid c t ks in
              rw (with_topology, declared, with_topology, connected)
                (both_append r s.1 (k.1 ++ r'.1) before (
                  unfold left_open in
                  omega (
                    arith,
                    connect_all-opens sdk t.conn_channels r (inr ks) connected,
                    with_csv-balance sdk course runid c t ks r h,
                    acquired-append r k.1 r'.1,
                    released-append r k.1 r'.1,
                  )))
        ]
      ]

  -- Whatever the settings, and whichever call of the SDK, of the file system or of a worker fails
  -- and however the run is interrupted, Run closes the file of the CSV exactly as often as it has
  -- opened it, and every client too unless make panics on the size of the budget.
  pub run_benchmark-balance :
      (sdk : Sdk) (course : Course F) (runid : String) (c : Config) (r : Resource)
      → (r ≡ csv_file) ⊎ (course.allocates (total_of c) ≡ true)
      → acquired r (run_benchmark sdk course runid c).1
        ≡ released r (run_benchmark sdk course runid c).1
  unfolding run_benchmark acquired released
  run_benchmark-balance sdk course runid c r h = elim (Option-cases (validate c)) [
    | inr (e, failed) ↦ rw (run_benchmark, failed) refl
    | inl valid ↦ elim (Sum-cases (build_plan c)) [
      | inl (e, failed) ↦ rw (run_benchmark, valid, run_benchmark, failed) refl
      | inr (t, built) ↦
          rw (run_benchmark, valid, run_benchmark, built)
            (with_topology-balance sdk course runid c t r h)
    ]
  ]
