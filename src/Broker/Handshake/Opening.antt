-- ===== src/Broker/Handshake/Opening.antt =====
-- When a handshake succeeds, and what the client has been told by then.
use golang_mq.Base.{
  ℕ, suc, ◌≡◌, ◌≢◌, refl, Bool, true, false, Option, some, List, [], ◌∷◌, ◌++◌, arith, ap, subst,
  sym, ◌∙◌, ◌⊎◌, inl, inr, Bool-cases, Option-cases, if◌then◌else◌,
}
use mathlib.Core.List.{append-nil}
use golang_mq.Json.{Json, codes}
use golang_mq.Protocol.Lines.Reading.{read_line-splits, read_protocol_header-accepts}
use golang_mq.Protocol.Unmarshal.{Decoded}
use golang_mq.Protocol.Handshake.{
  new_connection_start, new_connection_tune, new_connection_open_ok, unmarshal_start_ok,
  unmarshal_tune_ok, unmarshal_open,
}
use golang_mq.Protocol.Lines.{read_line, read_protocol_header, read_message}
use golang_mq.Broker.State.{
  ConnectionState, await_protocol_header, await_start_ok, await_tune_ok, await_open, open_state,
}
use golang_mq.Broker.Handshake.{
  ServerConfig, Session, Greeting, start, tune, open_ok, fresh, enter, unless_failed, read_header,
  read, write_greeting, tune_and_open, run_handshake,
}

-- Between the end of the bytes at the start of a call and those at its end stands one line, which
-- decodes without an error.
abbrev pub IsLine :
    {A : Type 0} → (List ℕ → Option Json) → (Option Json → Decoded A) → List ℕ → List ℕ → Type 0
IsLine parse decode input left =
    (line : List ℕ) × (input ≡ line ++ left)
    × (read_line input ≡ some (line, left))
    × ((decode (parse line)).failed ≡ false)

-- The header was sent if a line can be read after it.
header_sent :
    (input line : List ℕ) {left : List ℕ}
    → (read_protocol_header input).0 ≡ false
    → read_line (read_protocol_header input).1 ≡ some (line, left)
    → input ≡ codes "GOMQ/1\n" ++ (read_protocol_header input).1
unfolding read_line
header_sent input line e f = elim (read_protocol_header-accepts input e) [
  | inl ended ↦ let f' = rw ended at f in cc
  | inr sent ↦ sent
]

unless_failed-false :
    (r : Bool × Session) (rest : Session → Bool × Session) {h : Session}
    → unless_failed r rest ≡ (false, h)
    → (r.0 ≡ false) × (rest r.1 ≡ (false, h))
unfolding unless_failed
unless_failed-false (true, h') rest e = cc
unless_failed-false (false, h') rest e = (refl, e)

unless_failed-true :
    (r : Bool × Session) (rest : Session → Bool × Session) {h : Session}
    → unless_failed r rest ≡ (true, h)
    → (r ≡ (true, h)) ⊎ ((r.0 ≡ false) × (rest r.1 ≡ (true, h)))
unfolding unless_failed
unless_failed-true (true, h') rest e = inl e
unless_failed-true (false, h') rest e = inr (refl, e)

module _ (parse : List ℕ → Option Json) (writable : ℕ → Bool) where
  read-false :
      {A : Type 0} (decode : Option Json → Decoded A) (h : Session)
      → (read parse writable decode h).0 ≡ false
      → IsLine parse decode h.input (read parse writable decode h).1.input
  unfolding read read_message
  read-false decode h e = elim (Option-cases (read_line h.input)) [
    | inl none_left ↦ ground arith
    | inr ((line, left), f) ↦
        let same : (read parse writable decode h).1.input ≡ left = ground arith in
        let g : read_line h.input ≡ some (line, (read parse writable decode h).1.input) =
          rw same f in
        (
          line,
          read_line-splits h.input line (read parse writable decode h).1.input g,
          g,
          ground arith,
        )
  ]

  read-keeps :
      {A : Type 0} (decode : Option Json → Decoded A) (h : Session)
      → ((read parse writable decode h).1.state ≡ h.state)
        × ((read parse writable decode h).1.written ≡ h.written)
        × ((read parse writable decode h).1.writes ≡ h.writes)
  unfolding read
  read-keeps decode h = (refl, refl, refl)

  write_greeting-false :
      (g : Greeting) (h : Session)
      → (write_greeting parse writable g h).0 ≡ false
      → (writable h.writes ≡ true)
        × ((write_greeting parse writable g h).1
            ≡ record h { written = h.written ++ g ∷ []; writes = suc h.writes })
  unfolding write_greeting
  write_greeting-false g h e = elim (Bool-cases (writable h.writes)) [
    | inl ok ↦ (ok, rw ok)
    | inr lost ↦ ground arith
  ]

  write_greeting-keeps :
      (g : Greeting) (h : Session)
      → ((write_greeting parse writable g h).1.state ≡ h.state)
        × ((write_greeting parse writable g h).1.input ≡ h.input)
        × ((write_greeting parse writable g h).1.writes ≡ suc h.writes)
        × ((write_greeting parse writable g h).1.written
            ≡ h.written ++ (if writable h.writes then g ∷ [] else []))
  unfolding write_greeting
  write_greeting-keeps g h = elim (Bool-cases (writable h.writes)) [
    | inl ok ↦ rw ok (refl, refl, refl, refl)
    | inr lost ↦ rw (lost, append-nil) (refl, refl, refl, refl)
  ]

  module _ (config : ServerConfig) where
    abbrev tuning : Greeting
    tuning = tune (new_connection_tune config.channel_max config.frames_max config.heartbeat_sec)

    -- What a finished handshake needs and does: the header, three lines that decode, and the writes of
    -- connection.start and connection.open_ok; the state is open, and the client has been written
    -- connection.start, connection.tune unless that write failed, and connection.open_ok.
    pub record Opens (input : List ℕ) (h : Session) : Type 0 where
      pub after_header : List ℕ
      pub after_start_ok : List ℕ
      pub after_tune_ok : List ℕ
      pub header : input ≡ codes "GOMQ/1\n" ++ after_header
      pub start_ok_line : IsLine parse unmarshal_start_ok after_header after_start_ok
      pub tune_ok_line : IsLine parse unmarshal_tune_ok after_start_ok after_tune_ok
      pub open_line : IsLine parse unmarshal_open after_tune_ok h.input
      pub opened : h.state ≡ open_state
      pub start_written : writable 0 ≡ true
      pub open_written : writable 2 ≡ true
      pub told :
          h.written
          ≡ start new_connection_start ∷ (if writable 1 then tuning ∷ [] else [])
            ++ open_ok new_connection_open_ok ∷ []

    record Tunes (h h' : Session) : Type 0 where
      after : List ℕ
      tune_ok_line : IsLine parse unmarshal_tune_ok h.input after
      open_line : IsLine parse unmarshal_open after h'.input
      opened : h'.state ≡ open_state
      open_written : writable (suc h.writes) ≡ true
      told :
          h'.written
          ≡ (h.written ++ (if writable h.writes then tuning ∷ [] else []))
            ++ open_ok new_connection_open_ok ∷ []

    tune_and_open-Tunes :
        (h : Session) {h' : Session}
        → tune_and_open parse writable config h ≡ (false, h')
        → Tunes h h'
    unfolding tune_and_open
    tune_and_open-Tunes h {h' = h'} e =
        let h0 = (write_greeting parse writable tuning h).1 in
        let (e1, f1) = unless_failed-false (read parse writable unmarshal_tune_ok h0) _ e in
        let h1 = enter await_open (read parse writable unmarshal_tune_ok h0).1 in
        let (e2, f2) = unless_failed-false (read parse writable unmarshal_open h1) _ f1 in
        let h2 = (read parse writable unmarshal_open h1).1 in
        let (e3, f3) =
          unless_failed-false (write_greeting parse writable (open_ok new_connection_open_ok) h2) _
            f2 in
        let (a0, b0, c0, d0) = write_greeting-keeps tuning h in
        let (a3, b3) = write_greeting-false (open_ok new_connection_open_ok) h2 e3 in
        let h3 = (write_greeting parse writable (open_ok new_connection_open_ok) h2).1 in
        let p : enter open_state h3 ≡ h' = ap (λ r. r.1) f3 in
        let line2 = read-false unmarshal_tune_ok h0 e1 in
        let line3 = read-false unmarshal_open h1 e2 in
        rw (← p) (record {
          after = h1.input;
          tune_ok_line = subst (λ i. IsLine parse unmarshal_tune_ok i h1.input) b0 line2;
          open_line = rw b3 line3;
          opened = refl;
          open_written = rw c0 at a3;
          told = rw b3 (rw d0);
        })

    -- If the handshake succeeds then the client has sent the line GOMQ/1 and after it three lines
    -- that decode as connection.start_ok, connection.tune_ok and connection.open; the writes of
    -- connection.start and connection.open_ok succeeded; the state is open; and the client has
    -- been written connection.start, connection.tune unless that write failed, and
    -- connection.open_ok, in this order.
    pub run_handshake-Opens :
        (input : List ℕ) (h : Session)
        → run_handshake parse writable config (fresh input) ≡ (false, h)
        → Opens input h
    unfolding run_handshake
    run_handshake-Opens input h e =
        let (e0, f0) = unless_failed-false (read_header (fresh input)) _ e in
        let h1 = enter await_start_ok (read_header (fresh input)).1 in
        let (e1, f1) =
          unless_failed-false (write_greeting parse writable (start new_connection_start) h1) _
            f0 in
        let h2 = (write_greeting parse writable (start new_connection_start) h1).1 in
        let (e2, f2) = unless_failed-false (read parse writable unmarshal_start_ok h2) _ f1 in
        let h3 = enter await_tune_ok (read parse writable unmarshal_start_ok h2).1 in
        let t = tune_and_open-Tunes h3 f2 in
        let (a1, b1) = write_greeting-false (start new_connection_start) h1 e1 in
        let line1 = read-false unmarshal_start_ok h2 e2 in
        let first : IsLine parse unmarshal_start_ok (read_protocol_header input).1 h3.input =
          subst (λ i. IsLine parse unmarshal_start_ok i h3.input) (ap (λ x. x.input) b1) line1 in
        let (line, _, taken, _) = first in
        record {
          after_header = (read_protocol_header input).1;
          after_start_ok = h3.input;
          after_tune_ok = t.after;
          header = header_sent input line e0 taken;
          start_ok_line = first;
          tune_ok_line = t.tune_ok_line;
          open_line = t.open_line;
          opened = t.opened;
          start_written = a1;
          open_written = rw b1 at t.open_written;
          told = rw b1 at t.told;
        }

    refused :
        (r : Bool × Session) (st : ConnectionState) {h : Session}
        → r.1.state ≡ st
        → st ≢ open_state
        → r ≡ (true, h)
        → h.state ≢ open_state
    refused r st {h} same off e p = off (sym same ∙ ap (λ x. x.1.state) e ∙ p)

    tune_and_open-refuses :
        (h : Session) {h' : Session}
        → h.state ≡ await_tune_ok
        → tune_and_open parse writable config h ≡ (true, h')
        → h'.state ≢ open_state
    unfolding tune_and_open
    tune_and_open-refuses h {h' = h'} st e =
        let h0 = (write_greeting parse writable tuning h).1 in
        let r1 = read parse writable unmarshal_tune_ok h0 in
        let r2 = read parse writable unmarshal_open (enter await_open r1.1) in
        let r3 = write_greeting parse writable (open_ok new_connection_open_ok) r2.1 in
        elim (unless_failed-true r1 _ e) [
          | inl f ↦ refused r1 await_tune_ok ((write_greeting-keeps tuning h).0 ∙ st) (λ p. cc) f
          | inr (_, e1) ↦ elim (unless_failed-true r2 _ e1) [
            | inl f ↦ refused r2 await_open refl (λ p. cc) f
            | inr (_, e2) ↦ elim (unless_failed-true r3 _ e2) [
              | inl f ↦
                  refused r3 await_open
                    (write_greeting-keeps (open_ok new_connection_open_ok) r2.1).0 (λ p. cc) f
              | inr (_, e3) ↦ cc
            ]
          ]
        ]

    -- A handshake that fails, whatever the client has sent and whichever write failed, does not
    -- leave the connection open.
    pub run_handshake-refuses :
        (input : List ℕ) (h : Session)
        → run_handshake parse writable config (fresh input) ≡ (true, h)
        → h.state ≢ open_state
    unfolding run_handshake
    run_handshake-refuses input h e =
        let r0 = read_header (fresh input) in
        let r1 =
          write_greeting parse writable (start new_connection_start) (enter await_start_ok r0.1) in
        let r2 = read parse writable unmarshal_start_ok r1.1 in
        elim (unless_failed-true r0 _ e) [
          | inl f ↦ refused r0 await_protocol_header refl (λ p. cc) f
          | inr (_, e1) ↦ elim (unless_failed-true r1 _ e1) [
            | inl f ↦
                refused r1 await_start_ok
                  (write_greeting-keeps (start new_connection_start) (enter await_start_ok r0.1)).0
                  (λ p. cc) f
            | inr (_, e2) ↦ elim (unless_failed-true r2 _ e2) [
              | inl f ↦
                  refused r2 await_start_ok
                    (write_greeting-keeps (start new_connection_start)
                      (enter await_start_ok r0.1)).0
                    (λ p. cc) f
              | inr (_, e3) ↦ tune_and_open-refuses (enter await_tune_ok r2.1) refl e3
            ]
          ]
        ]
