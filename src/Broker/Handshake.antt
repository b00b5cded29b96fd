-- ===== src/Broker/Handshake.antt =====
-- RunHandshake of broker/connection.go: the connection's state, the bytes that are still to come, and
-- the messages that were written. Whether a write succeeds is given for each write in turn.
pub mod Opening
use golang_mq.Base.{ℕ, suc, Bool, true, false, Option, List, [], ◌∷◌, ◌++◌, if◌then◌else◌}
use golang_mq.Base.Int.{ℤ}
use golang_mq.Json.{Json}
use golang_mq.Protocol.{ConnectionStart, ConnectionTune, ConnectionOpenOk}
use golang_mq.Protocol.Unmarshal.{Decoded}
use golang_mq.Protocol.Handshake.{
  new_connection_start, new_connection_tune, new_connection_open_ok, unmarshal_start_ok,
  unmarshal_tune_ok, unmarshal_open,
}
use golang_mq.Protocol.Lines.{read_protocol_header, read_message}
use golang_mq.Broker.State.{
  ConnectionState, await_protocol_header, await_start_ok, await_tune_ok, await_open, open_state,
}

pub record ServerConfig : Type 0 where
  pub channel_max : ℤ
  pub frames_max : ℤ
  pub heartbeat_sec : ℤ

-- The messages of the server.
pub data Greeting : Type 0 where
  start : ConnectionStart → Greeting
  tune : ConnectionTune → Greeting
  open_ok : ConnectionOpenOk → Greeting

-- `written` has the messages whose write succeeded, the oldest first; `writes` counts the attempts.
pub record Session : Type 0 where
  pub state : ConnectionState
  pub input : List ℕ
  pub written : List Greeting
  pub writes : ℕ

-- A session as it begins.
abbrev pub fresh : List ℕ → Session
fresh input = record { state = await_protocol_header; input = input; written = []; writes = 0 }

-- The rest of the handshake, unless there was an error.
unfoldable pub unless_failed : Bool × Session → (Session → Bool × Session) → Bool × Session
unless_failed (true, h) rest = (true, h)
unless_failed (false, h) rest = rest h

abbrev pub enter : ConnectionState → Session → Session
enter st h = record h { state = st }

unfoldable pub read_header : Session → Bool × Session
unfolding read_protocol_header
read_header h = let r = read_protocol_header h.input in (r.0, record h { input = r.1 })

module _ (parse : List ℕ → Option Json) (writable : ℕ → Bool) where
  -- ReadMessage; what was read is not looked at.
  unfoldable pub read : {A : Type 0} → (Option Json → Decoded A) → Session → Bool × Session
  unfolding read_message
  read decode h =
      let r = read_message parse decode h.input in (r.failed, record h { input = r.left })

  -- WriteMessage
  unfoldable pub write_greeting : Greeting → Session → Bool × Session
  write_greeting g h =
      if writable h.writes
      then (false, record h { written = h.written ++ g ∷ []; writes = suc h.writes })
      else (true, record h { writes = suc h.writes })

  -- The error of writing connection.tune is not looked at.
  unfoldable pub tune_and_open : ServerConfig → Session → Bool × Session
  unfolding unless_failed read write_greeting new_connection_tune new_connection_open_ok
      unmarshal_tune_ok unmarshal_open
  tune_and_open config h =
      let tuned =
        (write_greeting
          (tune (new_connection_tune config.channel_max config.frames_max config.heartbeat_sec))
          h).1 in
      unless_failed (read unmarshal_tune_ok tuned) (λ h1.
        unless_failed (read unmarshal_open (enter await_open h1)) (λ h2.
          unless_failed (write_greeting (open_ok new_connection_open_ok) h2)
            (λ h3. (false, enter open_state h3))))

  unfoldable pub run_handshake : ServerConfig → Session → Bool × Session
  unfolding unless_failed read_header read write_greeting new_connection_start unmarshal_start_ok
      tune_and_open
  run_handshake config h = unless_failed (read_header h) (λ h1.
      unless_failed (write_greeting (start new_connection_start) (enter await_start_ok h1)) (λ h2.
        unless_failed (read unmarshal_start_ok h2)
          (λ h3. tune_and_open config (enter await_tune_ok h3))))
