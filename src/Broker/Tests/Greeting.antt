-- ===== src/Broker/Tests/Greeting.antt =====
-- A handshake that succeeds, and one that stops at a header of another protocol.
use golang_mq.Base.{ℕ, ◌≡◌, ◌≢◌, refl, Bool, true, false, Option, some, List, [], ◌∷◌, ◌++◌}
use golang_mq.Base.Int.{pos}
use golang_mq.Json.{Json, obj, end}
use golang_mq.Protocol.Handshake.{new_connection_start, new_connection_tune, new_connection_open_ok}
use golang_mq.Broker.State.{open_state, await_protocol_header}
use golang_mq.Broker.Handshake.{ServerConfig, Session, start, tune, open_ok, fresh, run_handshake}
use golang_mq.Broker.Handshake.Opening.{Opens, run_handshake-Opens, run_handshake-refuses}

-- Every line is read as an empty object.
abbrev parse : List ℕ → Option Json
parse s = some (obj end)

abbrev writable : ℕ → Bool
writable n = true

abbrev config : ServerConfig
config = record { channel_max = pos 10; frames_max = pos 10372; heartbeat_sec = pos 10 }

abbrev empty_object : List ℕ
empty_object = b'{' ∷ b'}' ∷ b'\n' ∷ []

abbrev hello : List ℕ
hello =
    b'G' ∷ b'O' ∷ b'M' ∷ b'Q' ∷ b'/' ∷ b'1' ∷ b'\n' ∷ empty_object ++ empty_object ++ empty_object

abbrev stranger : List ℕ
stranger = b'H' ∷ b'T' ∷ b'T' ∷ b'P' ∷ b'\n' ∷ []

abbrev greeted : Session
greeted = record {
  state = open_state;
  input = [];
  written =
      start new_connection_start
      ∷ tune (new_connection_tune (pos 10) (pos 10372) (pos 10))
      ∷ open_ok new_connection_open_ok
      ∷ [];
  writes = 3;
}

run_handshake-Opens_example : Opens parse writable config hello greeted
run_handshake-Opens_example = run_handshake-Opens parse writable config hello greeted run
  where
    run : run_handshake parse writable config (fresh hello) ≡ (false, greeted)
    run = unfold run_handshake in refl

run_handshake-refuses_example : await_protocol_header ≢ open_state
run_handshake-refuses_example = run_handshake-refuses parse writable config stranger (fresh []) run
  where
    run : run_handshake parse writable config (fresh stranger) ≡ (true, fresh [])
    run = unfold run_handshake in refl
