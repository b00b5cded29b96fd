-- ===== src/Protocol/Handshake.antt =====
-- The messages of the handshake: protocol/constructors.go, and json.Unmarshal into the messages of the
-- client in protocol/headers.go.
use golang_mq.Base.{String, true, Option, if◌then◌else◌}
use golang_mq.Base.Int.{ℤ, pos}
use golang_mq.Json.{Json, null, num, names, parse_int}
use golang_mq.Protocol.{
  server_name, protocol_version, auth_mechanism_plain, ConnectionStart, ConnectionTune,
  ConnectionOpenOk, ConnectionStartOk, ConnectionTuneOk, ConnectionOpen,
}
use golang_mq.Protocol.Unmarshal.{Decoded, fits, misfits, via, or_misfit, string_field, unmarshal}

unfoldable pub new_connection_start : ConnectionStart
new_connection_start = record {
  type = "connection.start";
  server_name = server_name;
  protocol_version = protocol_version;
  auth_mechanism = auth_mechanism_plain;
  capabilities = record { heartbeats = true };
}

unfoldable pub new_connection_start_ok : String → String → String → ConnectionStartOk
new_connection_start_ok client_name username password = record {
  type = "connection.start_ok";
  client_name = client_name;
  auth_mechanism = auth_mechanism_plain;
  username = username;
  password = password;
}

unfoldable pub new_connection_tune : ℤ → ℤ → ℤ → ConnectionTune
new_connection_tune channel_max frame_max heartbeat_sec = record {
  type = "connection.tune";
  channel_max = channel_max;
  frame_max = frame_max;
  heartbeat_sec = heartbeat_sec;
}

unfoldable pub new_connection_tune_ok : ℤ → ℤ → ℤ → ConnectionTuneOk
new_connection_tune_ok channel_max frame_max heartbeat_sec = record {
  type = "connection.tune_ok";
  channel_max = channel_max;
  frame_max = frame_max;
  heartbeat_sec = heartbeat_sec;
}

unfoldable pub new_connection_open : ConnectionOpen
new_connection_open = record { type = "connection.open" }

unfoldable pub new_connection_open_ok : ConnectionOpenOk
new_connection_open_ok = record { type = "connection.open_ok" }

int_field : Json → ℤ → Decoded ℤ
unfolding or_misfit parse_int
int_field null old = fits old
int_field (num s) old = or_misfit old (parse_int s)
int_field _ old = misfits old

set_start_ok : String → Json → ConnectionStartOk → Decoded ConnectionStartOk
unfolding string_field names
set_start_ok k j p =
    if names k "type"
    then via (λ x. record p { type = x }) (string_field j p.type)
    else if names k "client_name"
    then via (λ x. record p { client_name = x }) (string_field j p.client_name)
    else if names k "auth_mechanism"
    then via (λ x. record p { auth_mechanism = x }) (string_field j p.auth_mechanism)
    else if names k "username"
    then via (λ x. record p { username = x }) (string_field j p.username)
    else if names k "password"
    then via (λ x. record p { password = x }) (string_field j p.password)
    else fits p

unfoldable pub unmarshal_start_ok : Option Json → Decoded ConnectionStartOk
unfolding unmarshal set_start_ok
unmarshal_start_ok =
    unmarshal set_start_ok
      (record { type = ""; client_name = ""; auth_mechanism = ""; username = ""; password = "" })

set_tune_ok : String → Json → ConnectionTuneOk → Decoded ConnectionTuneOk
unfolding string_field int_field names
set_tune_ok k j p =
    if names k "type"
    then via (λ x. record p { type = x }) (string_field j p.type)
    else if names k "channel_max"
    then via (λ x. record p { channel_max = x }) (int_field j p.channel_max)
    else if names k "frame_max"
    then via (λ x. record p { frame_max = x }) (int_field j p.frame_max)
    else if names k "heartbeat_sec"
    then via (λ x. record p { heartbeat_sec = x }) (int_field j p.heartbeat_sec)
    else fits p

unfoldable pub unmarshal_tune_ok : Option Json → Decoded ConnectionTuneOk
unfolding unmarshal set_tune_ok
unmarshal_tune_ok =
    unmarshal set_tune_ok
      (record { type = ""; channel_max = pos 0; frame_max = pos 0; heartbeat_sec = pos 0 })

set_open : String → Json → ConnectionOpen → Decoded ConnectionOpen
unfolding string_field names
set_open k j p =
    if names k "type" then via (λ x. record p { type = x }) (string_field j p.type) else fits p

unfoldable pub unmarshal_open : Option Json → Decoded ConnectionOpen
unfolding unmarshal set_open
unmarshal_open = unmarshal set_open (record { type = "" })
