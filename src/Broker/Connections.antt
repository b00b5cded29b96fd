-- ===== src/Broker/Connections.antt =====
-- broker/connection.go and broker/server.go: the envelopes of a connection, which is given by its
-- address, and its beginning and end.
pub mod Closing
pub mod Reopening
use golang_mq.Base.{ℕ, suc, true, false, none, some, List, [], ◌∷◌, nat_eq}
use golang_mq.Base.Map.{values, add, remove, lookup, insert, delete}
use golang_mq.Protocol.{Method, Envelope, channel_open, channel_close}
use golang_mq.Protocol.Unmarshal.{unmarshal_channel_open}
use golang_mq.Broker.Range.{Range}
use golang_mq.Broker.State.{
  Server, await_protocol_header, channel_not_open, Reply, channel_open_ok, channel_close_ok,
  failure, connections_opened, connections_closed, update, set_connection, count, write,
}
use golang_mq.Broker.Channels.{cleanup, route}

-- WriteEnvelope on the connection `n`.
unfoldable pub answer : ℕ → ℕ → Envelope → Reply → Server → Server
answer n channel_id env r s =
    write (record { conn = n; channel_id = channel_id; request_id = env.request_id; reply = r }) s

-- ChannelOpen: the new channel takes the place of one with the same id.
unfoldable pub open_channel : ℕ → Envelope → Server → Server
unfolding insert answer
open_channel n env s =
    let id = (unmarshal_channel_open env.payload).value.id in
    let h = s.next in
    let c = s.connection n in
    answer n 0 env (channel_open_ok id) (record s {
      channel = update h (record { id = id; conn = n; consumers = [] }) s.channel;
      next = suc h;
      connection = update n (record c { channels = insert id h c.channels }) s.connection;
    })

module _ (range : Range) where
  -- ChannelClose, by the id in the envelope.
  unfoldable pub close_channel : ℕ → Envelope → Server → Server
  unfolding lookup delete cleanup answer
  close_channel n env s =
      let id = env.channel_id in
      let c = s.connection n in
      let s' = set_connection n (record c { channels = delete id c.channels }) s in
      answer n id env (channel_close_ok id)
        (elim (lookup id c.channels) [ none ↦ s' | some h ↦ cleanup range h s' ])

  unfoldable pub route_to_channel : ℕ → Envelope → Server → Server
  unfolding lookup answer route
  route_to_channel n env s = elim (lookup env.channel_id (s.connection n).channels) [
    | none ↦ answer n env.channel_id env (failure channel_not_open) s
    | some h ↦ route range h env s
  ]

  -- The switch of handle, on the type of the envelope.
  unfoldable pub handle_type : Method → ℕ → Envelope → Server → Server
  unfolding open_channel close_channel route_to_channel
  handle_type channel_open n env s = open_channel n env s
  handle_type channel_close n env s = close_channel n env s
  handle_type _ n env s = route_to_channel n env s

  unfoldable pub handle : ℕ → Envelope → Server → Server
  unfolding handle_type
  handle n env s = handle_type env.type n env s

  unfoldable pub cleanup_channels : List ℕ → Server → Server
  unfolding cleanup
  cleanup_channels [] s = s
  cleanup_channels (h ∷ hs) s = cleanup_channels hs (cleanup range h s)

  -- The deferred function of HandleConnection: shutdown, cleanup, and the connection is forgotten.
  unfoldable pub disconnect : ℕ → Server → Server
  unfolding remove cleanup_channels
  disconnect n s =
      let s' =
        set_connection n (record (s.connection n) { closed = true }) (count connections_closed s) in
      let s'' = cleanup_channels (values (range.visit _ (s'.connection n).channels)) s' in
      record s'' { connections = remove n s''.connections }

-- The beginning of HandleConnection: NewConnection, at the address that `next` gives.
unfoldable pub connect : Server → Server
unfolding add
connect s =
    let n = s.next in
    count connections_opened (record s {
      connection =
          update n (record { state = await_protocol_header; channels = []; closed = false })
            s.connection;
      next = suc n;
      connections = add n s.connections;
    })
