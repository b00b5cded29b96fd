-- ===== src/Broker/Connections/Closing.antt =====
-- ChannelClose of broker/connection.go and the end of a connection in broker/server.go.
use mathlib.Core.List.Perm
use golang_mq.Base.{
  ℕ, ◌≡◌, refl, true, false, none, some, List, [], ◌∷◌, arith, nat_beq, nat_beq_iff, nat_eq, Perm,
  inl, inr, Bool-cases, Option-cases, ◌∙◌,
}
use golang_mq.Base.Map.{values, member, lookup, delete, remove, lookup-delete}
use golang_mq.Base.Map.Laws.{beq_refl, member-remove}
use golang_mq.Base.Map.Members.{member-perm}
use golang_mq.Base.Map.Perms.{values-perm}
use golang_mq.Protocol.{Envelope}
use golang_mq.Broker.Range.{Range}
use golang_mq.Broker.State.{Server, count, set_connection, channel_close_ok, connections_closed}
use golang_mq.Broker.State.Updates.{nat_beq_refl}
use golang_mq.Broker.Queues.Held.{held}
use golang_mq.Broker.Channels.{cleanup}
use golang_mq.Broker.Channels.Cleanup.{cleanup-keeps, channel-cleanup, member-cleanup}
use golang_mq.Broker.Connections.{answer, close_channel, cleanup_channels, disconnect}
use golang_mq.Broker.Invariant.{IsWell, Spares-IsWell, write-IsWell}

-- From `s` to `s'` no queue gains or loses a message, and the invariant is kept.
pub record Conserves (s s' : Server) : Type 0 where
  pub well : IsWell s'
  pub messages : (j : ℕ) → Perm (held s' j) (held s j)

-- None of the consumers of the channel is registered with a queue.
abbrev pub IsGone : ℕ → Server → Server → Type 0
IsGone h s s' =
    (k j : ℕ)
    → member k (values (s.channel h).consumers) ≡ true
    → member k (s'.queue j).consumers ≡ false

module _ (range : Range) where
  cleanup_channels-Conserves :
      (hs : List ℕ) (s : Server) → IsWell s → Conserves s (cleanup_channels range hs s)
  unfolding cleanup_channels
  cleanup_channels-Conserves [] s w = record { well = w; messages = λ j. Perm.rfl }
  cleanup_channels-Conserves (h ∷ hs) s w =
      let (w', kept, gone) = cleanup-keeps range h s w in
      let rest = cleanup_channels-Conserves hs (cleanup range h s) w' in
      record { well = rest.well; messages = λ j. Perm.trans (rest.messages j) (kept j) }

  member-cleanup_channels :
      (hs : List ℕ) (s : Server) (j k : ℕ)
      → member k ((cleanup_channels range hs s).queue j).consumers ≡ true
      → member k (s.queue j).consumers ≡ true
  unfolding cleanup_channels
  member-cleanup_channels [] s j k h = h
  member-cleanup_channels (x ∷ hs) s j k h =
      member-cleanup range x s j k (member-cleanup_channels hs (cleanup range x s) j k h)

  cleanup_channels-IsGone :
      (hs : List ℕ) (s : Server)
      → IsWell s
      → (h : ℕ) → member h hs ≡ true
      → IsGone h s (cleanup_channels range hs s)
  unfolding cleanup_channels member
  cleanup_channels-IsGone [] s w h m k j on = cc
  cleanup_channels-IsGone (x ∷ hs) s w h m k j on = elim (Bool-cases (nat_beq x h)) [
    | inl here ↦
        elim (Bool-cases
          (member k ((cleanup_channels range hs (cleanup range x s)).queue j).consumers)) [
            | inl there ↦ cc (
              member-cleanup_channels hs (cleanup range x s) j k there,
              (cleanup-keeps range x s w).2 k j (rw ((nat_beq_iff x h).0 here) on),
            )
            | inr absent ↦ absent
          ]
    | inr other ↦
        cleanup_channels-IsGone hs (cleanup range x s) (cleanup-keeps range x s w).0 h
          (ground arith) k j (rw (channel-cleanup range x s).0 on)
  ]

  module _ (n : ℕ) (env : Envelope) (s : Server) where
    -- The server once the connection has dropped the channel from its map.
    abbrev pub dropped_from : Server
    dropped_from =
        set_connection n
          (record (s.connection n) { channels = delete env.channel_id (s.connection n).channels }) s

    dropped-IsWell : IsWell s → IsWell dropped_from
    dropped-IsWell = Spares-IsWell {s = s} (record {
      registered = λ i. refl;
      names = λ i. refl;
      consumers = λ k. refl;
      queues = refl;
      later = omega arith;
    })

    close_unknown :
        lookup env.channel_id (s.connection n).channels ≡ none
        → close_channel range n env s
          ≡ answer n env.channel_id env (channel_close_ok env.channel_id) dropped_from
    unfolding close_channel
    close_unknown e = rw (e, close_channel)

    close_known :
        (h : ℕ)
        → lookup env.channel_id (s.connection n).channels ≡ some h
        → close_channel range n env s
          ≡ answer n env.channel_id env
              (channel_close_ok env.channel_id)
              (cleanup range h dropped_from)
    unfolding close_channel
    close_known h e = rw (e, close_channel)

    dropped_lookup : lookup env.channel_id (dropped_from.connection n).channels ≡ none
    dropped_lookup = rw (nat_beq_refl n) (
        lookup-delete env.channel_id env.channel_id (s.connection n).channels
        ∙ rw (beq_refl env.channel_id))

    -- Closing a channel loses no message and makes none up, the consumers of the channel leave their
    -- queues, and the id leads to no channel any more.
    pub record Closes (s' : Server) : Type 0 where
      pub conserves : Conserves s s'
      pub gone : (h : ℕ) → lookup env.channel_id (s.connection n).channels ≡ some h → IsGone h s s'
      pub unknown : lookup env.channel_id (s'.connection n).channels ≡ none

    -- If the invariant holds, closing a channel keeps it, loses no message of any queue and makes
    -- none up; the consumers of the channel are registered with no queue afterwards, and its id
    -- leads to no channel of the connection.
    pub close_channel-Closes : IsWell s → Closes (close_channel range n env s)
    unfolding answer held
    close_channel-Closes w = elim (Option-cases (lookup env.channel_id (s.connection n).channels)) [
      | inl e ↦ rw (close_unknown e) (record {
        conserves = record { well = write-IsWell _ (dropped-IsWell w); messages = λ j. Perm.rfl };
        gone = λ h f. cc (e, f);
        unknown = dropped_lookup;
      })
      | inr (h, e) ↦
          let (w', kept, left) = cleanup-keeps range h dropped_from (dropped-IsWell w) in
          rw (close_known h e) (record {
            conserves = record { well = write-IsWell _ w'; messages = kept };
            gone = λ l f. let p : h ≡ l = ground arith in λ k j on. left k j (rw p on);
            unknown = rw (channel-cleanup range h dropped_from).1 dropped_lookup;
          })
    ]

  module _ (n : ℕ) (s : Server) where
    -- The server once the connection is counted and marked as closed.
    abbrev closed_at : Server
    closed_at =
        set_connection n (record (s.connection n) { closed = true }) (count connections_closed s)

    abbrev closing : List ℕ
    closing = values (range.visit _ (s.connection n).channels)

    closed_at-IsWell : IsWell s → IsWell closed_at
    closed_at-IsWell = Spares-IsWell {s = s} (record {
      registered = λ i. refl;
      names = λ i. refl;
      consumers = λ k. refl;
      queues = refl;
      later = omega arith;
    })

    disconnect_steps : disconnect range n s ≡ (
        let s' = cleanup_channels range closing closed_at in
        record s' { connections = remove n s'.connections })
    unfolding disconnect
    disconnect_steps = rw (nat_beq_refl n)

    -- When a connection ends no message is lost or made up, the consumers of all its channels leave
    -- their queues, and the server forgets the connection.
    pub record Ends (s' : Server) : Type 0 where
      pub conserves : Conserves s s'
      pub gone : (h : ℕ) → member h (values (s.connection n).channels) ≡ true → IsGone h s s'
      pub forgotten : member n s'.connections ≡ false

    -- If the invariant holds, the end of a connection keeps it, loses no message of any queue and
    -- makes none up; the consumers of all channels of the connection are registered with no queue
    -- afterwards, and the server forgets the connection.
    pub disconnect-Ends : IsWell s → Ends (disconnect range n s)
    unfolding held
    disconnect-Ends w =
        let kept = cleanup_channels-Conserves closing closed_at (closed_at-IsWell w) in
        rw disconnect_steps (record {
          conserves = record { well = forgets kept.well; messages = kept.messages };
          gone = λ h on.
              cleanup_channels-IsGone closing closed_at (closed_at-IsWell w) h
                (member-perm h (values-perm (range.visit-perm _ (s.connection n).channels)) ∙ on);
          forgotten = member-remove n _;
        })
      where
        forgets :
            {t : Server} → IsWell t → IsWell (record t { connections = remove n t.connections })
        forgets {t} = Spares-IsWell {s = t} (record {
          registered = λ i. refl;
          names = λ i. refl;
          consumers = λ k. refl;
          queues = refl;
          later = omega arith;
        })
