-- ===== src/P2p/Transport/Session.antt =====
-- A whole connection between two nodes of one torrent.
use pixtorrent.Prelude.{
  suc, ℕ, Bool, true, false, none, some, List, [], ◌∷◌, ◌++◌, Bytes, length, is_some, ◌≡◌, ◌≢◌,
  refl, ap, ◌∙◌, arith, All, bytes_discrete, if◌then◌else◌, Bool-cases, inl, inr,
}
use pixtorrent.Prelude.Maps.{get-put_self}
use pixtorrent.P2p.Handshake.{build_handshake}
use pixtorrent.P2p.Handshake.Agreement.{default_handshake_agrees}
use pixtorrent.P2p.Pieces.{bitfield, equal}
use pixtorrent.P2p.Pieces.Verify.{equal_iff}
use pixtorrent.P2p.PeerState.{new_peer_state}
use pixtorrent.P2p.Swarm.{
  Swarm, lookup, store, on_peer, finish_join, enter, msg_bitfield, already_exists,
}
use pixtorrent.P2p.Transport.{
  registered, dropped, not_joined, Connection, open_conn, after_handshake, joined, set_id,
  close_conn,
}
use pixtorrent.P2p.Wire.{TcpPeer, new_tcp_peer, send, close, frame, read_loop}
use pixtorrent.P2p.Wire.Frames.{stream_of, IsSendable, delivered, read_loop-stream_of}

-- The peer object of a connection that was let in: the bitfield is queued.
abbrev pub greeted : {Rate : Type 0} → Bool → Bytes → Swarm Rate → TcpPeer
greeted outbound id s = record {
  id = id;
  outbound = outbound;
  outbox = frame (msg_bitfield ∷ bitfield s.pieces) ∷ [];
  closed = false;
}

-- A connection from a peer of the torrent, under an id that is not known yet.
module _ {Rate : Type 0} (zero_rate : Rate) (info_hash local_id id : Bytes)
    (h : length info_hash ≡ 20) (l : length local_id ≡ 20) (i : length id ≡ 20)
    (other : id ≢ local_id) (now : ℕ) (outbound : Bool) (later : Bytes) (s : Swarm Rate) where
  abbrev conn : Connection
  conn = record {
    now = now;
    write_ok = true;
    outbound = outbound;
    stream = build_handshake info_hash id ++ later;
  }

  not_own : equal id local_id ≡ false
  not_own = elim (Bool-cases (equal id local_id)) [
    | inl e ↦ absurd (other ((equal_iff id local_id).0 e))
    | inr e ↦ e
  ]

  abbrev entrant : TcpPeer
  entrant = set_id id (new_tcp_peer outbound)

  open_conn-on_peer :
      open_conn zero_rate info_hash local_id conn s
      ≡ joined (build_handshake info_hash local_id) later (on_peer zero_rate now entrant s)
  unfolding open_conn after_handshake
  open_conn-on_peer =
      ap (λ x. after_handshake zero_rate local_id conn x s)
        (default_handshake_agrees info_hash local_id id h l i other outbound later)
      ∙ rw not_own

  on_peer_known :
      is_some (lookup id s.peers) ≡ true
      → on_peer zero_rate now entrant s ≡ (s, close entrant, some (already_exists id))
  unfolding on_peer set_id
  on_peer_known known = rw known

  on_peer_unknown :
      is_some (lookup id s.peers) ≡ false
      → on_peer zero_rate now entrant s
        ≡ finish_join id (enter zero_rate now entrant s) (greeted outbound id s) none
  unfolding on_peer set_id new_tcp_peer send
  on_peer_unknown unknown = rw unknown

  -- A node of the same torrent with another id gets in, whichever side dials, unless its id is
  -- known; what it sends behind its handshake is left for the read loop, and its bitfield message
  -- is the first that it is sent. A second connection under a known id is closed.
  pub open_conn_lem : (open_conn zero_rate info_hash local_id conn s).result ≡ (
      if is_some (lookup id s.peers)
      then dropped (close (close entrant)) (not_joined (already_exists id))
      else registered (greeted outbound id s) later)
  unfolding joined finish_join
  open_conn_lem = rw open_conn-on_peer (elim (Bool-cases (is_some (lookup id s.peers))) [
    | inl known ↦ rw (on_peer_known known, known)
    | inr unknown ↦ rw (on_peer_unknown unknown, unknown)
  ])

  open_conn-entered :
      is_some (lookup id s.peers) ≡ false
      → let s' = (open_conn zero_rate info_hash local_id conn s).swarm in
        (lookup id s'.peers ≡ some (greeted outbound id s))
        × (lookup id s'.peer_states ≡ some (new_peer_state zero_rate now))
  unfolding joined finish_join set_id
  open_conn-entered unknown = rw open_conn-on_peer (
      rw (on_peer_unknown unknown) (
        get-put_self bytes_discrete id (greeted outbound id s) (store id entrant s.peers),
        get-put_self bytes_discrete id (new_peer_state zero_rate now) s.peer_states,
      ))

close_conn-lookup :
    {Rate : Type 0} (id : Bytes) (p : TcpPeer) (s : Swarm Rate)
    → lookup id s.peers ≡ some p
    → lookup id (close_conn id s).peers ≡ some (close p)
unfolding close_conn
close_conn-lookup id p s known =
    rw (known, close_conn) (get-put_self bytes_discrete id (close p) s.peers)

-- A peer whose connection has ended is not forgotten: behind the deferred `Close` its id is still
-- known, so its next connection under that id is refused as a duplicate, although it is a node of
-- the torrent whose handshake is right.
pub close_conn-open_conn :
    {Rate : Type 0} (zero_rate : Rate) (info_hash local_id id : Bytes)
    → length info_hash ≡ 20
    → length local_id ≡ 20
    → length id ≡ 20
    → id ≢ local_id
    → (now : ℕ) (outbound : Bool) (later : Bytes) (s : Swarm Rate) (p : TcpPeer)
    → lookup id s.peers ≡ some p
    → (open_conn zero_rate info_hash local_id
        (record {
          now = now;
          write_ok = true;
          outbound = outbound;
          stream = build_handshake info_hash id ++ later;
        })
        (close_conn id s)).result
      ≡ dropped (close (close (set_id id (new_tcp_peer outbound)))) (not_joined (already_exists id))
close_conn-open_conn zero_rate info_hash local_id id h l i other now outbound later s p known =
    open_conn_lem zero_rate info_hash local_id id h l i other now outbound later (close_conn id s)
    ∙ rw (close_conn-lookup id p s known)

-- The whole way of the messages between two nodes of one torrent: a node that is not known yet
-- dials or is dialled, sends its handshake and then its messages, each at most 16 MiB long. It
-- is registered with the rest of its stream, stands in the swarm's table with the bitfield message
-- in its outbox and has a fresh state; and the read loop on that rest hands exactly its messages
-- on, in order, as long as the channel has room for each.
pub open_conn-read_loop :
    {Rate : Type 0} (zero_rate : Rate) (info_hash local_id id : Bytes)
    → length info_hash ≡ 20
    → length local_id ≡ 20
    → length id ≡ 20
    → id ≢ local_id
    → (now : ℕ) (outbound : Bool) (ms : List Bytes) (s : Swarm Rate) (accepts : ℕ → Bool)
    → lookup id s.peers ≡ none
    → All IsSendable ms
    → let opened =
        open_conn zero_rate info_hash local_id
          (record {
            now = now;
            write_ok = true;
            outbound = outbound;
            stream = build_handshake info_hash id ++ stream_of ms;
          })
          s in
      (unread : Bytes) × (opened.result ≡ registered (greeted outbound id s) unread)
      × (lookup id opened.swarm.peers ≡ some (greeted outbound id s))
      × (lookup id opened.swarm.peer_states ≡ some (new_peer_state zero_rate now))
      × (read_loop (suc (length ms)) accepts 0 unread ≡ delivered accepts 0 ms)
open_conn-read_loop zero_rate info_hash local_id id h l i other now outbound ms s accepts unknown
      sendable =
    let (inside, state) =
      open_conn-entered zero_rate info_hash local_id id h l i other now outbound (stream_of ms) s
        (rw unknown refl) in
    (
      stream_of ms,
      open_conn_lem zero_rate info_hash local_id id h l i other now outbound (stream_of ms) s
          ∙ rw unknown,
      inside,
      state,
      read_loop-stream_of ms accepts 0 (suc (length ms)) sendable (omega arith),
    )
