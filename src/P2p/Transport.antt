-- ===== src/P2p/Transport.antt =====
-- `handleConn` of p2p/tcp_transport.go: the life of one connection. The goroutine shares nothing
-- with others but the swarm, the RPC channel and the socket, so its three parts are separate
-- functions between which other steps may stand: opening (up to `OnPeer`), the read loop
-- (`read_loop` of Wire), and the deferred `Close`. `Handshake` and `OnPeer` are set, as the
-- torrent server sets them.
pub mod Session
use pixtorrent.Prelude.{
  ℕ, Bool, true, false, Option, none, some, List, [], ◌∷◌, Bytes, if◌then◌else◌,
}
use pixtorrent.P2p.Handshake.{
  Outcome, accepted, unexpected_protocol, infohash_mismatch, connected_to_self, read_error,
  write_error, panic, Exchange, default_handshake,
}
use pixtorrent.P2p.Pieces.{equal}
use pixtorrent.P2p.Swarm.{Swarm, SwarmError, on_peer, lookup, store}
use pixtorrent.P2p.Wire.{TcpPeer, new_tcp_peer, close}

-- `SetID` of the peer.
unfoldable pub set_id : Bytes → TcpPeer → TcpPeer
set_id id p = record p { id = id }

pub data Refusal : Type 0 where
  bad_handshake : Outcome → Refusal
  own_id : Refusal
  not_joined : SwarmError → Refusal

-- How the opening of a connection ends: the process is gone, the connection is dropped, or the
-- peer is registered and the bytes behind its handshake are unread. The swarm stands in Opening.
pub data Opened : Type 0 where
  crashed : Opened
  dropped : TcpPeer → Refusal → Opened
  registered : TcpPeer → Bytes → Opened

pub record Opening (Rate : Type 0) : Type 0 where
  pub swarm : Swarm Rate
  pub result : Opened
  pub written : Bytes

-- What both sides of the connection bring: the clock, whether the write succeeds, and all bytes
-- that the peer sends.
pub record Connection : Type 0 where
  pub now : ℕ
  pub write_ok : Bool
  pub outbound : Bool
  pub stream : Bytes

module _ {Rate : Type 0} where
  -- The result of `OnPeer`.
  unfoldable pub joined : Bytes → Bytes → Swarm Rate × TcpPeer × Option SwarmError → Opening Rate
  joined written unread (s, p, none) = record {
    swarm = s;
    result = registered p unread;
    written = written;
  }
  joined written unread (s, p, some e) = record {
    swarm = s;
    result = dropped (close p) (not_joined e);
    written = written;
  }

  -- From the handshake's outcome on.
  unfoldable pub after_handshake : Rate → Bytes → Connection → Exchange → Swarm Rate → Opening Rate
  unfolding joined
  after_handshake zero local_id conn exchange s =
      let peer = new_tcp_peer conn.outbound in
      let refuse : Refusal → Opening Rate = λ why. record {
        swarm = s;
        result = dropped (close peer) why;
        written = exchange.written;
      } in
      elim exchange.outcome [
        | panic ↦ record { swarm = s; result = crashed; written = exchange.written }
        | accepted id ↦
            if equal id local_id
            then record {
              swarm = s;
              result = dropped (close (set_id id peer)) own_id;
              written = exchange.written;
            }
            else joined exchange.written exchange.unread (on_peer zero conn.now (set_id id peer) s)
        | unexpected_protocol ↦ refuse (bad_handshake unexpected_protocol)
        | infohash_mismatch ↦ refuse (bad_handshake infohash_mismatch)
        | connected_to_self ↦ refuse (bad_handshake connected_to_self)
        | read_error ↦ refuse (bad_handshake read_error)
        | write_error ↦ refuse (bad_handshake write_error)
      ]

  unfoldable pub open_conn : Rate → Bytes → Bytes → Connection → Swarm Rate → Opening Rate
  unfolding after_handshake default_handshake
  open_conn zero info_hash local_id conn s =
      after_handshake zero local_id conn
        (default_handshake conn.write_ok info_hash local_id conn.outbound conn.stream) s

  -- The deferred `Close` on the object that the swarm's table holds. The table keeps the entry:
  -- nothing calls `RemovePeer`.
  unfoldable pub close_conn : Bytes → Swarm Rate → Swarm Rate
  close_conn id s = elim (lookup id s.peers) [
    | none ↦ s
    | some p ↦ record s { peers = store id (close p) s.peers }
  ]
