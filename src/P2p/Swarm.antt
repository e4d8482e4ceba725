-- ===== src/P2p/Swarm.antt =====
-- p2p/swarm.go: the peers of one torrent, their states and bitfields. Every method runs under the
-- swarm's lock, so a method is one step. A peer object is held under its id; what the program
-- prints is not modelled. The choking and the choice of pieces are in the children.
pub mod Unchoke
pub mod Rarest
pub mod Members
use pixtorrent.Prelude.{
  ℕ, suc, ◌+◌, ◌-◌, ◌*◌, ◌/◌, Bool, true, false, Option, none, some, List, [], ◌∷◌, ◌++◌, map,
  Bytes, bytes_discrete, length, replicate, is_some, ltb, if◌then◌else◌,
}
use pixtorrent.Prelude.Int.{ℤ, sub_ℕ}
use pixtorrent.Prelude.Maps.{Map, get, put, delete}
use pixtorrent.P2p.PeerState.{
  PeerState, new_peer_state, set_peer_interested, set_peer_choking, add_uploaded, add_downloaded,
}
use pixtorrent.P2p.Pieces.{PieceManager, bitfield, byte_index, mark, received_count}
use pixtorrent.P2p.Wire.{TcpPeer, SendError, send, close}

-- The message types of p2p/rpc.go.
abbrev pub msg_interested : ℕ
msg_interested = 0x01

abbrev pub msg_not_interested : ℕ
msg_not_interested = 0x02

abbrev pub msg_request_piece : ℕ
msg_request_piece = 0x03

abbrev pub msg_send_piece : ℕ
msg_send_piece = 0x04

abbrev pub msg_have : ℕ
msg_have = 0x05

abbrev pub msg_bitfield : ℕ
msg_bitfield = 0x06

abbrev pub msg_unchoke : ℕ
msg_unchoke = 0x07

abbrev pub msg_choke : ℕ
msg_choke = 0x08

-- The id of twenty zero bytes, Go's value for "no peer".
abbrev pub no_peer : Bytes
no_peer = replicate 20 0

pub record Swarm (Rate : Type 0) : Type 0 where
  pub peers : Map Bytes TcpPeer
  pub peer_states : Map Bytes (PeerState Rate)
  pub peer_bitfields : Map Bytes Bytes
  pub info_hash : Bytes
  pub pieces : PieceManager
  pub local_peer_id : Bytes
  pub optimistic_peer : Bytes
  pub unchoke_round : ℕ

pub data SwarmError : Type 0 where
  already_exists : Bytes → SwarmError
  send_failed : Bytes → SendError → SwarmError

abbrev pub lookup : {V : Type 0} → Bytes → Map Bytes V → Option V
lookup = get bytes_discrete

abbrev pub store : {V : Type 0} → Bytes → V → Map Bytes V → Map Bytes V
store = put bytes_discrete

abbrev pub remove : {V : Type 0} → Bytes → Map Bytes V → Map Bytes V
remove = delete bytes_discrete

module _ {Rate : Type 0} where
  unfoldable pub new_swarm : Bytes → Bytes → PieceManager → Swarm Rate
  new_swarm local_id info_hash pm = record {
    peers = [];
    peer_states = [];
    peer_bitfields = [];
    info_hash = info_hash;
    pieces = pm;
    local_peer_id = local_id;
    optimistic_peer = no_peer;
    unchoke_round = 0;
  }

  -- What `AddPeer` and `OnPeer` enter for a new peer.
  abbrev pub enter : Rate → ℕ → TcpPeer → Swarm Rate → Swarm Rate
  enter zero now p s = record s {
    peers = store p.id p s.peers;
    peer_states = store p.id (new_peer_state zero now) s.peer_states;
  }

  unfoldable pub add_peer : Rate → ℕ → TcpPeer → Swarm Rate → Swarm Rate × Option SwarmError
  add_peer zero now p s =
      if is_some (lookup p.id s.peers)
      then (s, some (already_exists p.id))
      else (enter zero now p s, none)

  -- The closed peer object goes with its entry.
  unfoldable pub remove_peer : Bytes → Swarm Rate → Swarm Rate
  remove_peer id s =
      if is_some (lookup id s.peers)
      then record s {
        peers = remove id s.peers;
        peer_states = remove id s.peer_states;
        peer_bitfields = remove id s.peer_bitfields;
      }
      else s

  -- The end of `OnPeer`, by the outcome of the `Send`: the object in the map holds the message,
  -- or the entries of the peer are taken out again and it is closed.
  unfoldable pub finish_join :
      Bytes → Swarm Rate → TcpPeer → Option SendError → Swarm Rate × TcpPeer × Option SwarmError
  finish_join id entered p none = (record entered { peers = store id p entered.peers }, p, none)
  finish_join id entered p (some e) = (
    record entered { peers = remove id entered.peers; peer_states = remove id entered.peer_states },
    close p,
    some (send_failed id e),
  )

  -- `OnPeer`: the new swarm, the peer object after the call, and the error.
  unfoldable pub on_peer :
      Rate → ℕ → TcpPeer → Swarm Rate → Swarm Rate × TcpPeer × Option SwarmError
  on_peer zero now p s =
      if is_some (lookup p.id s.peers)
      then (s, close p, some (already_exists p.id))
      else let sent = send p (msg_bitfield ∷ bitfield s.pieces) in
        finish_join p.id (enter zero now p s) sent.0 sent.1

  -- `Close` closes and drops every peer, and leaves the states and the bitfields.
  unfoldable pub close_all : Swarm Rate → Swarm Rate
  close_all s = record s { peers = [] }

  -- A write to the state of a peer, if there is one.
  unfoldable pub modify_state : Bytes → (PeerState Rate → PeerState Rate) → Swarm Rate → Swarm Rate
  modify_state id f s = elim (lookup id s.peer_states) [
    | none ↦ s
    | some state ↦ record s { peer_states = store id (f state) s.peer_states }
  ]

  unfoldable pub mark_interested : Bytes → Bool → Swarm Rate → Swarm Rate
  unfolding modify_state set_peer_interested
  mark_interested id v = modify_state id (set_peer_interested v)

  unfoldable pub mark_choking : Bytes → Bool → Swarm Rate → Swarm Rate
  unfolding modify_state set_peer_choking
  mark_choking id v = modify_state id (set_peer_choking v)

  unfoldable pub record_upload : Bytes → ℤ → Swarm Rate → Swarm Rate
  unfolding modify_state add_uploaded
  record_upload id n = modify_state id (add_uploaded n)

  unfoldable pub record_download : Bytes → ℤ → Swarm Rate → Swarm Rate
  unfolding modify_state add_downloaded
  record_download id n = modify_state id (add_downloaded n)

  unfoldable pub is_choking : Bytes → Swarm Rate → Bool
  is_choking id s = elim (lookup id s.peer_states) [ none ↦ true | some state ↦ state.am_choking ]

  unfoldable pub update_peer_bitfield : Bytes → Bytes → Swarm Rate → Swarm Rate
  update_peer_bitfield id field s = record s { peer_bitfields = store id field s.peer_bitfields }

  -- The bitfield of a peer, or a blank one of the torrent's size.
  abbrev pub bitfield_of : Bytes → Swarm Rate → Bytes
  bitfield_of id s = elim (lookup id s.peer_bitfields) [
    | none ↦ replicate ((s.pieces.num_pieces + 7) / 8) 0
    | some field ↦ field
  ]

  unfoldable pub set_peer_has_piece : Bytes → ℕ → Swarm Rate → Swarm Rate
  set_peer_has_piece id i s =
      let field = bitfield_of id s in
      record s {
        peer_bitfields =
            store id (if ltb (byte_index i) (length field) then mark i field else field)
              s.peer_bitfields;
      }

  unfoldable pub missing_pieces_count : Swarm Rate → ℤ
  missing_pieces_count s = sub_ℕ s.pieces.num_pieces (received_count s.pieces)
