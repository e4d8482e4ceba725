-- ===== src/TorrentServer/Membership.antt =====
-- The calls by which torrent_server/ changes the tables of the swarm: messages and the unchoke round.
pub mod Loop
use pixtorrent.Prelude.{
  ℕ, ◌+◌, ◌*◌, Bool, true, false, not, Option, none, some, List, [], ◌∷◌, ◌++◌, map, Bytes,
  bytes_discrete, length, take, drop, ltb, ◌==◌, u32, is_some, if◌then◌else◌, ◌≡◌, ◌≢◌, refl, sym,
  ap, ◌∙◌, arith, All, Bool-cases, Option-cases, inl, inr, ite,
}
use pixtorrent.Prelude.Int.{ℤ, pos}
use pixtorrent.Prelude.Maps.{Map, get, put, IsMap, IsAbsent, get-put, put-IsMap, All-put, All-get}
use pixtorrent.P2p.PeerState.{PeerState, set_peer_interested, set_peer_choking}
use pixtorrent.P2p.Pieces.{verify_piece, get_piece, all_pieces_received, bitfield}
use pixtorrent.P2p.Swarm.{
  Swarm, is_choking, lookup, store, modify_state, record_upload, record_download, mark_interested,
  mark_choking, update_peer_bitfield, set_peer_has_piece,
}
use pixtorrent.P2p.Swarm.Members.{IsValid, send-id, on_peer-IsValid, modify_state-IsValid}
use pixtorrent.P2p.Swarm.Unchoke.{
  RoundInput, UnchokeAction, run_unchoke_algorithm, update_all, apply_choice,
}
use pixtorrent.P2p.Swarm.Unchoke.Apply.{lookup-apply_choice, apply_choice-IsMap, settle, occurs}
use pixtorrent.P2p.Swarm.Unchoke.Bound.{known_update_all, update_all-IsMap}
use pixtorrent.P2p.Wire.{TcpPeer, send}
use pixtorrent.TorrentServer.{
  TorrentServer, Outside, with_swarm, send_to, broadcast, handle_bitfield_announcement,
  handle_piece_request, piece_message, have_message, store_piece, finish_piece, handle_piece,
  request_pieces, send_pending_requests, dispatch, handle_rpc, send_actions, run_unchoke_round,
}
use pixtorrent.TorrentServer.Events.{
  Event, rpc, unchoke_tick, announce_tick, connection, step, loop,
}

-- A message to everyone, on the table of peers.
sent_all : Bytes → Map Bytes TcpPeer → Map Bytes TcpPeer
sent_all m = map (λ e. (e.0, (send e.1 m).0))

sent_all-IsAbsent :
    (id m : Bytes) (peers : Map Bytes TcpPeer)
    → IsAbsent bytes_discrete id peers
    → IsAbsent bytes_discrete id (sent_all m peers)
unfolding sent_all
sent_all-IsAbsent id m [] h = tt
sent_all-IsAbsent id m (e ∷ peers) h = (h.0, sent_all-IsAbsent id m peers h.1)

sent_all-IsMap :
    (m : Bytes) (peers : Map Bytes TcpPeer)
    → IsMap bytes_discrete peers
    → IsMap bytes_discrete (sent_all m peers)
unfolding sent_all
sent_all-IsMap m [] h = tt
sent_all-IsMap m ((id, p) ∷ peers) h =
    (sent_all-IsAbsent id m peers h.0, sent_all-IsMap m peers h.1)

sent_all-own_ids :
    (m : Bytes) (peers : Map Bytes TcpPeer)
    → All (λ e. e.1.id ≡ e.0) peers
    → All (λ e. e.1.id ≡ e.0) (sent_all m peers)
unfolding sent_all
sent_all-own_ids m [] h = tt
sent_all-own_ids m ((id, p) ∷ peers) h = (send-id p m ∙ h.0, sent_all-own_ids m peers h.1)

known_sent_all :
    (m id : Bytes) (peers : Map Bytes TcpPeer)
    → is_some (lookup id (sent_all m peers)) ≡ is_some (lookup id peers)
unfolding sent_all get
known_sent_all m id [] = refl
known_sent_all m id ((x, p) ∷ peers) = ground (arith, known_sent_all m id peers)

module _ {Rate : Type 0} where
  -- Only the peers and the states matter.
  pub same_tables-IsValid :
      (s t : Swarm Rate) → t.peers ≡ s.peers → t.peer_states ≡ s.peer_states → IsValid s → IsValid t
  same_tables-IsValid s t e f v = record {
    peers_map = rw e v.peers_map;
    states_map = rw f v.states_map;
    own_ids = rw e v.own_ids;
    together = λ id. rw (e, f) (v.together id);
  }

  -- A peer object that changes, and keeps its id.
  pub replaced-IsValid :
      (id : Bytes) (p q : TcpPeer) (s : Swarm Rate)
      → lookup id s.peers ≡ some p
      → q.id ≡ p.id
      → IsValid s
      → IsValid (record s { peers = store id q s.peers })
  replaced-IsValid id p q s e k v = record {
    peers_map = put-IsMap bytes_discrete id q s.peers v.peers_map;
    states_map = v.states_map;
    own_ids =
        All-put bytes_discrete (λ e. e.1.id ≡ e.0) id q s.peers
          (k ∙ All-get bytes_discrete (λ e. e.1.id ≡ e.0) id s.peers v.own_ids e) v.own_ids;
    together =
        λ other. ground (arith, get-put bytes_discrete id other q s.peers, v.together other, e);
  }

  pub send_to-IsValid : (id m : Bytes) (s : Swarm Rate) → IsValid s → IsValid (send_to id m s).0
  unfolding send_to
  send_to-IsValid id m s v = elim (Option-cases (lookup id s.peers)) [
    | inl e ↦ rw (e, send_to) v
    | inr (p, e) ↦ rw (e, send_to) (replaced-IsValid id p (send p m).0 s e (send-id p m) v)
  ]

  pub request_pieces-IsValid :
      (id : Bytes) (is : List ℕ) (s : Swarm Rate) → IsValid s → IsValid (request_pieces id is s)
  unfolding request_pieces
  request_pieces-IsValid id [] s v = v
  request_pieces-IsValid id (i ∷ is) s v = request_pieces-IsValid id is _ (send_to-IsValid id _ s v)

  send_actions-IsValid :
      (actions : List UnchokeAction) (s : Swarm Rate) → IsValid s → IsValid (send_actions actions s)
  unfolding send_actions
  send_actions-IsValid [] s v = v
  send_actions-IsValid (a ∷ actions) s v =
      send_actions-IsValid actions _ (send_to-IsValid a.peer_id _ s v)

  pub broadcast-IsValid : (m : Bytes) (s : Swarm Rate) → IsValid s → IsValid (broadcast m s)
  unfolding broadcast sent_all
  broadcast-IsValid m s v = record {
    peers_map = sent_all-IsMap m s.peers v.peers_map;
    states_map = v.states_map;
    own_ids = sent_all-own_ids m s.peers v.own_ids;
    together = λ id. known_sent_all m id s.peers ∙ v.together id;
  }

  known-apply_choice :
      (ids : List Bytes) (m : Map Bytes Bool) (states : Map Bytes (PeerState Rate))
      (actions : List UnchokeAction) (id : Bytes)
      → is_some (lookup id (apply_choice ids m states actions).0) ≡ is_some (lookup id states)
  known-apply_choice ids m states actions id =
      ap is_some (lookup-apply_choice ids m states actions id) ∙ elim (Bool-cases (occurs id ids)) [
        | inl e ↦ rw e (settled_known (lookup id states))
        | inr e ↦ rw e
      ]
    where
      settled_known : (o : Option (PeerState Rate)) → is_some (settle id m o) ≡ is_some o
      settled_known none = refl
      settled_known (some st) = refl

  run_unchoke_algorithm-IsValid :
      (env : RoundInput Rate) (s : Swarm Rate) → IsValid s → IsValid (run_unchoke_algorithm env s).0
  unfolding run_unchoke_algorithm
  run_unchoke_algorithm-IsValid env s v = record {
    peers_map = v.peers_map;
    states_map =
        apply_choice-IsMap env.action_order _ (update_all env s.peer_states) []
          (update_all-IsMap env s.peer_states v.states_map);
    own_ids = v.own_ids;
    together = λ id.
        v.together id
        ∙ sym (known_update_all env s.peer_states id)
        ∙ sym (known-apply_choice env.action_order _ (update_all env s.peer_states) [] id);
  }

  pub run_unchoke_round-IsValid :
      (env : RoundInput Rate) (ts : TorrentServer Rate)
      → IsValid ts.swarm
      → IsValid (run_unchoke_round env ts).swarm
  unfolding run_unchoke_round
  run_unchoke_round-IsValid env ts v =
      send_actions-IsValid (run_unchoke_algorithm env ts.swarm).1 _
        (run_unchoke_algorithm-IsValid env ts.swarm v)
