-- ===== src/P2p/Swarm/Members.antt =====
-- The tables of p2p/swarm.go: who is in the swarm.
pub mod Join
use pixtorrent.Prelude.{
  ℕ, Bool, true, false, Option, none, some, [], ◌∷◌, ◌++◌, Bytes, is_some, bytes_discrete, ◌≡◌, ◌≢◌,
  refl, sym, ◌∙◌, arith, All, Bool-cases, Option-cases, inl, inr,
}
use pixtorrent.Prelude.Int.{ℤ}
use pixtorrent.Prelude.Maps.{
  Map, get, IsMap, get-put, get-put_self, get-put_ne, get-delete, put-IsMap, delete-IsMap, All-put,
  All-delete,
}
use pixtorrent.P2p.PeerState.{
  PeerState, new_peer_state, set_peer_interested, set_peer_choking, add_uploaded, add_downloaded,
}
use pixtorrent.P2p.Pieces.{PieceManager, bitfield}
use pixtorrent.P2p.Wire.{TcpPeer, SendError, send, close, frame}
use pixtorrent.P2p.Swarm.{
  Swarm, SwarmError, already_exists, send_failed, lookup, store, remove, enter, new_swarm, add_peer,
  remove_peer, finish_join, on_peer, mark_interested, mark_choking, record_upload, record_download,
  modify_state, msg_bitfield,
}

-- The peers and the states are kept together, and a peer stands under its own id.
pub record IsValid {Rate : Type 0} (s : Swarm Rate) : Type 0 where
  pub peers_map : IsMap bytes_discrete s.peers
  pub states_map : IsMap bytes_discrete s.peer_states
  pub own_ids : All (λ e. e.1.id ≡ e.0) s.peers
  pub together : (id : Bytes) → is_some (lookup id s.peers) ≡ is_some (lookup id s.peer_states)

pub send-id : (p : TcpPeer) (m : Bytes) → (send p m).0.id ≡ p.id
unfolding send
send-id p m = ground arith

module _ {Rate : Type 0} where
  pub new_swarm-IsValid :
      (local_id info_hash : Bytes) (pm : PieceManager)
      → IsValid {Rate = Rate} (new_swarm local_id info_hash pm)
  unfolding new_swarm get
  new_swarm-IsValid local_id info_hash pm = record {
    peers_map = tt;
    states_map = tt;
    own_ids = tt;
    together = λ id. refl;
  }

  enter-IsValid :
      (zero_rate : Rate) (now : ℕ) (p : TcpPeer) (s : Swarm Rate)
      → IsValid s
      → IsValid (enter zero_rate now p s)
  enter-IsValid zero_rate now p s v = record {
    peers_map = put-IsMap bytes_discrete p.id p s.peers v.peers_map;
    states_map =
        put-IsMap bytes_discrete p.id (new_peer_state zero_rate now) s.peer_states v.states_map;
    own_ids = All-put bytes_discrete (λ e. e.1.id ≡ e.0) p.id p s.peers refl v.own_ids;
    together = λ id. ground (
      arith,
      get-put bytes_discrete p.id id p s.peers,
      get-put bytes_discrete p.id id (new_peer_state zero_rate now) s.peer_states,
      v.together id,
    );
  }

  pub add_peer-IsValid :
      (zero_rate : Rate) (now : ℕ) (p : TcpPeer) (s : Swarm Rate)
      → IsValid s
      → IsValid (add_peer zero_rate now p s).0
  unfolding add_peer
  add_peer-IsValid zero_rate now p s v = elim (Bool-cases (is_some (lookup p.id s.peers))) [
    | inl e ↦ rw e v
    | inr e ↦ rw e (enter-IsValid zero_rate now p s v)
  ]

  -- Taking an id out of the peers and the states.
  drop_both : Bytes → Swarm Rate → Swarm Rate
  drop_both id s = record s { peers = remove id s.peers; peer_states = remove id s.peer_states }

  drop_both-IsValid : (id : Bytes) (s : Swarm Rate) → IsValid s → IsValid (drop_both id s)
  unfolding drop_both
  drop_both-IsValid id s v = record {
    peers_map = delete-IsMap bytes_discrete id s.peers v.peers_map;
    states_map = delete-IsMap bytes_discrete id s.peer_states v.states_map;
    own_ids = All-delete bytes_discrete (λ e. e.1.id ≡ e.0) id s.peers v.own_ids;
    together = λ q. ground (
      arith,
      get-delete bytes_discrete id q s.peers,
      get-delete bytes_discrete id q s.peer_states,
      v.together q,
    );
  }

  remove_peer-IsValid : (id : Bytes) (s : Swarm Rate) → IsValid s → IsValid (remove_peer id s)
  unfolding remove_peer drop_both
  remove_peer-IsValid id s v = elim (Bool-cases (is_some (lookup id s.peers))) [
    | inl e ↦
        let d = drop_both-IsValid id s v in
        rw e (record {
          peers_map = d.peers_map;
          states_map = d.states_map;
          own_ids = d.own_ids;
          together = d.together;
        })
    | inr e ↦ rw e v
  ]

  finish_join-IsValid :
      (id : Bytes) (entered : Swarm Rate) (p : TcpPeer) (failed : Option SendError)
      → IsValid entered
      → p.id ≡ id
      → is_some (lookup id entered.peer_states) ≡ true
      → IsValid (finish_join id entered p failed).0
  unfolding finish_join drop_both
  finish_join-IsValid id entered p none v own known = record {
    peers_map = put-IsMap bytes_discrete id p entered.peers v.peers_map;
    states_map = v.states_map;
    own_ids = All-put bytes_discrete (λ e. e.1.id ≡ e.0) id p entered.peers own v.own_ids;
    together = λ q. ground (arith, get-put bytes_discrete id q p entered.peers, v.together q);
  }
  finish_join-IsValid id entered p (some e) v own known = drop_both-IsValid id entered v

  pub on_peer-IsValid :
      (zero_rate : Rate) (now : ℕ) (p : TcpPeer) (s : Swarm Rate)
      → IsValid s
      → IsValid (on_peer zero_rate now p s).0
  unfolding on_peer
  on_peer-IsValid zero_rate now p s v = elim (Bool-cases (is_some (lookup p.id s.peers))) [
    | inl e ↦ rw e v
    | inr e ↦
        let sent = send p (msg_bitfield ∷ bitfield s.pieces) in
        rw e (
          finish_join-IsValid p.id (enter zero_rate now p s) sent.0 sent.1
            (enter-IsValid zero_rate now p s v) (send-id p (msg_bitfield ∷ bitfield s.pieces))
            (rw (get-put_self bytes_discrete p.id (new_peer_state zero_rate now) s.peer_states)))
  ]

  pub modify_state-IsValid :
      (id : Bytes) (f : PeerState Rate → PeerState Rate) (s : Swarm Rate)
      → IsValid s
      → IsValid (modify_state id f s)
  unfolding modify_state
  modify_state-IsValid id f s v = elim (Option-cases (lookup id s.peer_states)) [
    | inl e ↦ rw (e, modify_state) v
    | inr (st, e) ↦
        rw (e, modify_state)
          (record {
            peers_map = v.peers_map;
            states_map = put-IsMap bytes_discrete id (f st) s.peer_states v.states_map;
            own_ids = v.own_ids;
            together = λ q. ground (
              arith,
              get-put bytes_discrete id q (f st) s.peer_states,
              v.together q,
              v.together id,
            );
          })
  ]

  -- The tables stay in step under every call that changes them but `Close`: the peers and the
  -- states have the same ids, each once, and a peer stands under its own id.
  pub operations-IsValid :
      (zero_rate : Rate) (now : ℕ) (p : TcpPeer) (id : Bytes) (v : Bool) (n : ℤ) (s : Swarm Rate)
      → IsValid s
      → IsValid (add_peer zero_rate now p s).0
        × IsValid (on_peer zero_rate now p s).0
        × IsValid (remove_peer id s)
        × IsValid (mark_interested id v s)
        × IsValid (mark_choking id v s)
        × IsValid (record_upload id n s)
        × IsValid (record_download id n s)
  unfolding mark_interested mark_choking record_upload record_download
  operations-IsValid zero_rate now p id v n s h = (
    add_peer-IsValid zero_rate now p s h,
    on_peer-IsValid zero_rate now p s h,
    remove_peer-IsValid id s h,
    modify_state-IsValid id (set_peer_interested v) s h,
    modify_state-IsValid id (set_peer_choking v) s h,
    modify_state-IsValid id (add_uploaded n) s h,
    modify_state-IsValid id (add_downloaded n) s h,
  )
