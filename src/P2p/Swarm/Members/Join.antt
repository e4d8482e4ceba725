-- ===== src/P2p/Swarm/Members/Join.antt =====
-- How `OnPeer` of p2p/swarm.go ends.
use pixtorrent.Prelude.{
  ℕ, true, false, Option, none, some, [], ◌∷◌, ◌++◌, Bytes, is_some, bytes_discrete, ◌≡◌, ◌≢◌, refl,
  sym, ◌∙◌, arith, Bool-cases, inl, inr,
}
use pixtorrent.Prelude.Maps.{Map, get-put, get-put_self, get-put_ne, get-delete}
use pixtorrent.P2p.PeerState.{new_peer_state}
use pixtorrent.P2p.Pieces.{bitfield}
use pixtorrent.P2p.Wire.{TcpPeer, SendError, send, close, frame}
use pixtorrent.P2p.Swarm.{
  Swarm, SwarmError, already_exists, send_failed, lookup, store, remove, enter, finish_join,
  on_peer, msg_bitfield,
}
use pixtorrent.P2p.Swarm.Members.{IsValid}

-- A swarm with the entries of one peer taken out reads as before where it was not known.
forgotten :
    {V : Type 0} (id : Bytes) (v : V) (m : Map Bytes V)
    → lookup id m ≡ none
    → (q : Bytes) → lookup q (remove id (store id v m)) ≡ lookup q m
forgotten id v m absent q =
    ground (arith, get-delete bytes_discrete id q (store id v m), get-put bytes_discrete id q v m)

-- The two tables read alike at an id.
abbrev pub SameAt : {Rate : Type 0} → Bytes → Swarm Rate → Swarm Rate → Type 0
SameAt q s' s =
    (lookup q s'.peers ≡ lookup q s.peers) × (lookup q s'.peer_states ≡ lookup q s.peer_states)

-- The three outcomes of `on_peer`, each with what is then true.
pub data Joined {Rate : Type 0} (zero_rate : Rate) (now : ℕ) (p : TcpPeer) (s : Swarm Rate)
    : Swarm Rate × TcpPeer × Option SwarmError → Type 0 where
  duplicate :
      is_some (lookup p.id s.peers) ≡ true
      → Joined zero_rate now p s (s, close p, some (already_exists p.id))
  joined :
      {s' : Swarm Rate} {p' : TcpPeer}
      → lookup p.id s.peers ≡ none
      → lookup p.id s'.peers ≡ some p'
      → p'.outbox ≡ p.outbox ++ frame (msg_bitfield ∷ bitfield s.pieces) ∷ []
      → lookup p.id s'.peer_states ≡ some (new_peer_state zero_rate now)
      → ((q : Bytes) → q ≢ p.id → SameAt q s' s)
      → Joined zero_rate now p s (s', p', none)
  refused :
      {s' : Swarm Rate} {e : SendError}
      → lookup p.id s.peers ≡ none
      → (send p (msg_bitfield ∷ bitfield s.pieces)).1 ≡ some e
      → ((q : Bytes) → SameAt q s' s)
      → Joined zero_rate now p s
          (s', close (send p (msg_bitfield ∷ bitfield s.pieces)).0, some (send_failed p.id e))

send-outbox :
    (p : TcpPeer) (m : Bytes) → (send p m).1 ≡ none → (send p m).0.outbox ≡ p.outbox ++ frame m ∷ []
unfolding send
send-outbox p m h = ground arith

module _ {Rate : Type 0} (zero_rate : Rate) (now : ℕ) (p : TcpPeer) (s : Swarm Rate) where
  abbrev greeting : TcpPeer × Option SendError
  greeting = send p (msg_bitfield ∷ bitfield s.pieces)

  finish_join-Joined :
      (failed : Option SendError)
      → greeting.1 ≡ failed
      → lookup p.id s.peers ≡ none
      → lookup p.id s.peer_states ≡ none
      → Joined zero_rate now p s (finish_join p.id (enter zero_rate now p s) greeting.0 failed)
  unfolding finish_join
  finish_join-Joined none sent absent stateless =
      let fresh = new_peer_state zero_rate now in
      joined absent (get-put_self bytes_discrete p.id greeting.0 (store p.id p s.peers))
        (send-outbox p (msg_bitfield ∷ bitfield s.pieces) sent)
        (get-put_self bytes_discrete p.id fresh s.peer_states)
        (λ q ne. (
          get-put_ne bytes_discrete p.id q greeting.0 (store p.id p s.peers) ne
              ∙ get-put_ne bytes_discrete p.id q p s.peers ne,
          get-put_ne bytes_discrete p.id q fresh s.peer_states ne,
        ))
  finish_join-Joined (some e) sent absent stateless = refused absent sent (λ q. (
    forgotten p.id p s.peers absent q,
    forgotten p.id (new_peer_state zero_rate now) s.peer_states stateless q,
  ))

none_of_not_some : {A : Type 0} (o : Option A) → is_some o ≡ false → o ≡ none
none_of_not_some none h = refl
none_of_not_some (some a) h = cc

-- What `on_peer` does with a connection. A second one under a known id is closed and changes
-- nothing. A new peer enters with its bitfield message queued behind what its outbox held, with
-- a fresh state, and no other peer is touched. Where the message cannot be queued every peer
-- reads as before, and the connection is closed.
pub on_peer-Joined :
    {Rate : Type 0} (zero_rate : Rate) (now : ℕ) (p : TcpPeer) (s : Swarm Rate)
    → IsValid s
    → Joined zero_rate now p s (on_peer zero_rate now p s)
unfolding on_peer
on_peer-Joined zero_rate now p s v = elim (Bool-cases (is_some (lookup p.id s.peers))) [
  | inl e ↦ rw e (duplicate e)
  | inr e ↦ rw e (
      finish_join-Joined zero_rate now p s _ refl (none_of_not_some _ e)
        (none_of_not_some _ (sym (v.together p.id) ∙ e)))
]
