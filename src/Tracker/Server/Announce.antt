-- ===== src/Tracker/Server/Announce.antt =====
-- The announce handler of tracker/server.go over the store in memory.
use pixtorrent.Prelude.{
  ℕ, true, false, Option, none, some, List, [], map, Bytes, bytes_discrete, codes, take, IsByte,
  All, if◌then◌else◌, ◌≡◌, ◌≢◌, refl, ◌∙◌, ite, if_pos, Bool-cases, inl, inr,
}
use pixtorrent.Prelude.Int.{pos, pos_part}
use pixtorrent.P2p.Pieces.{equal}
use pixtorrent.P2p.Pieces.Verify.{equal_iff}
use pixtorrent.Tracker.Memory.{
  Peer, MemoryStorage, ids_of, add_peer, get_peers, increment_completed,
}
use pixtorrent.Tracker.Memory.Listed.{listed, add_peer-listed, remove_peer-listed}
use pixtorrent.Tracker.Memory.Queries.{peers_in, get_peers_lem}
use pixtorrent.Tracker.Query.{decode_info_hash}
use pixtorrent.Tracker.Server.Others.{
  AreOthers, filter_peers-AreOthers, Says, announced_peer-Says, IsWanted, num_want-IsWanted,
}
use pixtorrent.Tracker.Server.{
  Request, PeerEntry, announced, memory_storage, is_empty, param, interval, num_want,
  announced_peer, filter_peers, convert_peers_to_list, answer_peers, answer_stopped, complete,
  handle_event, handle_announce,
}

-- A request with the three parameters that it must have, for a hash that can be read.
pub record IsComplete (r : Request) (h : Bytes) : Type 0 where
  pub has_info_hash : is_empty (param r (codes "info_hash")) ≡ false
  pub has_peer_id : is_empty (param r (codes "peer_id")) ≡ false
  pub has_port : is_empty (param r (codes "port")) ≡ false
  pub decoded : decode_info_hash (param r (codes "info_hash")) ≡ some h

-- The peer that is stored: a completed download has nothing left.
abbrev pub stored_peer : ℕ → Request → Peer
stored_peer now r =
    if equal (param r (codes "event")) (codes "completed")
    then record (announced_peer now r) { left = pos 0 }
    else announced_peer now r

module _ (now : ℕ) (r : Request) (h : Bytes) (m : MemoryStorage) (v : IsComplete r h) where
  pub handle_announce-handle_event :
      handle_announce memory_storage now r m
      ≡ handle_event memory_storage
          (param r (codes "event"))
          h
          (announced_peer now r)
          (num_want r)
          m
  unfolding handle_announce
  handle_announce-handle_event =
      rw (v.has_info_hash, v.has_peer_id, v.has_port, v.decoded, handle_announce)

  event_is : (e : Bytes) → param r (codes "event") ≡ e → equal (param r (codes "event")) e ≡ true
  event_is e = (equal_iff _ _).1

  announced_id : (announced_peer now r).id ≡ param r (codes "peer_id")
  unfolding announced_peer
  announced_id = refl

-- A peer that stops gets no peers, and is then listed under no torrent; every other peer is listed
-- as before. The request has its parameters and a hash that can be read.
pub handle_announce_stopped :
    (now : ℕ) (r : Request) (h : Bytes) (m : MemoryStorage)
    → IsComplete r h
    → param r (codes "event") ≡ codes "stopped"
    → ((handle_announce memory_storage now r m).1 ≡ announced [] interval)
      × ((g q : Bytes)
          → listed g q (handle_announce memory_storage now r m).0
            ≡ ite (bytes_discrete q (param r (codes "peer_id"))) none (listed g q m))
unfolding handle_event answer_stopped memory_storage announced_peer
handle_announce_stopped now r h m v stop = rw (handle_announce-handle_event now r h m v) (
    rw (event_is now r h m v (codes "stopped") stop)
      (refl, λ g q. remove_peer-listed g h q (param r (codes "peer_id")) m))

-- The store behind an announce that is no stop.
abbrev joined_store : ℕ → Request → Bytes → MemoryStorage → MemoryStorage
joined_store now r h m =
    if equal (param r (codes "event")) (codes "completed")
    then increment_completed h (add_peer h (stored_peer now r) m)
    else add_peer h (stored_peer now r) m

module _ (now : ℕ) (r : Request) (h : Bytes) (m : MemoryStorage) where
  add_peer_self : All IsByte h → (p : Peer) → listed h p.id (add_peer h p m) ≡ some p
  add_peer_self bytes p =
      add_peer-listed h h p.id m bytes bytes p
      ∙ rw (if_pos {C = Option Peer} (bytes_discrete p.id p.id) refl)
          (rw (if_pos {C = Option Peer} (bytes_discrete h h) refl))

  joined_store-listed :
      All IsByte h
      → listed h (param r (codes "peer_id")) (joined_store now r h m) ≡ some (stored_peer now r)
  unfolding announced_peer increment_completed listed ids_of
  joined_store-listed bytes =
      elim (Bool-cases (equal (param r (codes "event")) (codes "completed"))) [
        | inl e ↦ rw e (add_peer_self bytes (record (announced_peer now r) { left = pos 0 }))
        | inr e ↦ rw e (add_peer_self bytes (announced_peer now r))
      ]

  pub handle_event-joined :
      equal (param r (codes "event")) (codes "stopped") ≡ false
      → handle_event memory_storage
          (param r (codes "event"))
          h
          (announced_peer now r)
          (num_want r)
          m
        ≡ (
          joined_store now r h m,
          announced
              (convert_peers_to_list (
                filter_peers
                  (param r (codes "peer_id"))
                  (get_peers h (num_want r) (joined_store now r h m))))
              interval,
        )
  unfolding handle_event answer_peers complete memory_storage announced_peer
  handle_event-joined go =
      rw go (elim (Bool-cases (equal (param r (codes "event")) (codes "completed"))) [
        | inl e ↦ rw e
        | inr e ↦ rw e
      ])

-- The listing and the answer, as the handler computes them.
pub handle_announce_goes_on :
    (now : ℕ) (r : Request) (h : Bytes) (m : MemoryStorage)
    → IsComplete r h
    → All IsByte h
    → param r (codes "event") ≢ codes "stopped"
    → let m' = (handle_announce memory_storage now r m).0 in
      (listed h (param r (codes "peer_id")) m' ≡ some (stored_peer now r))
      × ((handle_announce memory_storage now r m).1
          ≡ announced
              (convert_peers_to_list (
                filter_peers
                  (param r (codes "peer_id"))
                  (take (pos_part (num_want r)) (peers_in (ids_of h m') m'))))
              interval)
handle_announce_goes_on now r h m v bytes go = rw (handle_announce-handle_event now r h m v) (
    rw (handle_event-joined now r h m (not_stopped go)) (
      joined_store-listed now r h m bytes,
      rw (get_peers_lem h (num_want r) (joined_store now r h m)),
    ))
  where
    not_stopped : {e : Bytes} → e ≢ codes "stopped" → equal e (codes "stopped") ≡ false
    not_stopped {e} ne = elim (Bool-cases (equal e (codes "stopped"))) [
      | inl same ↦ absurd (ne ((equal_iff _ _).0 same))
      | inr other ↦ other
    ]

-- What is listed of a peer: a completed download has nothing left.
abbrev pub behind_event : Bytes → Peer → Peer
behind_event event peer =
    if equal event (codes "completed") then record peer { left = pos 0 } else peer

-- An entry that names a peer.
abbrev pub entry_of : Peer → PeerEntry
entry_of p = record { peer_id = p.id; ip = p.ip; port = p.port }

-- A peer that announces itself and does not stop is listed under its torrent with what it said,
-- with nothing left if it has completed; and of the first as many known peers of the torrent as it
-- wants it gets exactly those with another id. The request has its parameters, with its numbers in
-- decimals, and a hash that can be read.
pub handle_announce_joined :
    (now : ℕ) (r : Request) (h : Bytes) (m : MemoryStorage) (peer : Peer) (wanted : ℕ)
    → IsComplete r h
    → All IsByte h
    → Says now r peer
    → IsWanted (param r (codes "numwant")) wanted
    → param r (codes "event") ≢ codes "stopped"
    → let m' = (handle_announce memory_storage now r m).0 in
      (listed h peer.id m' ≡ some (behind_event (param r (codes "event")) peer))
      × ((got : List PeerEntry) × ((handle_announce memory_storage now r m).1 ≡ announced got 1800)
          × AreOthers entry_of peer.id (take wanted (peers_in (ids_of h m') m')) got)
unfolding convert_peers_to_list
handle_announce_joined now r h m peer wanted v bytes says wants go =
    let m' = (handle_announce memory_storage now r m).0 in
    let known = take wanted (peers_in (ids_of h m') m') in
    let (stored, answer) =
      rw
        (says.id_said, announced_peer-Says now r peer says, num_want-IsWanted r _ wanted refl wants)
        at (handle_announce_goes_on now r h m v bytes go) in
    (
      stored,
      (
        map entry_of (filter_peers peer.id known),
        answer,
        filter_peers-AreOthers entry_of peer.id known,
      ),
    )
