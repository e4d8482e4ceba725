-- ===== src/Tracker/Memory/Listed.antt =====
-- Who is listed under a torrent in tracker/memory_storage.go, and what announcing and leaving
-- change.
use pixtorrent.Prelude.{
  Option, none, some, Bytes, bytes_discrete, IsByte, All, if◌then◌else◌, is_some, ◌≡◌, ◌≢◌, refl,
  ap, ◌∙◌, subst, arith, ite, if_pos, if_neg, Option-cases, inl, inr,
}
use pixtorrent.Prelude.Maps.{
  Map, get, put, delete, IsMap, get-put, get-put_self, get-put_ne, get-delete, put-IsMap,
  delete-IsMap, All-put, All-delete, All-get,
}
use pixtorrent.Tracker.Hex.{encode_to_string, encode_to_string_inj}
use pixtorrent.Tracker.Memory.{Peer, MemoryStorage, IdSet, ids_of, add_peer, remove_peer}

-- The entry of peer `q` that a request for torrent `g` can see.
unfoldable pub listed : Bytes → Bytes → MemoryStorage → Option Peer
listed g q m =
    if is_some (get bytes_discrete q (ids_of g m)) then get bytes_discrete q m.peers else none

-- The set of a torrent behind a write to that of another, or to its own.
pub ids_of-put_self :
    (g : Bytes) (ids : IdSet) (others : Map Bytes Peer) (m : MemoryStorage)
    → ids_of g (record m {
      peers = others;
      torrents = put bytes_discrete (encode_to_string g) ids m.torrents;
    })
      ≡ ids
unfolding ids_of
ids_of-put_self g ids others m =
    rw (get-put_self bytes_discrete (encode_to_string g) ids m.torrents, ids_of)

pub ids_of-put_ne :
    (g h : Bytes) (ids : IdSet) (others : Map Bytes Peer) (m : MemoryStorage)
    → encode_to_string g ≢ encode_to_string h
    → ids_of g (record m {
      peers = others;
      torrents = put bytes_discrete (encode_to_string h) ids m.torrents;
    })
      ≡ ids_of g m
unfolding ids_of
ids_of-put_ne g h ids others m ne =
    rw (
      get-put_ne bytes_discrete (encode_to_string h) (encode_to_string g) ids m.torrents ne,
      ids_of,
    )

module _ (g h q : Bytes) (m : MemoryStorage) where
  pub ids_of-add_peer :
      All IsByte g
      → All IsByte h
      → (p : Peer)
      → ids_of g (add_peer h p m)
        ≡ ite (bytes_discrete g h) (put bytes_discrete p.id tt (ids_of g m)) (ids_of g m)
  unfolding add_peer
  ids_of-add_peer a b p = elim (bytes_discrete g h) [
    | yes e ↦ rw (if_pos (bytes_discrete g h) e) (
        subst (λ k. ids_of g (add_peer k p m) ≡ put bytes_discrete p.id tt (ids_of g m)) e
          (ids_of-put_self g (put bytes_discrete p.id tt (ids_of g m))
            (put bytes_discrete p.id p m.peers) m))
    | no ne ↦ rw (if_neg (bytes_discrete g h) ne) (
        ids_of-put_ne g h (put bytes_discrete p.id tt (ids_of h m))
          (put bytes_discrete p.id p m.peers) m (λ e. ne (encode_to_string_inj g h a b e)))
  ]

  add_peer-peers :
      (p : Peer)
      → get bytes_discrete q (add_peer h p m).peers
        ≡ ite (bytes_discrete q p.id) (some p) (get bytes_discrete q m.peers)
  unfolding add_peer
  add_peer-peers p = get-put bytes_discrete p.id q p m.peers

  -- What an announce changes: the peer stands with its new data under the torrent, and also under
  -- every other torrent where its id stood; no other peer is affected. The hashes are bytes.
  pub add_peer-listed :
      All IsByte g
      → All IsByte h
      → (p : Peer)
      → listed g q (add_peer h p m)
        ≡ ite
            (bytes_discrete q p.id)
            (ite
              (bytes_discrete g h)
              (some p)
              (if is_some (get bytes_discrete q (ids_of g m)) then some p else none))
            (listed g q m)
  unfolding listed
  add_peer-listed a b p = ground (
    arith,
    ap (get bytes_discrete q) (ids_of-add_peer a b p),
    get-put bytes_discrete p.id q tt (ids_of g m),
    add_peer-peers p,
  )

pub set_of :
    (g h : Bytes) (ids : IdSet) (m : MemoryStorage)
    → encode_to_string g ≡ encode_to_string h
    → get bytes_discrete (encode_to_string h) m.torrents ≡ some ids
    → ids_of g m ≡ ids
unfolding ids_of
set_of g h ids m e known = rw (ap (λ k. get bytes_discrete k m.torrents) e ∙ known, ids_of)

-- The write that taking an id out of the set of torrent `h` is, seen at torrent `g`.
delete-ids_of :
    (g h q r : Bytes) (ids : IdSet) (others : Map Bytes Peer) (m : MemoryStorage)
    → q ≢ r
    → get bytes_discrete (encode_to_string h) m.torrents ≡ some ids
    → get bytes_discrete q (
        ids_of g (record m {
          peers = others;
          torrents =
              put bytes_discrete (encode_to_string h) (delete bytes_discrete r ids) m.torrents;
        }))
      ≡ get bytes_discrete q (ids_of g m)
delete-ids_of g h q r ids others m ne known =
    elim (bytes_discrete (encode_to_string g) (encode_to_string h)) [
      | yes e ↦
          let there = set_of g h ids m e known in
          let now =
            subst
              (λ k.
                ids_of g (record m {
                  peers = others;
                  torrents = put bytes_discrete k (delete bytes_discrete r ids) m.torrents;
                })
                ≡ delete bytes_discrete r ids)
              e (ids_of-put_self g (delete bytes_discrete r ids) others m) in
          rw (now, there) (get-delete bytes_discrete r q ids ∙ rw (if_neg (bytes_discrete q r) ne))
      | no other ↦
          ap (get bytes_discrete q) (ids_of-put_ne g h (delete bytes_discrete r ids) others m other)
    ]

ids_of-remove_peer :
    (g h q r : Bytes) (m : MemoryStorage)
    → q ≢ r
    → get bytes_discrete q (ids_of g (remove_peer h r m)) ≡ get bytes_discrete q (ids_of g m)
unfolding remove_peer
ids_of-remove_peer g h q r m ne =
    elim (Option-cases (get bytes_discrete (encode_to_string h) m.torrents)) [
      | inl e ↦ rw e (unfold ids_of in refl)
      | inr (ids, e) ↦ rw e (delete-ids_of g h q r ids (delete bytes_discrete r m.peers) m ne e)
    ]

remove_peer-peers :
    (h q r : Bytes) (m : MemoryStorage)
    → get bytes_discrete q (remove_peer h r m).peers
      ≡ ite (bytes_discrete q r) none (get bytes_discrete q m.peers)
unfolding remove_peer
remove_peer-peers h q r m = get-delete bytes_discrete r q m.peers

-- What leaving changes: a peer that leaves one torrent is listed under no torrent any more, and
-- every other peer is listed as before.
pub remove_peer-listed :
    (g h q r : Bytes) (m : MemoryStorage)
    → listed g q (remove_peer h r m) ≡ ite (bytes_discrete q r) none (listed g q m)
unfolding listed
remove_peer-listed g h q r m = elim (bytes_discrete q r) [
  | yes e ↦
      let gone : get bytes_discrete q (remove_peer h r m).peers ≡ none =
        rw (remove_peer-peers h q r m, if_pos (bytes_discrete q r) e) in
      rw (if_pos (bytes_discrete q r) e) (ground arith)
  | no ne ↦
      let kept : get bytes_discrete q (remove_peer h r m).peers ≡ get bytes_discrete q m.peers =
        rw (remove_peer-peers h q r m, if_neg (bytes_discrete q r) ne) in
      rw (if_neg (bytes_discrete q r) ne, ids_of-remove_peer g h q r m ne, kept)
]

-- The store is well formed: each table has a key once, and a peer stands under its own id.
pub record IsValid (m : MemoryStorage) : Type 0 where
  pub peers_map : IsMap bytes_discrete m.peers
  pub torrents_map : IsMap bytes_discrete m.torrents
  pub own_ids : All (λ e. e.1.id ≡ e.0) m.peers
  pub sets : All (λ e. IsMap bytes_discrete e.1) m.torrents
  pub completed_map : IsMap bytes_discrete m.completed

ids_of-IsMap : (h : Bytes) (m : MemoryStorage) → IsValid m → IsMap bytes_discrete (ids_of h m)
unfolding ids_of
ids_of-IsMap h m v = elim (Option-cases (get bytes_discrete (encode_to_string h) m.torrents)) [
  | inl e ↦ rw (e, ids_of) tt
  | inr (ids, e) ↦
      rw (e, ids_of)
        (All-get bytes_discrete (λ e. IsMap bytes_discrete e.1) (encode_to_string h) m.torrents
          v.sets e)
]

pub add_peer-IsValid :
    (h : Bytes) (p : Peer) (m : MemoryStorage) → IsValid m → IsValid (add_peer h p m)
unfolding add_peer
add_peer-IsValid h p m v = record {
  peers_map = put-IsMap bytes_discrete p.id p m.peers v.peers_map;
  torrents_map = put-IsMap bytes_discrete (encode_to_string h) _ m.torrents v.torrents_map;
  own_ids = All-put bytes_discrete (λ e. e.1.id ≡ e.0) p.id p m.peers refl v.own_ids;
  sets =
      All-put bytes_discrete (λ e. IsMap bytes_discrete e.1) (encode_to_string h) _ m.torrents
        (put-IsMap bytes_discrete p.id tt (ids_of h m) (ids_of-IsMap h m v)) v.sets;
  completed_map = v.completed_map;
}

pub remove_peer-IsValid :
    (h r : Bytes) (m : MemoryStorage) → IsValid m → IsValid (remove_peer h r m)
unfolding remove_peer
remove_peer-IsValid h r m v =
    elim (Option-cases (get bytes_discrete (encode_to_string h) m.torrents)) [
      | inl e ↦ rw e (record {
        peers_map = delete-IsMap bytes_discrete r m.peers v.peers_map;
        torrents_map = v.torrents_map;
        own_ids = All-delete bytes_discrete (λ e. e.1.id ≡ e.0) r m.peers v.own_ids;
        sets = v.sets;
        completed_map = v.completed_map;
      })
      | inr (ids, e) ↦ rw e (record {
        peers_map = delete-IsMap bytes_discrete r m.peers v.peers_map;
        torrents_map = put-IsMap bytes_discrete (encode_to_string h) _ m.torrents v.torrents_map;
        own_ids = All-delete bytes_discrete (λ e. e.1.id ≡ e.0) r m.peers v.own_ids;
        sets =
            All-put bytes_discrete (λ e. IsMap bytes_discrete e.1) (encode_to_string h) _ m.torrents
              (delete-IsMap bytes_discrete r ids (
                All-get bytes_discrete (λ e. IsMap bytes_discrete e.1) (encode_to_string h)
                  m.torrents v.sets e))
              v.sets;
        completed_map = v.completed_map;
      })
    ]
