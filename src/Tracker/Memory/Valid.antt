-- ===== src/Tracker/Memory/Valid.antt =====
-- The tables of tracker/memory_storage.go stay well formed.
use pixtorrent.Prelude.{
  ℕ, ◌-◌, [], ◌∷◌, map, Bytes, bytes_discrete, All, ◌≡◌, ltb, Bool-cases, Option-cases, inl, inr,
}
use pixtorrent.Prelude.Maps.{
  Map, get, delete, IsMap, IsAbsent, put-IsMap, delete-IsMap, All-put, All-delete, All-get,
}
use pixtorrent.Tracker.Memory.{
  Peer, MemoryStorage, IdSet, add_peer, remove_peer, increment_completed, update_peer_last_seen,
  expiry, expel, expel_before, cleanup_expired_peers,
}
use pixtorrent.Tracker.Memory.Listed.{IsValid, add_peer-IsValid, remove_peer-IsValid}

-- The sets without one id.
abbrev without : Bytes → Map Bytes IdSet → Map Bytes IdSet
without id = map (λ e. (e.0, delete bytes_discrete id e.1))

IsAbsent-without :
    (id k : Bytes) (sets : Map Bytes IdSet)
    → IsAbsent bytes_discrete k sets
    → IsAbsent bytes_discrete k (without id sets)
IsAbsent-without id k [] h = tt
IsAbsent-without id k (e ∷ sets) h = (h.0, IsAbsent-without id k sets h.1)

without-IsMap :
    (id : Bytes) (sets : Map Bytes IdSet)
    → IsMap bytes_discrete sets
    → IsMap bytes_discrete (without id sets)
without-IsMap id [] h = tt
without-IsMap id (e ∷ sets) h = (IsAbsent-without id e.0 sets h.0, without-IsMap id sets h.1)

without-sets :
    (id : Bytes) (sets : Map Bytes IdSet)
    → All (λ e. IsMap bytes_discrete e.1) sets
    → All (λ e. IsMap bytes_discrete e.1) (without id sets)
without-sets id [] h = tt
without-sets id (e ∷ sets) h = (delete-IsMap bytes_discrete id e.1 h.0, without-sets id sets h.1)

expel-IsValid : (id : Bytes) (m : MemoryStorage) → IsValid m → IsValid (expel id m)
unfolding expel
expel-IsValid id m v = record {
  peers_map = delete-IsMap bytes_discrete id m.peers v.peers_map;
  torrents_map = without-IsMap id m.torrents v.torrents_map;
  own_ids = All-delete bytes_discrete (λ e. e.1.id ≡ e.0) id m.peers v.own_ids;
  sets = without-sets id m.torrents v.sets;
  completed_map = v.completed_map;
}

expel_before-IsValid :
    (cutoff : ℕ) (entries : Map Bytes Peer) (m : MemoryStorage)
    → IsValid m
    → IsValid (expel_before cutoff entries m)
unfolding expel_before
expel_before-IsValid cutoff [] m v = v
expel_before-IsValid cutoff ((id, p) ∷ entries) m v = elim (Bool-cases (ltb p.last_seen cutoff)) [
  | inl e ↦
      rw (e, expel_before) (expel_before-IsValid cutoff entries (expel id m) (expel-IsValid id m v))
  | inr e ↦ rw (e, expel_before) (expel_before-IsValid cutoff entries m v)
]

update_peer_last_seen-IsValid :
    (now : ℕ) (id : Bytes) (m : MemoryStorage)
    → IsValid m
    → IsValid (update_peer_last_seen now id m)
unfolding update_peer_last_seen
update_peer_last_seen-IsValid now id m v = elim (Option-cases (get bytes_discrete id m.peers)) [
  | inl e ↦ rw (e, update_peer_last_seen) v
  | inr (p, e) ↦
      rw (e, update_peer_last_seen)
        (record {
          peers_map = put-IsMap bytes_discrete id _ m.peers v.peers_map;
          torrents_map = v.torrents_map;
          own_ids =
              All-put bytes_discrete (λ e. e.1.id ≡ e.0) id _ m.peers
                (All-get bytes_discrete (λ e. e.1.id ≡ e.0) id m.peers v.own_ids e) v.own_ids;
          sets = v.sets;
          completed_map = v.completed_map;
        })
]

-- Every method that changes the store keeps it well formed: each table has a key once, each set of
-- a torrent has an id once, and a peer stands under its own id.
pub methods-IsValid :
    (h id : Bytes) (p : Peer) (now : ℕ) (m : MemoryStorage)
    → IsValid m
    → IsValid (add_peer h p m)
      × IsValid (remove_peer h id m)
      × IsValid (increment_completed h m)
      × IsValid (update_peer_last_seen now id m)
      × IsValid (cleanup_expired_peers now m)
unfolding increment_completed cleanup_expired_peers
methods-IsValid h id p now m v = (
  add_peer-IsValid h p m v,
  remove_peer-IsValid h id m v,
  record {
    peers_map = v.peers_map;
    torrents_map = v.torrents_map;
    own_ids = v.own_ids;
    sets = v.sets;
    completed_map = put-IsMap bytes_discrete _ _ m.completed v.completed_map;
  },
  update_peer_last_seen-IsValid now id m v,
  expel_before-IsValid (now - expiry) m.peers m v,
)
