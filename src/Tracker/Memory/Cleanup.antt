-- ===== src/Tracker/Memory/Cleanup.antt =====
-- `CleanupExpiredPeers` of tracker/memory_storage.go.
use pixtorrent.Prelude.{
  ℕ, ◌-◌, Bool, false, Option, none, some, [], ◌∷◌, Bytes, bytes_discrete, ltb, if◌then◌else◌, ◌≡◌,
  refl, ◌∙◌, arith, ite, Bool-cases, inl, inr,
}
use pixtorrent.Prelude.Maps.{Map, get, IsMap, get-delete, none_of_IsAbsent}
use pixtorrent.Tracker.Memory.{
  Peer, MemoryStorage, expiry, expel, expel_before, cleanup_expired_peers,
}
use pixtorrent.Tracker.Memory.Listed.{IsValid}

-- The peer, unless it was seen before the cutoff.
abbrev pub fresh : ℕ → Option Peer → Option Peer
fresh cutoff none = none
fresh cutoff (some p) = if ltb p.last_seen cutoff then none else some p

-- Whether the loop over some entries drops an id.
abbrev is_stale : ℕ → Option Peer → Bool
is_stale cutoff none = false
is_stale cutoff (some p) = ltb p.last_seen cutoff

expel-peers :
    (id q : Bytes) (m : MemoryStorage)
    → get bytes_discrete q (expel id m).peers
      ≡ ite (bytes_discrete q id) none (get bytes_discrete q m.peers)
unfolding expel
expel-peers id q m = get-delete bytes_discrete id q m.peers

expel_before-peers :
    (cutoff : ℕ) (entries : Map Bytes Peer) (q : Bytes) (m : MemoryStorage)
    → IsMap bytes_discrete entries
    → get bytes_discrete q (expel_before cutoff entries m).peers ≡ (
        if is_stale cutoff (get bytes_discrete q entries)
        then none
        else get bytes_discrete q m.peers)
unfolding expel_before get
expel_before-peers cutoff [] q m h = refl
expel_before-peers cutoff ((id, p) ∷ entries) q m h = elim (Bool-cases (ltb p.last_seen cutoff)) [
  | inl old ↦
      rw (old, expel_before)
        (ground (
          arith,
          expel_before-peers cutoff entries q (expel id m) h.1,
          expel-peers id q m,
          none_of_IsAbsent bytes_discrete id entries h.0,
        ))
  | inr recent ↦
      rw (recent, expel_before)
        (ground (
          arith,
          expel_before-peers cutoff entries q m h.1,
          none_of_IsAbsent bytes_discrete id entries h.0,
        ))
]

-- After a cleanup exactly the peers are known that were, and were seen within the last thirty
-- minutes, each with its data. Every table of the store has a key once.
pub cleanup_expired_peers_lem :
    (now : ℕ) (m : MemoryStorage) (q : Bytes)
    → IsValid m
    → get bytes_discrete q (cleanup_expired_peers now m).peers
      ≡ fresh (now - expiry) (get bytes_discrete q m.peers)
unfolding cleanup_expired_peers
cleanup_expired_peers_lem now m q v =
    expel_before-peers (now - expiry) m.peers q m v.peers_map ∙ ground arith
