-- ===== src/Tracker/Memory.antt =====
-- tracker/memory_storage.go: the tracker's store in memory. Every method runs under the store's
-- lock, so a method is one step; none of them fails but `get_peer`. A Go map that only holds keys
-- is a map to the unit.
pub mod Listed
pub mod Sets
pub mod Queries
pub mod Cleanup
pub mod Valid
use pixtorrent.Prelude.{
  ℕ, zero, suc, ◌+◌, ◌-◌, ◌*◌, Bool, true, false, Option, none, some, List, [], ◌∷◌, ◌++◌, map,
  Bytes, bytes_discrete, length, ltb, ◌&&◌, if◌then◌else◌, is_some,
}
use pixtorrent.Prelude.Int.{ℤ, pos, ltb_ℤ, leb_ℤ, ◌+ℤ◌, wrap64, ℤ_discrete}
use pixtorrent.Prelude.Maps.{Map, keys, get, put, delete}
use pixtorrent.Tracker.Hex.{encode_to_string}

-- `LastSeen` in nanoseconds.
pub record Peer : Type 0 where
  pub id : Bytes
  pub ip : Bytes
  pub port : ℤ
  pub uploaded : ℤ
  pub downloaded : ℤ
  pub left : ℤ
  pub last_seen : ℕ

pub record TorrentInfo : Type 0 where
  pub info_hash : Bytes
  pub seeders : List Bytes
  pub leechers : List Bytes
  pub completed : ℤ

abbrev pub IdSet : Type 0
IdSet = Map Bytes Unit

pub record MemoryStorage : Type 0 where
  pub peers : Map Bytes Peer
  pub torrents : Map Bytes IdSet
  pub completed : Map Bytes ℤ

unfoldable pub new_memory_storage : MemoryStorage
new_memory_storage = record { peers = []; torrents = []; completed = [] }

-- `m.torrents[hashKey]`, where the nil map reads as an empty one.
unfoldable pub ids_of : Bytes → MemoryStorage → IdSet
unfolding encode_to_string
ids_of info_hash m = elim (get bytes_discrete (encode_to_string info_hash) m.torrents) [
  | none ↦ []
  | some ids ↦ ids
]

unfoldable pub add_peer : Bytes → Peer → MemoryStorage → MemoryStorage
unfolding ids_of
add_peer info_hash peer m = record m {
  peers = put bytes_discrete peer.id peer m.peers;
  torrents =
      put bytes_discrete (encode_to_string info_hash)
        (put bytes_discrete peer.id tt (ids_of info_hash m)) m.torrents;
}

unfoldable pub remove_peer : Bytes → Bytes → MemoryStorage → MemoryStorage
remove_peer info_hash peer_id m =
    let hash_key = encode_to_string info_hash in
    record m {
      peers = delete bytes_discrete peer_id m.peers;
      torrents = elim (get bytes_discrete hash_key m.torrents) [
        | none ↦ m.torrents
        | some ids ↦ put bytes_discrete hash_key (delete bytes_discrete peer_id ids) m.torrents
      ];
    }

unfoldable pub get_peer : Bytes → MemoryStorage → Option Peer
get_peer peer_id m = get bytes_discrete peer_id m.peers

-- The loop of `GetPeers`.
unfoldable pub gather : ℤ → ℕ → IdSet → MemoryStorage → List Peer
gather max_peers count [] m = []
gather max_peers count ((id, u) ∷ ids) m =
    let more = gather max_peers (suc count) ids m in
    let same = gather max_peers count ids m in
    if leb_ℤ max_peers (pos count)
    then []
    else elim (get bytes_discrete id m.peers) [ none ↦ same | some peer ↦ peer ∷ more ]

unfoldable pub get_peers : Bytes → ℤ → MemoryStorage → List Peer
unfolding gather ids_of
get_peers info_hash max_peers m = gather max_peers 0 (ids_of info_hash m) m

-- The loop of `GetSeeders` and `GetLeechers`; `seen` has the ones gathered.
unfoldable pub pick : (Peer → Bool) → ℤ → List Peer → List Peer → List Peer
pick wanted max_peers [] seen = seen
pick wanted max_peers (peer ∷ peers) seen = pick wanted max_peers peers (
    if wanted peer
    then if ltb_ℤ (pos (length seen)) max_peers then seen ++ peer ∷ [] else seen
    else seen)

-- `peer.Left == 0` and `peer.Left > 0`
abbrev pub is_seeder : Peer → Bool
is_seeder peer = leb_ℤ peer.left (pos 0) && leb_ℤ (pos 0) peer.left

abbrev pub is_leecher : Peer → Bool
is_leecher peer = ltb_ℤ (pos 0) peer.left

-- `maxPeers*2` of an int
abbrev pub twice : ℤ → ℤ
twice n = wrap64 (n +ℤ n)

unfoldable pub get_seeders : Bytes → ℤ → MemoryStorage → List Peer
unfolding get_peers pick
get_seeders info_hash max_peers m =
    pick is_seeder max_peers (get_peers info_hash (twice max_peers) m) []

unfoldable pub get_leechers : Bytes → ℤ → MemoryStorage → List Peer
unfolding get_peers pick
get_leechers info_hash max_peers m =
    pick is_leecher max_peers (get_peers info_hash (twice max_peers) m) []

-- The loop of `GetTorrentStats`.
unfoldable pub sort_out : IdSet → MemoryStorage → List Bytes × List Bytes
sort_out [] m = ([], [])
sort_out ((id, u) ∷ ids) m =
    let rest = sort_out ids m in
    elim (get bytes_discrete id m.peers) [
      | none ↦ rest
      | some peer ↦ if is_seeder peer then (id ∷ rest.0, rest.1) else (rest.0, id ∷ rest.1)
    ]

-- `m.completed[hashKey]`
unfoldable pub completed_of : Bytes → MemoryStorage → ℤ
completed_of info_hash m = elim (get bytes_discrete (encode_to_string info_hash) m.completed) [
  | none ↦ pos 0
  | some n ↦ n
]

unfoldable pub get_torrent_stats : Bytes → MemoryStorage → TorrentInfo
unfolding sort_out ids_of completed_of
get_torrent_stats info_hash m =
    let (seeders, leechers) = sort_out (ids_of info_hash m) m in
    record {
      info_hash = info_hash;
      seeders = seeders;
      leechers = leechers;
      completed = completed_of info_hash m;
    }

unfoldable pub increment_completed : Bytes → MemoryStorage → MemoryStorage
unfolding completed_of
increment_completed info_hash m = record m {
  completed =
      put bytes_discrete (encode_to_string info_hash) (wrap64 (completed_of info_hash m +ℤ pos 1))
        m.completed;
}

unfoldable pub update_peer_last_seen : ℕ → Bytes → MemoryStorage → MemoryStorage
update_peer_last_seen now peer_id m = elim (get bytes_discrete peer_id m.peers) [
  | none ↦ m
  | some peer ↦ record m {
    peers = put bytes_discrete peer_id (record peer { last_seen = now }) m.peers;
  }
]

-- Thirty minutes in nanoseconds.
abbrev pub expiry : ℕ
expiry = 30 * 60 * 1_000_000_000

-- The body for an expired peer.
unfoldable pub expel : Bytes → MemoryStorage → MemoryStorage
expel peer_id m = record m {
  peers = delete bytes_discrete peer_id m.peers;
  torrents = map (λ e. (e.0, delete bytes_discrete peer_id e.1)) m.torrents;
}

-- The loop of `CleanupExpiredPeers` over the entries that the range meets.
unfoldable pub expel_before : ℕ → Map Bytes Peer → MemoryStorage → MemoryStorage
unfolding expel
expel_before cutoff [] m = m
expel_before cutoff ((id, peer) ∷ peers) m =
    expel_before cutoff peers (if ltb peer.last_seen cutoff then expel id m else m)

unfoldable pub cleanup_expired_peers : ℕ → MemoryStorage → MemoryStorage
unfolding expel_before
cleanup_expired_peers now m = expel_before (now - expiry) m.peers m

unfoldable pub get_active_torrents : MemoryStorage → List Bytes
get_active_torrents m = keys m.torrents
