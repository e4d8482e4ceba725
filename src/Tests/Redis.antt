-- ===== src/Tests/Redis.antt =====
-- tracker/redis_storage.go over a toy of the client package, which does what Redis documents.
use pixtorrent.Prelude.{
  ℕ, ◌/◌, ◌^◌, ◌<◌, Bool, true, false, not, ◌&&◌, ◌||◌, Option, none, some, List, [], ◌∷◌, map,
  Bytes, bytes_discrete, codes, ite, if_neg, length, replicate, ◌≡◌, ◌≢◌, refl, arith, All, IsByte,
  ◌*◌, Bool-cases, inl, inr, if◌then◌else◌,
}
use pixtorrent.Prelude.Int.{◌+ℤ◌, pos, sub_ℕ}
use pixtorrent.Prelude.Maps.{Map, get, put}
use pixtorrent.Meta.Bencode.Scan.{text_of}
use pixtorrent.P2p.Pieces.{equal}
use pixtorrent.Tracker.Memory
use pixtorrent.Tracker.Memory.{MemoryStorage, is_seeder}
use pixtorrent.Tracker.Query.{parse_int}
use pixtorrent.Tracker.Redis.{
  Command, hset, hincrby, sadd, srem, expire, del, RedisClient, peer_key, unix, torrent_peers_key,
  field_of, get_peer, update_peer_last_seen, redis_storage,
}
use pixtorrent.Tracker.Redis.Agreement.{Agrees}
use pixtorrent.Tracker.Redis.Announces.{IsAnnounce, run_announces, run_announces-Agrees}
use pixtorrent.Tracker.Redis.Cleanup.{scan_keys, cleanup_expired_peers}
use pixtorrent.Tracker.Redis.Expiry.{is_among, ScansTorrents, cleanup_expired_peers-recent}
use pixtorrent.Tracker.Redis.Times.{HasTime, recent}
use pixtorrent.Tracker.Redis.Visited.{visited}
use pixtorrent.Tracker.Redis.Commands.{IsRedis, set_fields, run_all}
use pixtorrent.Tracker.Redis.Partial.{ghost, update_peer_last_seen_unknown}
use pixtorrent.Tracker.Server.{Request, memory_storage, param}
use pixtorrent.Tests.Tracker.{request, first, first-bytes}

-- What the keys hold: a hash for each key and the members of each set; and what a scan shows, the
-- ids of peers and the hashes of torrents.
record Data : Type 0 where
  hashes : Bytes → Map Bytes Bytes
  members : Bytes → Bytes → Bool
  ids : List Bytes
  torrents : List Bytes

abbrev toy_run : Command → Data → Data
toy_run (hset key fs) d = record d {
  hashes = λ q. ite (bytes_discrete q key) (set_fields fs (d.hashes q)) (d.hashes q);
}
toy_run (hincrby key f n) d = record d {
  hashes = λ q.
      ite (bytes_discrete q key)
        (put bytes_discrete f (text_of (parse_int (field_of f (d.hashes key)) +ℤ n)) (d.hashes q))
        (d.hashes q);
}
toy_run (sadd key x) d = record d { members = λ q y. equal q key && equal y x || d.members q y }
toy_run (srem key x) d = record d {
  members = λ q y. not (equal q key && equal y x) && d.members q y;
}
toy_run (expire key n) d = d
toy_run (del key) d = record d {
  hashes = λ q. ite (bytes_discrete q key) [] (d.hashes q);
  members = λ q y. not (equal q key) && d.members q y;
}

-- The toy scans in one batch, and lists no members.
abbrev toy : RedisClient Data
toy = record {
  exec = λ cs d. (run_all toy_run cs d, true);
  hget_all = λ key d. some (d.hashes key);
  hget = λ key f d. some (get bytes_discrete f (d.hashes key));
  smembers = λ key d. some [];
  srand_member_n = λ key n d. some [];
  scan = λ cursor pattern d.
      if equal pattern (codes "peer:*")
      then some (map peer_key d.ids, 0)
      else some (map torrent_peers_key d.torrents, 0);
}

abbrev toy_hash : Bytes → Data → Map Bytes Bytes
toy_hash key d = d.hashes key

abbrev toy_member : Bytes → Bytes → Data → Bool
toy_member key x d = d.members key x

toy-IsRedis : IsRedis toy toy_run toy_hash toy_member
toy-IsRedis = record {
  exec_runs = λ cs d h. refl;
  hget_all_hash = λ key d. refl;
  hget_hash = λ key f d. refl;
  hash_hset = λ key q fs d. refl;
  hash_del = λ key q d. refl;
  hash_sadd = λ key x q d. refl;
  hash_srem = λ key x q d. refl;
  hash_expire = λ key q n d. refl;
  member_sadd = λ key x q y d. refl;
  member_srem = λ key x q y d. refl;
  member_del = λ key q y d. refl;
  member_hset = λ key q y fs d. refl;
  member_expire = λ key q y n d. refl;
  hash_hincrby = λ key f q n d ne. if_neg {C = Map Bytes Bytes} (bytes_discrete q key) ne _ _;
  member_hincrby = λ key f q y n d. refl;
}

-- Nobody has announced yet; two torrents had peers once.
abbrev blank : Data
blank = record {
  hashes = λ key. [];
  members = λ key x. false;
  ids = [];
  torrents = first ∷ replicate 20 0x62 ∷ [];
}

abbrev empty : MemoryStorage
empty = record { peers = []; torrents = []; completed = [] }

blank-Agrees : Agrees toy-IsRedis blank empty
unfolding get_peer Memory.get_peer get Memory.ids_of
blank-Agrees = record { same_peers = λ q. refl; same_members = λ g q a. refl }

-- Bob starts, and completes.
abbrev requests : List (ℕ × Request)
requests = (9, request (codes "started")) ∷ (1_800_000_000_006, request (codes "completed")) ∷ []

requests-IsAnnounce : All IsAnnounce requests
unfolding param get bytes_discrete pixtorrent.Prelude.ℕ_discrete
requests-IsAnnounce = ((omega arith, first-bytes), ((omega arith, first-bytes), tt))

run_announces-Agrees_example :
    Agrees toy-IsRedis
      (run_announces (redis_storage toy) requests blank)
      (run_announces memory_storage requests empty)
run_announces-Agrees_example =
    run_announces-Agrees toy-IsRedis requests blank empty requests-IsAnnounce blank-Agrees

update_peer_last_seen_unknown_example :
    (get_peer toy (codes "bob") blank ≡ none)
    × (get_peer toy (codes "bob") (update_peer_last_seen toy 9 (codes "bob") blank).0
        ≡ some (ghost (codes "bob") 9))
    × (is_seeder (ghost (codes "bob") 9) ≡ true)
    × (Memory.get_peer (codes "bob") (Memory.update_peer_last_seen 9 (codes "bob") empty) ≡ none)
unfolding Memory.get_peer get
update_peer_last_seen_unknown_example =
    update_peer_last_seen_unknown toy-IsRedis 9 (codes "bob") blank empty (omega arith) refl refl

-- At time 0 Bob was seen, and Ann fifty minutes later.
abbrev both : List Bytes
both = codes "bob" ∷ codes "ann" ∷ []

abbrev known_both : Data
known_both = record blank {
  hashes = λ key.
      if is_among key (map peer_key both)
      then (
        codes "last_seen",
        if equal key (peer_key (codes "bob")) then text_of (pos 0) else text_of (pos 3000),
      )
        ∷ []
      else [];
  ids = both;
}

known_both-HasTime : (q : Bytes) → HasTime (toy_hash (peer_key q) known_both)
unfolding get bytes_discrete pixtorrent.Prelude.ℕ_discrete
known_both-HasTime q = elim (Bool-cases (is_among (peer_key q) (map peer_key both))) [
  | inl e ↦ elim (Bool-cases (equal (peer_key q) (peer_key (codes "bob")))) [
    | inl k ↦ rw (e, k) (inr (0, omega arith, refl))
    | inr k ↦ rw (e, k) (inr (3000, omega arith, refl))
  ]
  | inr e ↦ rw e (inl refl)
]

both_met : (q : Bytes) → is_among q both ≡ false → toy_hash (peer_key q) known_both ≡ []
unfolding equal
both_met q e = rw e refl

visited_run :
    visited toy 1 1 (sub_ℕ (unix 4_000_000_000_000) (30 * 60)) 0 known_both
    ≡ some (map peer_key both)
unfolding visited equal
visited_run = refl

toy-ScansTorrents : ScansTorrents toy-IsRedis 1
unfolding scan_keys equal
toy-ScansTorrents d = (d.torrents, refl)

cleanup_expired_peers-recent_example :
    (d : Data) × (cleanup_expired_peers toy 1 1 4_000_000_000_000 known_both ≡ some (d, true))
    × ((q : Bytes) → get_peer toy q d ≡ recent 4_000_000_000_000 (get_peer toy q known_both))
cleanup_expired_peers-recent_example =
    cleanup_expired_peers-recent toy-IsRedis 1 1 4_000_000_000_000 known_both both
      known_both-HasTime visited_run both_met toy-ScansTorrents
