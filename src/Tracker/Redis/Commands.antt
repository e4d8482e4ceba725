-- ===== src/Tracker/Redis/Commands.antt =====
-- What the package that tracker/redis_storage.go calls promises of Redis: the commands on hashes and
-- sets, as Redis documents them, for a server that answers and keys that do not expire meanwhile. The
-- keys of peers and of statistics hold hashes, those of torrents hold sets.
use pixtorrent.Prelude.{
  ℕ, ◌<◌, Bool, true, not, ◌&&◌, ◌||◌, Option, some, List, [], ◌∷◌, Bytes, bytes_discrete, length,
  ite, ◌≡◌, ◌≢◌, refl, ap, ◌∙◌, arith, All,
}
use pixtorrent.Prelude.Int.{ℤ}
use pixtorrent.Prelude.Maps.{Map, get, put, get-put}
use pixtorrent.Meta.Bencode.Scan.{text_of}
use pixtorrent.P2p.Pieces.{equal}
use pixtorrent.Tracker.Redis.{
  Arg, text, decimal_of, Command, hset, hincrby, sadd, srem, expire, del, RedisClient, peer_key,
  torrent_peers_key, torrent_stats_key,
}

-- How an argument is stored.
abbrev pub stored : Arg → Bytes
stored (text s) = s
stored (decimal_of i) = text_of i

abbrev pub set_fields : List (Bytes × Arg) → Map Bytes Bytes → Map Bytes Bytes
set_fields [] h = h
set_fields ((f, a) ∷ fs) h = set_fields fs (put bytes_discrete f (stored a) h)

-- The field behind `set_fields`, where `old` is the one before.
abbrev pub last_field : Bytes → List (Bytes × Arg) → Option Bytes → Option Bytes
last_field q [] old = old
last_field q ((f, a) ∷ fs) old = last_field q fs (ite (bytes_discrete q f) (some (stored a)) old)

pub get-set_fields :
    (q : Bytes) (fs : List (Bytes × Arg)) (h : Map Bytes Bytes)
    → get bytes_discrete q (set_fields fs h) ≡ last_field q fs (get bytes_discrete q h)
get-set_fields q [] h = refl
get-set_fields q ((f, a) ∷ fs) h =
    get-set_fields q fs (put bytes_discrete f (stored a) h)
    ∙ ap (last_field q fs) (get-put bytes_discrete f q (stored a) h)

positive_put : (f v : Bytes) (h : Map Bytes Bytes) → 0 < length (put bytes_discrete f v h)
unfolding put
positive_put f v [] = omega arith
positive_put f v ((g, w) ∷ h) = ground arith

keeps_positive :
    (fs : List (Bytes × Arg)) (h : Map Bytes Bytes) → 0 < length h → 0 < length (set_fields fs h)
keeps_positive [] h p = p
keeps_positive ((f, a) ∷ fs) h p = keeps_positive fs _ (positive_put f (stored a) h)

pub set_fields-positive :
    (fs : List (Bytes × Arg)) (h : Map Bytes Bytes) → 0 < length fs → 0 < length (set_fields fs h)
set_fields-positive [] h p = absurd (omega arith)
set_fields-positive ((f, a) ∷ fs) h p = keeps_positive fs _ (positive_put f (stored a) h)

-- A command on a key of its kind.
abbrev pub Fits : Command → Type 0
Fits (hset key fs) = (id : Bytes) × (key ≡ peer_key id)
Fits (hincrby key f n) = (info_hash : Bytes) × (key ≡ torrent_stats_key info_hash)
Fits (sadd key x) = (info_hash : Bytes) × (key ≡ torrent_peers_key info_hash)
Fits (srem key x) = (info_hash : Bytes) × (key ≡ torrent_peers_key info_hash)
Fits (expire key seconds) = Unit
Fits (del key) = (id : Bytes) × (key ≡ peer_key id)

abbrev pub run_all : {D : Type 0} → (Command → D → D) → List Command → D → D
run_all run [] d = d
run_all run (c ∷ cs) d = run_all run cs (run c d)

-- The documented behaviour, over what the keys hold: the hash of a key, and the members of a set.
pub record IsRedis {D : Type 0} (client : RedisClient D) (run : Command → D → D)
    (hash : Bytes → D → Map Bytes Bytes) (member : Bytes → Bytes → D → Bool) : Type 0 where
  pub exec_runs :
      (cs : List Command) (d : D) → All Fits cs → client.exec cs d ≡ (run_all run cs d, true)
  pub hget_all_hash : (key : Bytes) (d : D) → client.hget_all key d ≡ some (hash key d)
  pub hget_hash :
      (key f : Bytes) (d : D) → client.hget key f d ≡ some (get bytes_discrete f (hash key d))
  pub hash_hset :
      (key q : Bytes) (fs : List (Bytes × Arg)) (d : D)
      → hash q (run (hset key fs) d)
        ≡ ite (bytes_discrete q key) (set_fields fs (hash q d)) (hash q d)
  pub hash_del :
      (key q : Bytes) (d : D) → hash q (run (del key) d) ≡ ite (bytes_discrete q key) [] (hash q d)
  pub hash_sadd : (key x q : Bytes) (d : D) → hash q (run (sadd key x) d) ≡ hash q d
  pub hash_srem : (key x q : Bytes) (d : D) → hash q (run (srem key x) d) ≡ hash q d
  pub hash_expire : (key q : Bytes) (n : ℕ) (d : D) → hash q (run (expire key n) d) ≡ hash q d
  pub member_sadd :
      (key x q y : Bytes) (d : D)
      → member q y (run (sadd key x) d) ≡ (equal q key && equal y x || member q y d)
  pub member_srem :
      (key x q y : Bytes) (d : D)
      → member q y (run (srem key x) d) ≡ (not (equal q key && equal y x) && member q y d)
  pub member_del :
      (key q y : Bytes) (d : D) → member q y (run (del key) d) ≡ (not (equal q key) && member q y d)
  pub member_hset :
      (key q y : Bytes) (fs : List (Bytes × Arg)) (d : D)
      → member q y (run (hset key fs) d) ≡ member q y d
  pub member_expire :
      (key q y : Bytes) (n : ℕ) (d : D) → member q y (run (expire key n) d) ≡ member q y d
  pub hash_hincrby :
      (key f q : Bytes) (n : ℤ) (d : D) → q ≢ key → hash q (run (hincrby key f n) d) ≡ hash q d
  pub member_hincrby :
      (key f q y : Bytes) (n : ℤ) (d : D) → member q y (run (hincrby key f n) d) ≡ member q y d
