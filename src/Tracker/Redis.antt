-- ===== src/Tracker/Redis.antt =====
-- tracker/redis_storage.go: the tracker's store in Redis, over the client of a third-party package,
-- which is a parameter: `D` is what the server holds, and a call gives `none` for its error.
pub mod Cleanup
pub mod Commands
pub mod Keys
pub mod Hashes
pub mod Agreement
pub mod Times
pub mod Visited
pub mod Expiry
pub mod Partial
pub mod Announces
use pixtorrent.Prelude.{
  ℕ, zero, suc, ◌+◌, ◌-◌, ◌*◌, ◌/◌, ◌^◌, Bool, true, false, ◌&&◌, ◌||◌, Option, none, some, List,
  [], ◌∷◌, ◌++◌, Bytes, bytes_discrete, codes, length, drop, slice, ltb, ◌==◌, if◌then◌else◌,
}
use pixtorrent.Prelude.Int.{ℤ, pos, negsuc, ltb_ℤ, sub_ℕ}
use pixtorrent.Prelude.Maps.{Map, get}
use pixtorrent.Meta.Torrent.{chain}
use pixtorrent.Tracker.Hex.{encode_to_string}
use pixtorrent.Tracker.Memory.{Peer, TorrentInfo, pick, is_seeder, is_leecher, twice}
use pixtorrent.Tracker.Query.{
  Digits, number, bad_syntax, out_of_range, plus, minus, parse_unsigned, parse_int,
}
use pixtorrent.Tracker.Server.{Storage}

-- An argument of `HSet`: a string, or a number that the package writes in decimals.
pub data Arg : Type 0 where
  text : Bytes → Arg
  decimal_of : ℤ → Arg

-- The commands that change the server's data. An expiry is in seconds.
pub data Command : Type 0 where
  hset : Bytes → List (Bytes × Arg) → Command
  hincrby : Bytes → Bytes → ℤ → Command
  sadd srem : Bytes → Bytes → Command
  expire : Bytes → ℕ → Command
  del : Bytes → Command

-- The calls of the package. `exec` sends commands in order and tells whether all succeeded; the
-- inner option of `hget` is `redis.Nil`; `scan` gives a batch of keys and the next cursor.
pub record RedisClient (D : Type 0) : Type 0 where
  pub exec : List Command → D → D × Bool
  pub hget_all : Bytes → D → Option (Map Bytes Bytes)
  pub hget : Bytes → Bytes → D → Option (Option Bytes)
  pub smembers : Bytes → D → Option (List Bytes)
  pub srand_member_n : Bytes → ℤ → D → Option (List Bytes)
  pub scan : ℕ → Bytes → D → Option (List Bytes × ℕ)

abbrev pub peer_key : Bytes → Bytes
peer_key id = codes "peer:" ++ id

unfoldable pub torrent_peers_key : Bytes → Bytes
unfolding encode_to_string
torrent_peers_key info_hash = codes "torrent:" ++ (encode_to_string info_hash ++ codes ":peers")

unfoldable pub torrent_stats_key : Bytes → Bytes
unfolding encode_to_string
torrent_stats_key info_hash = codes "torrent:" ++ (encode_to_string info_hash ++ codes ":stats")

abbrev pub second : ℕ
second = 1_000_000_000

-- `Unix` of a time.
abbrev pub unix : ℕ → ℕ
unix t = t / second

-- The fields of a peer's hash.
abbrev pub peer_fields : Peer → List (Bytes × Arg)
peer_fields peer =
    (codes "ip", text peer.ip)
    ∷ (codes "port", decimal_of peer.port)
    ∷ (codes "uploaded", decimal_of peer.uploaded)
    ∷ (codes "downloaded", decimal_of peer.downloaded)
    ∷ (codes "left", decimal_of peer.left)
    ∷ (codes "last_seen", decimal_of (pos (unix peer.last_seen)))
    ∷ []

-- `result[key]`
abbrev pub value_or_empty : Option Bytes → Bytes
value_or_empty none = []
value_or_empty (some v) = v

abbrev pub field_of : Bytes → Map Bytes Bytes → Bytes
field_of key result = value_or_empty (get bytes_discrete key result)

-- `time.Unix(s, 0)`, for a time that is not before 1970.
abbrev pub at_second : ℤ → ℕ
at_second (pos s) = s * second
at_second (negsuc s) = 0

-- The peer that a hash stands for.
unfoldable pub peer_of_hash : Bytes → Map Bytes Bytes → Peer
unfolding parse_int
peer_of_hash id result = record {
  id = id;
  ip = field_of (codes "ip") result;
  port = parse_int (field_of (codes "port") result);
  uploaded = parse_int (field_of (codes "uploaded") result);
  downloaded = parse_int (field_of (codes "downloaded") result);
  left = parse_int (field_of (codes "left") result);
  last_seen = at_second (parse_int (field_of (codes "last_seen") result));
}

abbrev pub completed_of : Option Bytes → ℤ
completed_of none = pos 0
completed_of (some s) = parse_int s

module _ {D : Type 0} (client : RedisClient D) where
  -- `AddPeer`: the pipeline of four commands.
  unfoldable pub add_peer : Bytes → Peer → D → D × Bool
  unfolding torrent_peers_key
  add_peer info_hash peer = client.exec (
      hset (peer_key peer.id) (peer_fields peer)
      ∷ sadd (torrent_peers_key info_hash) peer.id
      ∷ expire (peer_key peer.id) (30 * 60)
      ∷ expire (torrent_peers_key info_hash) (2 * 60 * 60)
      ∷ [])

  unfoldable pub remove_peer : Bytes → Bytes → D → D × Bool
  unfolding torrent_peers_key
  remove_peer info_hash id =
      client.exec (del (peer_key id) ∷ srem (torrent_peers_key info_hash) id ∷ [])

  unfoldable pub get_peer : Bytes → D → Option Peer
  unfolding peer_of_hash
  get_peer id d =
      chain (client.hget_all (peer_key id) d)
        (λ result. if length result == 0 then none else some (peer_of_hash id result))

  -- The loop over the members, which passes over those without a hash.
  unfoldable pub known_peers : List Bytes → D → List Peer
  unfolding get_peer
  known_peers [] d = []
  known_peers (id ∷ ids) d =
      let rest = known_peers ids d in elim (get_peer id d) [ none ↦ rest | some peer ↦ peer ∷ rest ]

  unfoldable pub get_peers : Bytes → ℤ → D → Option (List Peer)
  unfolding torrent_peers_key known_peers
  get_peers info_hash max_peers d =
      chain (client.srand_member_n (torrent_peers_key info_hash) max_peers d)
        (λ ids. some (known_peers ids d))

  unfoldable pub get_seeders : Bytes → ℤ → D → Option (List Peer)
  unfolding get_peers pick
  get_seeders info_hash max_peers d =
      chain (get_peers info_hash (twice max_peers) d)
        (λ peers. some (pick is_seeder max_peers peers []))

  unfoldable pub get_leechers : Bytes → ℤ → D → Option (List Peer)
  unfolding get_peers pick
  get_leechers info_hash max_peers d =
      chain (get_peers info_hash (twice max_peers) d)
        (λ peers. some (pick is_leecher max_peers peers []))

  -- The loop of `GetTorrentStats`.
  unfoldable pub sort_out : List Bytes → D → List Bytes × List Bytes
  unfolding get_peer
  sort_out [] d = ([], [])
  sort_out (id ∷ ids) d =
      let rest = sort_out ids d in
      elim (get_peer id d) [
        | none ↦ rest
        | some peer ↦ if is_seeder peer then (id ∷ rest.0, rest.1) else (rest.0, id ∷ rest.1)
      ]

  unfoldable pub get_torrent_stats : Bytes → D → Option TorrentInfo
  unfolding torrent_peers_key torrent_stats_key sort_out
  get_torrent_stats info_hash d = chain (client.smembers (torrent_peers_key info_hash) d) (λ ids.
      chain (client.hget (torrent_stats_key info_hash) (codes "completed") d) (λ completed.
        some (record {
          info_hash = info_hash;
          seeders = (sort_out ids d).0;
          leechers = (sort_out ids d).1;
          completed = completed_of completed;
        })))

  unfoldable pub increment_completed : Bytes → D → D × Bool
  unfolding torrent_stats_key
  increment_completed info_hash =
      client.exec (hincrby (torrent_stats_key info_hash) (codes "completed") (pos 1) ∷ [])

  unfoldable pub update_peer_last_seen : ℕ → Bytes → D → D × Bool
  update_peer_last_seen now id =
      client.exec (hset (peer_key id) ((codes "last_seen", decimal_of (pos (unix now))) ∷ []) ∷ [])

  -- What the announce and scrape handlers use of it.
  unfoldable pub redis_storage : Storage D
  unfolding add_peer remove_peer get_peers increment_completed get_torrent_stats
  redis_storage = record {
    store_add = add_peer;
    store_remove = remove_peer;
    store_get = get_peers;
    store_complete = λ info_hash d. (increment_completed info_hash d).0;
    store_stats = get_torrent_stats;
  }
