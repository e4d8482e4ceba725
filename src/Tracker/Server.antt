-- ===== src/Tracker/Server.antt =====
-- tracker/server.go: the two handlers, over a store that fills the `Storage` interface of
-- tracker/tracker.go. `http`, the parsing of the query, `net.SplitHostPort` and the bencoding of
-- a response are library code: a request comes parsed, and a response is the value that is encoded.
pub mod Reply
pub mod Mux
pub mod Others
pub mod Announce
pub mod Failures
use pixtorrent.Prelude.{
  ℕ, Bool, true, false, not, ◌&&◌, ◌||◌, Option, none, some, List, [], ◌∷◌, map, Bytes,
  bytes_discrete, codes, length, ◌==◌, if◌then◌else◌,
}
use pixtorrent.Prelude.Int.{ℤ, pos, ℤ_discrete, leb_ℤ}
use pixtorrent.Prelude.Maps.{Map, get, put}
use pixtorrent.P2p.Pieces.{equal}
use pixtorrent.Tracker.Memory.{
  Peer, TorrentInfo, MemoryStorage, add_peer, remove_peer, get_peers, increment_completed,
  get_torrent_stats,
}
use pixtorrent.Tracker.Query.{decode_info_hash, parse_int}

-- The operations of a store that the handlers call, each with whether it fails.
pub record Storage (S : Type 0) : Type 0 where
  pub store_add : Bytes → Peer → S → S × Bool
  pub store_remove : Bytes → Bytes → S → S × Bool
  pub store_get : Bytes → ℤ → S → Option (List Peer)
  pub store_complete : Bytes → S → S
  pub store_stats : Bytes → S → Option TorrentInfo

-- The store in memory, no call of which fails.
unfoldable pub memory_storage : Storage MemoryStorage
unfolding add_peer remove_peer get_peers increment_completed get_torrent_stats
memory_storage = record {
  store_add = λ info_hash peer m. (add_peer info_hash peer m, true);
  store_remove = λ info_hash id m. (remove_peer info_hash id m, true);
  store_get = λ info_hash n m. some (get_peers info_hash n m);
  store_complete = increment_completed;
  store_stats = λ info_hash m. some (get_torrent_stats info_hash m);
}

-- `url.Values`, the two headers, and the host of the remote address.
pub record Request : Type 0 where
  pub params : Map Bytes (List Bytes)
  pub real_ip : Bytes
  pub forwarded_for : Bytes
  pub remote_host : Bytes

-- `Get` of `url.Values`: the first value, or the empty string.
unfoldable pub param : Request → Bytes → Bytes
param r key = elim (get bytes_discrete key r.params) [ none ↦ [] | some vs ↦ first vs ]
  where
    first : List Bytes → Bytes
    first [] = []
    first (v ∷ vs) = v

abbrev pub is_empty : Bytes → Bool
is_empty s = length s == 0

-- `strings.Split(ip, ",")[0]`
abbrev pub before_comma : Bytes → Bytes
before_comma [] = []
before_comma (c ∷ cs) = if c == 0x2c then [] else c ∷ before_comma cs

unfoldable pub get_client_ip : Request → Bytes
get_client_ip r =
    if not (is_empty r.real_ip)
    then r.real_ip
    else if not (is_empty r.forwarded_for)
    then before_comma r.forwarded_for
    else if equal r.remote_host (codes "::1")
    then codes "127.0.0.1"
    else r.remote_host

-- The entries of `convertPeersToList`.
pub record PeerEntry : Type 0 where
  pub peer_id : Bytes
  pub ip : Bytes
  pub port : ℤ

unfoldable pub convert_peers_to_list : List Peer → List PeerEntry
convert_peers_to_list = map (λ p. record { peer_id = p.id; ip = p.ip; port = p.port })

pub data Response : Type 0 where
  failure : Bytes → Response
  announced : List PeerEntry → ℕ → Response

abbrev pub interval : ℕ
interval = 1800

-- The loop that leaves the requesting peer out.
unfoldable pub filter_peers : Bytes → List Peer → List Peer
filter_peers peer_id [] = []
filter_peers peer_id (p ∷ peers) =
    let rest = filter_peers peer_id peers in if not (equal p.id peer_id) then p ∷ rest else rest

-- `numWant`, where 0 stands for 50.
unfoldable pub num_want : Request → ℤ
unfolding param parse_int
num_want r =
    let n = parse_int (param r (codes "numwant")) in
    if leb_ℤ n (pos 0) && leb_ℤ (pos 0) n then pos 50 else n

-- The peer that a request announces, seen now.
unfoldable pub announced_peer : ℕ → Request → Peer
unfolding param parse_int get_client_ip
announced_peer now r = record {
  id = param r (codes "peer_id");
  ip = get_client_ip r;
  port = parse_int (param r (codes "port"));
  uploaded = parse_int (param r (codes "uploaded"));
  downloaded = parse_int (param r (codes "downloaded"));
  left = parse_int (param r (codes "left"));
  last_seen = now;
}

module _ {S : Type 0} (store : Storage S) where
  -- The end of the handler, behind the switch: the peers of the torrent without the one that asks.
  unfoldable pub answer_peers : Bytes → Bytes → ℤ → S × Bool → S × Response
  unfolding filter_peers convert_peers_to_list
  answer_peers info_hash peer_id n (s, ok) =
      if not ok
      then (s, failure (codes "Storage error"))
      else elim (store.store_get info_hash n s) [
        | none ↦ (s, failure (codes "Failed to get peers"))
        | some peers ↦ (s, announced (convert_peers_to_list (filter_peers peer_id peers)) interval)
      ]

  -- The case "stopped".
  unfoldable pub answer_stopped : S × Bool → S × Response
  answer_stopped (s, ok) =
      if not ok then (s, failure (codes "Failed to remove peer")) else (s, announced [] interval)

  -- The case "completed": the count goes up whether the peer could be added or not.
  unfoldable pub complete : Bytes → Peer → S → S × Bool
  complete info_hash peer s =
      let added = store.store_add info_hash (record peer { left = pos 0 }) s in
      (store.store_complete info_hash added.0, added.1)

  -- The switch on the event and what follows.
  unfoldable pub handle_event : Bytes → Bytes → Peer → ℤ → S → S × Response
  unfolding answer_peers answer_stopped complete
  handle_event event info_hash peer n s =
      if equal event (codes "stopped")
      then answer_stopped (store.store_remove info_hash peer.id s)
      else answer_peers info_hash peer.id n (
          if equal event (codes "completed")
          then complete info_hash peer s
          else store.store_add info_hash peer s)

  unfoldable pub handle_announce : ℕ → Request → S → S × Response
  unfolding param announced_peer num_want handle_event decode_info_hash
  handle_announce now r s =
      let info_hash_str = param r (codes "info_hash") in
      if is_empty info_hash_str
        || (is_empty (param r (codes "peer_id")) || is_empty (param r (codes "port")))
      then (s, failure (codes "Missing required parameters"))
      else elim (decode_info_hash info_hash_str) [
        | none ↦ (s, failure (codes "Invalid info_hash"))
        | some info_hash ↦
            handle_event (param r (codes "event")) info_hash (announced_peer now r) (num_want r) s
      ]

  -- The numbers that a scrape gives of one torrent.
  unfoldable pub scrape_one : Bytes → S → ℕ × ℕ × ℤ
  scrape_one info_hash s = elim (store.store_stats info_hash s) [
    | none ↦ (0, 0, pos 0)
    | some stats ↦ (length stats.seeders, length stats.leechers, stats.completed)
  ]

  -- The loop of `handleScrape` over the hashes asked for; the keys are the hashes as given.
  unfoldable pub scrape_all : List Bytes → S → Map Bytes (ℕ × ℕ × ℤ) → Map Bytes (ℕ × ℕ × ℤ)
  unfolding scrape_one decode_info_hash
  scrape_all [] s files = files
  scrape_all (info_hash_str ∷ strs) s files =
      scrape_all strs s (elim (decode_info_hash info_hash_str) [
        | none ↦ files
        | some info_hash ↦ put bytes_discrete info_hash_str (scrape_one info_hash s) files
      ])

  unfoldable pub handle_scrape : Request → S → Map Bytes (ℕ × ℕ × ℤ)
  unfolding scrape_all
  handle_scrape r s = elim (get bytes_discrete (codes "info_hash") r.params) [
    | none ↦ []
    | some strs ↦ scrape_all strs s []
  ]
