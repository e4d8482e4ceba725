-- ===== src/Tests/Tracker.antt =====
-- tracker/ at small inputs.
use pixtorrent.Prelude.{
  get_or, ℕ, ◌-◌, Bool, true, false, not, Option, none, some, List, [], ◌∷◌, map, Bytes,
  bytes_discrete, codes, take, length, replicate, contains, IsByte, All, if◌then◌else◌, is_some,
  ◌≡◌, ◌≢◌, refl, ap, arith, ite,
}
use pixtorrent.Prelude.Int.{ℤ, pos}
use pixtorrent.Prelude.Maps.{get}
use pixtorrent.Tracker.Memory.{
  Peer, MemoryStorage, ids_of, add_peer, remove_peer, expiry, cleanup_expired_peers,
}
use pixtorrent.Tracker.Memory.Cleanup.{fresh, cleanup_expired_peers_lem}
use pixtorrent.Tracker.Memory.Listed.{listed, IsValid}
use pixtorrent.Tracker.Memory.Queries.{peers_in}
use pixtorrent.Tracker.Query.{percent, decode_info_hash, query_unescape}
use pixtorrent.Tracker.Memory.{increment_completed, update_peer_last_seen}
use pixtorrent.Tracker.Memory.Valid.{methods-IsValid}
use pixtorrent.Tracker.Query.InfoHash.{plus_to_space, decode_info_hash_lem}
use pixtorrent.Meta.Bencode.Scan.{text_of, decimal, decimal_onto}
use pixtorrent.P2p.Pieces.{equal}
use pixtorrent.Tracker.Server.{
  Request, PeerEntry, announced, memory_storage, param, interval, get_client_ip, handle_announce,
}
use pixtorrent.Tracker.Server.Announce.{
  IsComplete, behind_event, entry_of, handle_announce_stopped, handle_announce_joined,
}
use pixtorrent.Tracker.Server.Others.{AreOthers, Says, IsWanted, not_given}

abbrev pub peer_of : Bytes → ℤ → Peer
peer_of id left = record {
  id = id;
  ip = codes "10.0.0.1";
  port = pos 6881;
  uploaded = pos 0;
  downloaded = pos 0;
  left = left;
  last_seen = 5;
}

-- Two torrents, by hashes of twenty bytes.
abbrev pub first : Bytes
first = replicate 20 0x61

abbrev second : Bytes
second = replicate 20 0x2b

pub first-bytes : All IsByte first
first-bytes = ground arith

abbrev pub ann : Bytes
ann = codes "ann"

-- Ann seeds the first torrent.
abbrev tracked : MemoryStorage
tracked = record { peers = (ann, peer_of ann (pos 0)) ∷ []; torrents = []; completed = [] }

tracked-IsValid : IsValid tracked
tracked-IsValid = record {
  peers_map = (tt, tt);
  torrents_map = tt;
  own_ids = (refl, tt);
  sets = tt;
  completed_map = tt;
}

methods-IsValid_example :
    IsValid (add_peer second (peer_of ann (pos 7)) tracked)
    × IsValid (remove_peer second ann tracked)
    × IsValid (increment_completed second tracked)
    × IsValid (update_peer_last_seen 9 ann tracked)
    × IsValid (cleanup_expired_peers 9 tracked)
methods-IsValid_example = methods-IsValid second ann (peer_of ann (pos 7)) 9 tracked tracked-IsValid

cleanup_expired_peers_lem_example :
    get bytes_discrete ann (cleanup_expired_peers 1_800_000_000_006 tracked).peers
    ≡ fresh (1_800_000_000_006 - expiry) (get bytes_discrete ann tracked.peers)
cleanup_expired_peers_lem_example =
    cleanup_expired_peers_lem 1_800_000_000_006 tracked ann tracked-IsValid

decode_info_hash_lem_example :
    decode_info_hash second
    ≡ (if contains percent second then none else some (map plus_to_space second))
decode_info_hash_lem_example = decode_info_hash_lem second refl

-- Bob announces the first torrent, and later stops.
abbrev pub request : Bytes → Request
request event = record {
  params =
      (codes "info_hash", first ∷ [])
      ∷ (codes "peer_id", codes "bob" ∷ [])
      ∷ (codes "port", codes "6882" ∷ [])
      ∷ (codes "uploaded", codes "0" ∷ [])
      ∷ (codes "downloaded", codes "70" ∷ [])
      ∷ (codes "left", codes "0" ∷ [])
      ∷ (codes "event", event ∷ [])
      ∷ [];
  real_ip = [];
  forwarded_for = [];
  remote_host = codes "::1";
}

started-IsComplete : IsComplete (request (codes "started")) first
unfolding param get decode_info_hash query_unescape bytes_discrete pixtorrent.Prelude.ℕ_discrete
started-IsComplete = record {
  has_info_hash = refl;
  has_peer_id = refl;
  has_port = refl;
  decoded = refl;
}

stopped-IsComplete : IsComplete (request (codes "stopped")) first
unfolding param get decode_info_hash query_unescape bytes_discrete pixtorrent.Prelude.ℕ_discrete
stopped-IsComplete = record {
  has_info_hash = refl;
  has_peer_id = refl;
  has_port = refl;
  decoded = refl;
}

started_not_stopped : param (request (codes "started")) (codes "event") ≢ codes "stopped"
unfolding param get bytes_discrete pixtorrent.Prelude.ℕ_discrete
started_not_stopped h = absurd (apart _ _ refl refl (ap (λ b. get_or b 2 0) h))
  where
    apart : (a b : ℕ) → a ≡ 97 → b ≡ 111 → a ≡ b → ⊥
    apart a b h k e = omega arith

handle_announce_stopped_example :
    let after = handle_announce memory_storage 9 (request (codes "stopped")) tracked in
    (after.1 ≡ announced [] interval)
    × ((g q : Bytes)
        → listed g q after.0
          ≡ ite
              (bytes_discrete q (param (request (codes "stopped")) (codes "peer_id")))
              none
              (listed g q tracked))
unfolding param get bytes_discrete pixtorrent.Prelude.ℕ_discrete
handle_announce_stopped_example =
    handle_announce_stopped 9 (request (codes "stopped")) first tracked stopped-IsComplete refl

-- Bob, as he announces himself.
abbrev bob : Peer
bob = record {
  id = codes "bob";
  ip = codes "127.0.0.1";
  port = pos 6882;
  uploaded = pos 0;
  downloaded = pos 70;
  left = pos 0;
  last_seen = 9;
}

started-Says : Says 9 (request (codes "started")) bob
unfolding param get get_client_ip equal bytes_discrete pixtorrent.Prelude.ℕ_discrete text_of decimal
    decimal_onto
started-Says = record {
  id_said = refl;
  ip_said = refl;
  port_said = (refl, omega arith);
  uploaded_said = (refl, omega arith);
  downloaded_said = (refl, omega arith);
  left_said = (refl, omega arith);
  seen_now = refl;
}

started-IsWanted : IsWanted (param (request (codes "started")) (codes "numwant")) 50
unfolding param get bytes_discrete pixtorrent.Prelude.ℕ_discrete
started-IsWanted = not_given

handle_announce_joined_example :
    let r = request (codes "started") in
    let m' = (handle_announce memory_storage 9 r tracked).0 in
    (listed first (codes "bob") m' ≡ some (behind_event (param r (codes "event")) bob))
    × ((got : List PeerEntry) × ((handle_announce memory_storage 9 r tracked).1
          ≡ announced got 1800)
        × AreOthers entry_of (codes "bob") (take 50 (peers_in (ids_of first m') m')) got)
handle_announce_joined_example =
    handle_announce_joined 9 (request (codes "started")) first tracked bob 50 started-IsComplete
      first-bytes started-Says started-IsWanted started_not_stopped

-- A request without parameters.
abbrev bare : Request
bare = record { params = []; real_ip = []; forwarded_for = []; remote_host = [] }
