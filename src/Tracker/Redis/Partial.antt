-- ===== src/Tracker/Redis/Partial.antt =====
-- `UpdatePeerLastSeen` of tracker/redis_storage.go for a peer that is not known.
use pixtorrent.Prelude.{
  ℕ, ◌/◌, ◌*◌, ◌^◌, ◌<◌, Bool, true, false, Option, none, some, [], ◌∷◌, Bytes, bytes_discrete,
  codes, length, ite, if_pos, if◌then◌else◌, ◌==◌, ◌≡◌, refl, sym, ap, ◌∙◌, arith,
}
use pixtorrent.Prelude.Int.{pos}
use pixtorrent.Prelude.Maps.{Map, get, put}
use pixtorrent.Tracker.Memory
use pixtorrent.Tracker.Memory.{Peer, MemoryStorage, is_seeder}
use pixtorrent.Tracker.Query.{parse_int}
use pixtorrent.Tracker.Query.Decimal.{parse_int-text_of}
use pixtorrent.Tracker.Redis.{
  Command, RedisClient, decimal_of, unix, second, peer_key, at_second, peer_of_hash, get_peer,
  update_peer_last_seen,
}
use pixtorrent.Tracker.Redis.Agreement.{get_peer-read_hash}
use pixtorrent.Tracker.Redis.Hashes.{read_hash, nothing_known}
use pixtorrent.Tracker.Redis.Commands.{IsRedis, set_fields}

-- A peer of which only the time is known.
abbrev pub ghost : Bytes → ℕ → Peer
ghost id now = record {
  id = id;
  ip = [];
  port = pos 0;
  uploaded = pos 0;
  downloaded = pos 0;
  left = pos 0;
  last_seen = now / second * second;
}

read_hash-ghost :
    (id : Bytes) (now : ℕ)
    → unix now < 2 ^ 63
    → read_hash id (set_fields ((codes "last_seen", decimal_of (pos (unix now))) ∷ []) [])
      ≡ some (ghost id now)
unfolding read_hash peer_of_hash get put parse_int bytes_discrete pixtorrent.Prelude.ℕ_discrete
read_hash-ghost id now h =
    ap (λ t. some (record (ghost id now) { last_seen = at_second t }))
      (parse_int-text_of (pos (unix now)) h)

still_unknown :
    (now : ℕ) (id : Bytes) (m : MemoryStorage)
    → get bytes_discrete id m.peers ≡ none
    → get bytes_discrete id (Memory.update_peer_last_seen now id m).peers ≡ none
unfolding Memory.update_peer_last_seen
still_unknown now id m h = rw (h, Memory.update_peer_last_seen) h

-- Marking an unknown peer as seen makes it known to the store in Redis: a peer without an address,
-- with nothing left, so a seeder; the store in memory does not know it afterwards either. Redis
-- answers as documented, and the time fits an int64 in seconds.
pub update_peer_last_seen_unknown :
    {D : Type 0} {client : RedisClient D} {run : Command → D → D}
    {hash : Bytes → D → Map Bytes Bytes} {member : Bytes → Bytes → D → Bool}
    (doc : IsRedis client run hash member) (now : ℕ) (id : Bytes) (d : D) (m : MemoryStorage)
    → unix now < 2 ^ 63
    → hash (peer_key id) d ≡ []
    → Memory.get_peer id m ≡ none
    → (get_peer client id d ≡ none)
      × (get_peer client id (update_peer_last_seen client now id d).0 ≡ some (ghost id now))
      × (is_seeder (ghost id now) ≡ true)
      × (Memory.get_peer id (Memory.update_peer_last_seen now id m) ≡ none)
unfolding update_peer_last_seen Memory.get_peer
update_peer_last_seen_unknown {hash = hash} doc now id d m h absent unknown = (
  get_peer-read_hash doc id d ∙ ap (read_hash id) absent ∙ nothing_known id,
  get_peer-read_hash doc id _
      ∙ ap (read_hash id) (
          ap (λ r. hash (peer_key id) r.0) (doc.exec_runs _ d ((id, refl), tt))
          ∙ doc.hash_hset _ _ _ d
          ∙ if_pos {C = Map Bytes Bytes} (bytes_discrete (peer_key id) (peer_key id)) refl _
              (hash (peer_key id) d)
          ∙ ap (set_fields ((codes "last_seen", decimal_of (pos (unix now))) ∷ [])) absent)
      ∙ read_hash-ghost id now h,
  refl,
  still_unknown now id m unknown,
)
