-- ===== src/Tracker/Redis/Announces.antt =====
-- The announce handler of tracker/server.go over the two stores: a tracker over Redis does what a
-- tracker over memory does.
use pixtorrent.Prelude.{
  ℕ, ◌/◌, ◌^◌, ◌<◌, Bool, true, false, ◌||◌, List, [], ◌∷◌, Bytes, codes, IsByte, All, ◌≡◌, refl,
  sym, ap, ◌∙◌, arith, Bool-cases, Option-cases, inl, inr,
}
use pixtorrent.Prelude.Int.{ℤ, pos}
use pixtorrent.Prelude.Maps.{Map}
use pixtorrent.P2p.Pieces.{equal}
use pixtorrent.Tracker.Memory
use pixtorrent.Tracker.Memory.{Peer, MemoryStorage, ids_of}
use pixtorrent.Tracker.Query.{decode_info_hash}
use pixtorrent.Tracker.Query.Range.{parse_int-IsInt64, decode_info_hash-IsByte}
use pixtorrent.Tracker.Redis.{
  Command, RedisClient, second, torrent_peers_key, peer_key, increment_completed, redis_storage,
}
use pixtorrent.Tracker.Redis.Agreement.{
  Agrees, get_peer-read_hash, add_peer-Agrees, remove_peer-Agrees,
}
use pixtorrent.Tracker.Redis.Hashes.{IsStorable, read_hash}
use pixtorrent.Tracker.Redis.Commands.{IsRedis}
use pixtorrent.Tracker.Redis.Keys.{peer_key-ne-torrent_stats_key}
use pixtorrent.Tracker.Server.{
  Request, Storage, memory_storage, is_empty, param, num_want, announced_peer, answer_peers,
  answer_stopped, complete, handle_event, handle_announce,
}

-- The store behind the end of the handler is the one before it.
answer_peers-store :
    {S : Type 0} (store : Storage S) (h id : Bytes) (n : ℤ) (r : S × Bool)
    → (answer_peers store h id n r).0 ≡ r.0
unfolding answer_peers
answer_peers-store store h id n (s, false) = refl
answer_peers-store store h id n (s, true) = elim (Option-cases (store.store_get h n s)) [
  | inl e ↦ rw (e, answer_peers)
  | inr (peers, e) ↦ rw (e, answer_peers)
]

answer_stopped-store :
    {S : Type 0} (store : Storage S) (r : S × Bool) → (answer_stopped store r).0 ≡ r.0
unfolding answer_stopped
answer_stopped-store store (s, false) = refl
answer_stopped-store store (s, true) = refl

announced_peer-IsStorable :
    (now : ℕ) (r : Request) → now / second < 2 ^ 63 → IsStorable (announced_peer now r)
unfolding announced_peer
announced_peer-IsStorable now r h = record {
  port_int64 = parse_int-IsInt64 (param r (codes "port"));
  uploaded_int64 = parse_int-IsInt64 (param r (codes "uploaded"));
  downloaded_int64 = parse_int-IsInt64 (param r (codes "downloaded"));
  left_int64 = parse_int-IsInt64 (param r (codes "left"));
  seen_int64 = h;
}

completed-IsStorable : (p : Peer) → IsStorable p → IsStorable (record p { left = pos 0 })
completed-IsStorable p s = record {
  port_int64 = s.port_int64;
  uploaded_int64 = s.uploaded_int64;
  downloaded_int64 = s.downloaded_int64;
  left_int64 = omega arith;
  seen_int64 = s.seen_int64;
}

module _ {D : Type 0} {client : RedisClient D} {run : Command → D → D}
    {hash : Bytes → D → Map Bytes Bytes} {member : Bytes → Bytes → D → Bool}
    (doc : IsRedis client run hash member) where
  increment_completed-Agrees :
      (h : Bytes) (d : D) (m : MemoryStorage)
      → Agrees doc d m
      → Agrees doc (increment_completed client h d).0 (Memory.increment_completed h m)
  unfolding increment_completed Memory.increment_completed Memory.get_peer ids_of
  increment_completed-Agrees h d m v = record {
    same_peers = λ q.
        get_peer-read_hash doc q _
        ∙ ap (read_hash q) (
            ap (λ r. hash (peer_key q) r.0) (doc.exec_runs _ d ((h, refl), tt))
            ∙ doc.hash_hincrby _ _ _ _ d (peer_key-ne-torrent_stats_key q h))
        ∙ sym (get_peer-read_hash doc q d)
        ∙ v.same_peers q;
    same_members = λ g q a.
        ap (λ r. member (torrent_peers_key g) q r.0) (doc.exec_runs _ d ((h, refl), tt))
        ∙ doc.member_hincrby _ _ _ _ _ d
        ∙ v.same_members g q a;
  }

  complete-Agrees :
      (h : Bytes) (p : Peer) (d : D) (m : MemoryStorage)
      → IsStorable p
      → All IsByte h
      → Agrees doc d m
      → Agrees doc (complete (redis_storage client) h p d).0 (complete memory_storage h p m).0
  unfolding complete redis_storage memory_storage
  complete-Agrees h p d m s b v =
      increment_completed-Agrees h _ _
        (add_peer-Agrees doc h (record p { left = pos 0 }) d m (completed-IsStorable p s) b v)

  handle_event-Agrees :
      (event h : Bytes) (p : Peer) (n : ℤ) (d : D) (m : MemoryStorage)
      → IsStorable p
      → All IsByte h
      → Agrees doc d m
      → Agrees doc
          (handle_event (redis_storage client) event h p n d).0
          (handle_event memory_storage event h p n m).0
  unfolding handle_event
  handle_event-Agrees event h p n d m s b v = elim (Bool-cases (equal event (codes "stopped"))) [
    | inl e ↦
        rw (e, answer_stopped-store (redis_storage client), answer_stopped-store memory_storage)
          (unfold redis_storage memory_storage in remove_peer-Agrees doc h p.id d m b v)
    | inr e ↦
        rw (e, answer_peers-store (redis_storage client), answer_peers-store memory_storage)
          (elim (Bool-cases (equal event (codes "completed"))) [
            | inl k ↦ rw k (complete-Agrees h p d m s b v)
            | inr k ↦
                rw k (unfold redis_storage memory_storage in add_peer-Agrees doc h p d m s b v)
          ])
  ]

  -- One announce, of any kind and with any parameters.
  handle_announce-Agrees :
      (now : ℕ) (r : Request) (d : D) (m : MemoryStorage)
      → now / second < 2 ^ 63
      → All IsByte (param r (codes "info_hash"))
      → Agrees doc d m
      → Agrees doc
          (handle_announce (redis_storage client) now r d).0
          (handle_announce memory_storage now r m).0
  unfolding handle_announce
  handle_announce-Agrees now r d m early bytes v =
      elim (Bool-cases (
        is_empty (param r (codes "info_hash"))
        || (is_empty (param r (codes "peer_id")) || is_empty (param r (codes "port"))))) [
          | inl e ↦ rw e v
          | inr e ↦ elim (Option-cases (decode_info_hash (param r (codes "info_hash")))) [
            | inl bad ↦ rw (e, bad, handle_announce) v
            | inr (h, good) ↦
                rw (e, good, handle_announce)
                  (handle_event-Agrees (param r (codes "event")) h (announced_peer now r)
                    (num_want r) d m (announced_peer-IsStorable now r early)
                    (decode_info_hash-IsByte (param r (codes "info_hash")) h bytes good) v)
          ]
        ]

-- The announces that a tracker handles, one behind the other, each at its time.
unfoldable pub run_announces : {S : Type 0} → Storage S → List (ℕ × Request) → S → S
run_announces store [] s = s
run_announces store ((now, r) ∷ requests) s =
    run_announces store requests (handle_announce store now r s).0

-- A time that fits an int64 in seconds, and a hash of bytes.
abbrev pub IsAnnounce : ℕ × Request → Type 0
IsAnnounce (now, r) = (now / second < 2 ^ 63) × All IsByte (param r (codes "info_hash"))

-- A tracker over Redis implements the tracker over memory: behind the same announces, of any kinds
-- and in any number, both know the same peers with the same data, with times in whole seconds, and
-- the same ids under each torrent, if they did before. Redis answers as documented and no key
-- expires meanwhile; the times fit an int64 and the hashes consist of bytes.
pub run_announces-Agrees :
    {D : Type 0} {client : RedisClient D} {run : Command → D → D}
    {hash : Bytes → D → Map Bytes Bytes} {member : Bytes → Bytes → D → Bool}
    (doc : IsRedis client run hash member) (requests : List (ℕ × Request)) (d : D)
    (m : MemoryStorage)
    → All IsAnnounce requests
    → Agrees doc d m
    → Agrees doc
        (run_announces (redis_storage client) requests d)
        (run_announces memory_storage requests m)
unfolding run_announces
run_announces-Agrees doc [] d m h v = v
run_announces-Agrees doc ((now, r) ∷ requests) d m h v =
    run_announces-Agrees doc requests _ _ h.1 (handle_announce-Agrees doc now r d m h.0.0 h.0.1 v)
