-- ===== src/Tracker/Redis/Expiry.antt =====
-- `CleanupExpiredPeers` of tracker/redis_storage.go: which peers are known behind it.
use pixtorrent.Prelude.{
  ℕ, ◌*◌, Bool, true, false, ◌||◌, Option, none, some, List, [], ◌∷◌, map, Bytes, bytes_discrete,
  codes, if◌then◌else◌, ◌≡◌, ◌≢◌, refl, sym, ap, subst, ◌∙◌, ite, if_pos, if_neg, Bool-cases, inl,
  inr,
}
use pixtorrent.Prelude.Int.{ℤ, ltb_ℤ, sub_ℕ}
use pixtorrent.Prelude.Maps.{Map, get}
use pixtorrent.Meta.Torrent.{chain}
use pixtorrent.P2p.Pieces.{equal}
use pixtorrent.P2p.Pieces.Verify.{equal_iff}
use pixtorrent.Tracker.Memory.Sets.{equal_ne}
use pixtorrent.Tracker.Redis.{
  Command, RedisClient, del, unix, peer_key, torrent_peers_key, get_peer,
}
use pixtorrent.Tracker.Redis.Agreement.{get_peer-read_hash}
use pixtorrent.Tracker.Redis.Cleanup.{
  read_int, scan_keys, srem_all, expel_key, expel_keys, cleanup_expired_peers,
}
use pixtorrent.Tracker.Redis.Commands.{IsRedis}
use pixtorrent.Tracker.Redis.Hashes.{read_hash}
use pixtorrent.Tracker.Redis.Keys.{peer_key_inj}
use pixtorrent.Tracker.Redis.Times.{
  is_stale, kept, nothing_kept, kept_twice, recent, HasTime, read_hash-kept,
}
use pixtorrent.Tracker.Redis.Visited.{visited, expel_from-visited}

abbrev pub is_among : Bytes → List Bytes → Bool
is_among q [] = false
is_among q (id ∷ ids) = equal q id || is_among q ids

module _ {D : Type 0} {client : RedisClient D} {run : Command → D → D}
    {hash : Bytes → D → Map Bytes Bytes} {member : Bytes → Bytes → D → Bool}
    (doc : IsRedis client run hash member) where
  srem_all-hash :
      (q id : Bytes) (hs : List Bytes) (d : D)
      → hash q (srem_all client (map torrent_peers_key hs) id d) ≡ hash q d
  unfolding srem_all
  srem_all-hash q id [] d = refl
  srem_all-hash q id (h ∷ hs) d =
      srem_all-hash q id hs _
      ∙ ap (λ r. hash q r.0) (doc.exec_runs _ d ((h, refl), tt))
      ∙ doc.hash_srem _ _ _ d

  -- The scan of the torrents gives keys of torrents, whatever the data.
  abbrev pub ScansTorrents : ℕ → Type 0
  ScansTorrents fuel =
      (d : D)
      → (hs : List Bytes) × (scan_keys client fuel 0 (codes "torrent:*:peers") d
          ≡ map torrent_peers_key hs)

  module _ (fuel : ℕ) (cutoff : ℤ) (torrents : ScansTorrents fuel) where
    deleted_hash :
        (q id : Bytes) (d : D)
        → hash q
            (client.exec
              (del (peer_key id) ∷ [])
              (srem_all client (scan_keys client fuel 0 (codes "torrent:*:peers") d) id d)).0
          ≡ ite (bytes_discrete q (peer_key id)) [] (hash q d)
    deleted_hash q id d =
        let (hs, e) = torrents d in
        ap (λ r. hash q r.0) (doc.exec_runs _ _ ((id, refl), tt))
        ∙ doc.hash_del _ _ _
        ∙ ap (ite (bytes_discrete q (peer_key id)) [])
            (ap (λ ks. hash q (srem_all client ks id d)) e ∙ srem_all-hash q id hs d)

    expelled : Bytes → D → D
    expelled id d =
        (client.exec (del (peer_key id) ∷ [])
          (srem_all client (scan_keys client fuel 0 (codes "torrent:*:peers") d) id d)).0

    expel_key-step :
        (id : Bytes) (d : D)
        → expel_key client fuel cutoff (peer_key id) d
          ≡ (if is_stale cutoff (hash (peer_key id) d) then expelled id d else d)
    unfolding expel_key expelled
    expel_key-step id d =
        ap
          (λ o. elim (chain o (λ v. chain v read_int)) [
            | none ↦ d
            | some last_seen ↦ if ltb_ℤ last_seen cutoff then expelled id d else d
          ])
          (doc.hget_hash (peer_key id) (codes "last_seen") d)
        ∙ by_time (chain (get bytes_discrete (codes "last_seen") (hash (peer_key id) d)) read_int)
            (expelled id d) d
      where
        by_time :
            (o : Option ℤ) (a b : D)
            → elim o [ none ↦ b | some s ↦ if ltb_ℤ s cutoff then a else b ]
              ≡ (if elim o [ none ↦ false | some s ↦ ltb_ℤ s cutoff ] then a else b)
        by_time none a b = refl
        by_time (some s) a b = refl

    expel_self :
        (id : Bytes) (d : D)
        → hash (peer_key id) (expel_key client fuel cutoff (peer_key id) d)
          ≡ kept cutoff (hash (peer_key id) d)
    unfolding expelled
    expel_self id d =
        ap (hash (peer_key id)) (expel_key-step id d)
        ∙ elim (Bool-cases (is_stale cutoff (hash (peer_key id) d))) [
          | inl e ↦ rw e (
              deleted_hash (peer_key id) id d
              ∙ if_pos {C = Map Bytes Bytes} (bytes_discrete (peer_key id) (peer_key id)) refl _ _)
          | inr e ↦ rw e refl
        ]

    expel_other :
        (q id : Bytes) (d : D)
        → q ≢ id
        → hash (peer_key q) (expel_key client fuel cutoff (peer_key id) d) ≡ hash (peer_key q) d
    unfolding expelled
    expel_other q id d ne =
        ap (hash (peer_key q)) (expel_key-step id d)
        ∙ elim (Bool-cases (is_stale cutoff (hash (peer_key id) d))) [
          | inl e ↦ rw e (
              deleted_hash (peer_key q) id d
              ∙ if_neg {C = Map Bytes Bytes} (bytes_discrete (peer_key q) (peer_key id))
                  (λ k. ne (peer_key_inj q id k)) _ _)
          | inr e ↦ rw e refl
        ]

    expel_keys-hash :
        (q : Bytes) (ids : List Bytes) (d : D)
        → hash (peer_key q) (expel_keys client fuel cutoff (map peer_key ids) d)
          ≡ (if is_among q ids then kept cutoff (hash (peer_key q) d) else hash (peer_key q) d)
    unfolding expel_keys
    expel_keys-hash q [] d = refl
    expel_keys-hash q (id ∷ ids) d =
        expel_keys-hash q ids (expel_key client fuel cutoff (peer_key id) d)
        ∙ elim (bytes_discrete q id) [
          | yes e ↦ rw ((equal_iff q id).1 e) (elim (Bool-cases (is_among q ids)) [
            | inl k ↦ rw k (ap (kept cutoff) (same id d e) ∙ kept_twice cutoff _)
            | inr k ↦ rw k (same id d e)
          ])
          | no ne ↦ rw (equal_ne q id ne, expel_other q id d ne) refl
        ]
      where
        same :
            (id : Bytes) (d : D)
            → q ≡ id
            → hash (peer_key q) (expel_key client fuel cutoff (peer_key id) d)
              ≡ kept cutoff (hash (peer_key q) d)
        same id d e =
            subst
              (λ k.
                hash (peer_key k) (expel_key client fuel cutoff (peer_key id) d)
                ≡ kept cutoff (hash (peer_key k) d))
              (sym e) (expel_self id d)

  -- After a cleanup exactly the peers are known that were and were seen within the last thirty
  -- minutes, in whole seconds, with their data; and the cleanup ends without an error. Redis answers
  -- as documented and every hash of a peer has its time; the run of the cleanup meets the keys of
  -- some peers, among them every key that has a hash, and comes back to cursor 0; and the scans of
  -- the torrents give keys of torrents.
  pub cleanup_expired_peers-recent :
      (rounds fuel now : ℕ) (d : D) (ids : List Bytes)
      → ((q : Bytes) → HasTime (hash (peer_key q) d))
      → visited client rounds fuel (sub_ℕ (unix now) (30 * 60)) 0 d ≡ some (map peer_key ids)
      → ((q : Bytes) → is_among q ids ≡ false → hash (peer_key q) d ≡ [])
      → ScansTorrents fuel
      → (d' : D) × (cleanup_expired_peers client rounds fuel now d ≡ some (d', true))
        × ((q : Bytes) → get_peer client q d' ≡ recent now (get_peer client q d))
  unfolding cleanup_expired_peers
  cleanup_expired_peers-recent rounds fuel now d ids timed run_keys all_met torrents = (
    expel_keys client fuel cutoff (map peer_key ids) d,
    expel_from-visited client rounds fuel cutoff 0 d (map peer_key ids) run_keys,
    λ q.
        get_peer-read_hash doc q _
        ∙ ap (read_hash q) (expel_keys-hash fuel cutoff torrents q ids d ∙ met q)
        ∙ read_hash-kept now q (hash (peer_key q) d) (timed q)
        ∙ ap (recent now) (sym (get_peer-read_hash doc q d)),
  )
    where
      cutoff : ℤ
      cutoff = sub_ℕ (unix now) (30 * 60)

      met :
          (q : Bytes)
          → (if is_among q ids then kept cutoff (hash (peer_key q) d) else hash (peer_key q) d)
            ≡ kept cutoff (hash (peer_key q) d)
      met q = elim (Bool-cases (is_among q ids)) [
        | inl e ↦ rw e refl
        | inr e ↦ rw e (
            subst (λ k. k ≡ kept (sub_ℕ (unix now) (30 * 60)) k) (sym (all_met q e))
              (nothing_kept (sub_ℕ (unix now) (30 * 60))))
      ]
