-- ===== src/Tracker/Redis/Agreement.antt =====
-- The two stores of tracker/: what tracker/redis_storage.go shows is what tracker/memory_storage.go
-- shows, with times in whole seconds, behind announces and leaves.
use pixtorrent.Prelude.{
  Bool, not, ◌&&◌, ◌||◌, [], Bytes, bytes_discrete, IsByte, All, ◌≡◌, ◌≢◌, refl, sym, ap, subst,
  ◌∙◌, ite, if_pos, if_neg,
}
use pixtorrent.Prelude.Maps.{Map, get-put_self, get-put_ne, get-delete}
use pixtorrent.P2p.Pieces.{equal}
use pixtorrent.P2p.Pieces.Verify.{equal_iff}
use pixtorrent.Tracker.Memory
use pixtorrent.Tracker.Memory.{Peer, MemoryStorage}
use pixtorrent.Tracker.Memory.Sets.{equal_ne, holds_id, holds_id-add_peer, holds_id-remove_peer}
use pixtorrent.Tracker.Redis.{
  Command, RedisClient, peer_key, torrent_peers_key, peer_fields, add_peer, remove_peer, get_peer,
}
use pixtorrent.Tracker.Redis.Commands.{IsRedis, set_fields}
use pixtorrent.Tracker.Redis.Keys.{
  peer_key_inj, peer_key-ne-torrent_peers_key, torrent_peers_key_inj,
}
use pixtorrent.Tracker.Redis.Hashes.{
  in_seconds, IsStorable, read_hash, nothing_known, read_hash-peer_fields,
}

module _ {D : Type 0} {client : RedisClient D} {run : Command → D → D}
    {hash : Bytes → D → Map Bytes Bytes} {member : Bytes → Bytes → D → Bool}
    (doc : IsRedis client run hash member) where
  -- The same peers, with times in whole seconds, and the same ids under each torrent.
  pub record Agrees (d : D) (m : MemoryStorage) : Type 0 where
    pub same_peers : (q : Bytes) → get_peer client q d ≡ in_seconds (Memory.get_peer q m)
    pub same_members :
        (g q : Bytes) → All IsByte g → member (torrent_peers_key g) q d ≡ holds_id g q m

  pub get_peer-read_hash :
      (q : Bytes) (d : D) → get_peer client q d ≡ read_hash q (hash (peer_key q) d)
  unfolding get_peer read_hash
  get_peer-read_hash q d = rw (doc.hget_all_hash (peer_key q) d, get_peer)

  module _ (h : Bytes) (p : Peer) (d : D) where
    added_hash :
        (key : Bytes)
        → hash key (add_peer client h p d).0
          ≡ ite
              (bytes_discrete key (peer_key p.id))
              (set_fields (peer_fields p) (hash key d))
              (hash key d)
    unfolding add_peer
    added_hash key =
        ap (λ r. hash key r.0) (doc.exec_runs _ d ((p.id, refl), ((h, refl), (tt, (tt, tt)))))
        ∙ doc.hash_expire _ _ _ _
        ∙ doc.hash_expire _ _ _ _
        ∙ doc.hash_sadd _ _ _ _
        ∙ doc.hash_hset _ _ _ d

    added_member :
        (key q : Bytes)
        → member key q (add_peer client h p d).0
          ≡ (equal key (torrent_peers_key h) && equal q p.id || member key q d)
    unfolding add_peer
    added_member key q =
        ap (λ r. member key q r.0) (doc.exec_runs _ d ((p.id, refl), ((h, refl), (tt, (tt, tt)))))
        ∙ doc.member_expire _ _ _ _ _
        ∙ doc.member_expire _ _ _ _ _
        ∙ doc.member_sadd _ _ _ _ _
        ∙ ap (λ b. equal key (torrent_peers_key h) && equal q p.id || b) (doc.member_hset _ _ _ _ d)

  removed_hash :
      (h id : Bytes) (d : D) (key : Bytes)
      → hash key (remove_peer client h id d).0
        ≡ ite (bytes_discrete key (peer_key id)) [] (hash key d)
  unfolding remove_peer
  removed_hash h id d key =
      ap (λ r. hash key r.0) (doc.exec_runs _ d ((id, refl), ((h, refl), tt)))
      ∙ doc.hash_srem _ _ _ _
      ∙ doc.hash_del _ _ d

  removed_member :
      (h id : Bytes) (d : D) (g q : Bytes)
      → member (torrent_peers_key g) q (remove_peer client h id d).0 ≡ (
          not (equal (torrent_peers_key g) (torrent_peers_key h) && equal q id)
          && member (torrent_peers_key g) q d)
  unfolding remove_peer
  removed_member h id d g q =
      ap (λ r. member (torrent_peers_key g) q r.0) (doc.exec_runs _ d ((id, refl), ((h, refl), tt)))
      ∙ doc.member_srem _ _ _ _ _
      ∙ ap (λ b. not (equal (torrent_peers_key g) (torrent_peers_key h) && equal q id) && b)
          (doc.member_del _ _ _ d
            ∙ rw (
                equal_ne (torrent_peers_key g) (peer_key id)
                  (λ e. peer_key-ne-torrent_peers_key id g (sym e))))

  torrent_keys_equal :
      (g h : Bytes)
      → All IsByte g
      → All IsByte h
      → equal (torrent_peers_key g) (torrent_peers_key h) ≡ equal g h
  torrent_keys_equal g h a b = elim (bytes_discrete g h) [
    | yes e ↦ (equal_iff _ _).1 (ap torrent_peers_key e) ∙ sym ((equal_iff g h).1 e)
    | no ne ↦ equal_ne _ _ (λ e. ne (torrent_peers_key_inj g h a b e)) ∙ sym (equal_ne g h ne)
  ]

  added_self :
      (h : Bytes) (p : Peer) (d : D) (m : MemoryStorage)
      → IsStorable p
      → get_peer client p.id (add_peer client h p d).0
        ≡ in_seconds (Memory.get_peer p.id (Memory.add_peer h p m))
  unfolding Memory.get_peer Memory.add_peer
  added_self h p d m s =
      get_peer-read_hash p.id _
      ∙ ap (read_hash p.id) (
          added_hash h p d (peer_key p.id)
          ∙ if_pos {C = Map Bytes Bytes} (bytes_discrete (peer_key p.id) (peer_key p.id)) refl _ _)
      ∙ read_hash-peer_fields p (hash (peer_key p.id) d) s
      ∙ ap in_seconds (sym (get-put_self bytes_discrete p.id p m.peers))

  added_other :
      (h : Bytes) (p : Peer) (d : D) (m : MemoryStorage) (q : Bytes)
      → q ≢ p.id
      → Agrees d m
      → get_peer client q (add_peer client h p d).0
        ≡ in_seconds (Memory.get_peer q (Memory.add_peer h p m))
  unfolding Memory.get_peer Memory.add_peer
  added_other h p d m q ne v =
      get_peer-read_hash q _
      ∙ ap (read_hash q) (
          added_hash h p d (peer_key q)
          ∙ if_neg {C = Map Bytes Bytes} (bytes_discrete (peer_key q) (peer_key p.id))
              (λ e. ne (peer_key_inj q p.id e)) _ _)
      ∙ sym (get_peer-read_hash q d)
      ∙ v.same_peers q
      ∙ ap in_seconds (sym (get-put_ne bytes_discrete p.id q p m.peers ne))

  -- An announce in both stores keeps them in agreement. Redis answers as documented, the numbers of
  -- the peer are int64, and the hash consists of bytes.
  pub add_peer-Agrees :
      (h : Bytes) (p : Peer) (d : D) (m : MemoryStorage)
      → IsStorable p
      → All IsByte h
      → Agrees d m
      → Agrees (add_peer client h p d).0 (Memory.add_peer h p m)
  add_peer-Agrees h p d m s b v = record {
    same_peers = λ q. elim (bytes_discrete q p.id) [
      | yes e ↦
          subst
            (λ k.
              get_peer client k (add_peer client h p d).0
              ≡ in_seconds (Memory.get_peer k (Memory.add_peer h p m)))
            (sym e) (added_self h p d m s)
      | no ne ↦ added_other h p d m q ne v
    ];
    same_members = λ g q a.
        added_member h p d (torrent_peers_key g) q
        ∙ rw (torrent_keys_equal g h a b, v.same_members g q a)
            (sym (holds_id-add_peer g h q m a b p));
  }

  removed_peer :
      (h id : Bytes) (d : D) (m : MemoryStorage) (q : Bytes)
      → Agrees d m
      → get_peer client q (remove_peer client h id d).0
        ≡ in_seconds (Memory.get_peer q (Memory.remove_peer h id m))
  unfolding Memory.get_peer Memory.remove_peer
  removed_peer h id d m q v =
      get_peer-read_hash q _
      ∙ ap (read_hash q) (removed_hash h id d (peer_key q))
      ∙ elim (bytes_discrete q id) [
        | yes e ↦
            ap (read_hash q) (
              if_pos {C = Map Bytes Bytes} (bytes_discrete (peer_key q) (peer_key id))
                (ap peer_key e) _ _)
            ∙ nothing_known q
            ∙ ap in_seconds
                (sym (get-delete bytes_discrete id q m.peers ∙ if_pos (bytes_discrete q id) e _ _))
        | no ne ↦
            ap (read_hash q) (
              if_neg {C = Map Bytes Bytes} (bytes_discrete (peer_key q) (peer_key id))
                (λ e. ne (peer_key_inj q id e)) _ _)
            ∙ sym (get_peer-read_hash q d)
            ∙ v.same_peers q
            ∙ ap in_seconds
                (sym (get-delete bytes_discrete id q m.peers ∙ if_neg (bytes_discrete q id) ne _ _))
      ]

  -- A leave in both stores keeps them in agreement, where Redis answers as documented and the hash
  -- consists of bytes.
  pub remove_peer-Agrees :
      (h id : Bytes) (d : D) (m : MemoryStorage)
      → All IsByte h
      → Agrees d m
      → Agrees (remove_peer client h id d).0 (Memory.remove_peer h id m)
  remove_peer-Agrees h id d m b v = record {
    same_peers = λ q. removed_peer h id d m q v;
    same_members = λ g q a.
        removed_member h id d g q
        ∙ rw (torrent_keys_equal g h a b, v.same_members g q a)
            (sym (holds_id-remove_peer g h q m a b id));
  }
