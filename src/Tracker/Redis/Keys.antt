-- ===== src/Tracker/Redis/Keys.antt =====
-- The keys of tracker/redis_storage.go: which are different, and what `GetActiveTorrents` cuts out.
use pixtorrent.Prelude.{
  ℕ, ◌-◌, ◌≤◌, ◌<◌, true, List, [], ◌∷◌, ◌++◌, map, Bytes, codes, length, take, drop, slice, ltb,
  IsByte, All, ◌≡◌, ◌≢◌, refl, sym, ap, ◌∙◌, arith, length-append, take-append, lt→ltb, get_or,
}
use pixtorrent.Tracker.Hex.{encode_to_string, encode_to_string_inj, length-encode_to_string}
use pixtorrent.Tracker.Redis.{RedisClient, peer_key, torrent_peers_key, torrent_stats_key}
use pixtorrent.Tracker.Redis.Cleanup.{scan_keys, hashes_of, get_active_torrents}

pub peer_key_inj : (a b : Bytes) → peer_key a ≡ peer_key b → a ≡ b
peer_key_inj a b e = ap (drop 5) e

numbers_apart : (a b : ℕ) → a < b → a ≢ b
numbers_apart a b h e = omega arith

pub peer_key-ne-torrent_peers_key : (id h : Bytes) → peer_key id ≢ torrent_peers_key h
unfolding torrent_peers_key
peer_key-ne-torrent_peers_key id h e =
    numbers_apart 112 116 (omega arith) (ap (λ k. get_or k 0 0) e)

pub peer_key-ne-torrent_stats_key : (id h : Bytes) → peer_key id ≢ torrent_stats_key h
unfolding torrent_stats_key
peer_key-ne-torrent_stats_key id h e =
    numbers_apart 112 116 (omega arith) (ap (λ k. get_or k 0 0) e)

-- What stands before the same ending.
append_inj : (a b s : Bytes) → a ++ s ≡ b ++ s → a ≡ b
append_inj a b s e =
    let same : length a ≡ length b =
      omega (arith, length-append a s, length-append b s, ap length e) in
    sym (take-append a s (length a) refl)
    ∙ ap (take (length a)) e
    ∙ take-append b s (length a) (sym same)

pub torrent_peers_key_inj :
    (a b : Bytes) → All IsByte a → All IsByte b → torrent_peers_key a ≡ torrent_peers_key b → a ≡ b
unfolding torrent_peers_key
torrent_peers_key_inj a b h k e =
    encode_to_string_inj a b h k
      (append_inj (encode_to_string a) (encode_to_string b) (codes ":peers") (ap (drop 8) e))

hash_cut :
    (h : Bytes)
    → slice 8 (length (torrent_peers_key h) - 6) (torrent_peers_key h) ≡ encode_to_string h
unfolding torrent_peers_key
hash_cut h =
    take-append (encode_to_string h) (codes ":peers") _
      (omega (arith, length-append (encode_to_string h) (codes ":peers")))

key_long : (h : Bytes) → 2 ≤ length h → ltb 17 (length (torrent_peers_key h)) ≡ true
unfolding torrent_peers_key
key_long h k =
    lt→ltb _ _ (
      omega (arith, length-append (encode_to_string h) (codes ":peers"), length-encode_to_string h))

cut_all :
    (hs : List Bytes)
    → All (λ h. 2 ≤ length h) hs
    → hashes_of (map torrent_peers_key hs) ≡ map encode_to_string hs
unfolding hashes_of
cut_all [] k = refl
cut_all (h ∷ hs) k =
    rw (key_long h k.0, hash_cut h) (ap (◌∷◌ (encode_to_string h)) (cut_all hs k.1))

-- The hashes that `GetActiveTorrents` cuts out of the keys are those of the torrents, in their order,
-- in hexadecimal digits, if the scan gives the keys of torrents. A hash has at least two bytes.
pub get_active_torrents-keys :
    {D : Type 0} (client : RedisClient D) (fuel : ℕ) (d : D) (hashes : List Bytes)
    → All (λ h. 2 ≤ length h) hashes
    → scan_keys client fuel 0 (codes "torrent:*:peers") d ≡ map torrent_peers_key hashes
    → get_active_torrents client fuel d ≡ map encode_to_string hashes
unfolding get_active_torrents
get_active_torrents-keys client fuel d hashes long scanned = rw scanned (cut_all hashes long)
