-- ===== src/Tracker/Redis/Cleanup.antt =====
-- The methods of tracker/redis_storage.go that scan the keys: the cleanup of expired peers and the list
-- of active torrents.
use pixtorrent.Prelude.{
  ℕ, zero, suc, ◌-◌, ◌*◌, ◌^◌, Bool, true, false, ◌&&◌, ◌||◌, Option, none, some, List, [], ◌∷◌,
  ◌++◌, Bytes, codes, length, drop, slice, ltb, ◌==◌, if◌then◌else◌,
}
use pixtorrent.Prelude.Int.{ℤ, ltb_ℤ, sub_ℕ}
use pixtorrent.Meta.Torrent.{chain}
use pixtorrent.Tracker.Query.{
  number, bad_syntax, out_of_range, plus, minus, parse_unsigned, parse_int,
}
use pixtorrent.Tracker.Redis.{RedisClient, srem, del, unix}

-- The digits behind a sign, and whether it is a minus.
abbrev pub sign_and_digits : Bytes → Bool × Bytes
sign_and_digits [] = (false, [])
sign_and_digits (c ∷ cs) =
    if c == plus then (false, cs) else if c == minus then (true, cs) else (false, c ∷ cs)

-- `strconv.ParseInt` where its error counts: `none`, also for what is no int64.
unfoldable pub read_int : Bytes → Option ℤ
unfolding parse_int parse_unsigned
read_int s = elim (parse_unsigned (sign_and_digits s).1) [
  | number n ↦
      if ltb n (2 ^ 63) || ((sign_and_digits s).0 && n == 2 ^ 63) then some (parse_int s) else none
  | bad_syntax ↦ none
  | out_of_range ↦ none
]

-- The loop of `GetActiveTorrents`.
unfoldable pub hashes_of : List Bytes → List Bytes
hashes_of [] = []
hashes_of (key ∷ keys) =
    let rest = hashes_of keys in
    if ltb 17 (length key) then slice 8 (length key - 6) key ∷ rest else rest

module _ {D : Type 0} (client : RedisClient D) where
  -- `scanKeys`: batches until the cursor is 0 again or a call fails; `fuel` bounds their number.
  unfoldable pub scan_keys : ℕ → ℕ → Bytes → D → List Bytes
  scan_keys zero cursor pattern d = []
  scan_keys (suc fuel) cursor pattern d = elim (client.scan cursor pattern d) [
    | none ↦ []
    | some batch ↦
        let more = scan_keys fuel batch.1 pattern d in
        if batch.1 == 0 then batch.0 else batch.0 ++ more
  ]

  -- The loop over the torrents of an expired peer; errors are dropped.
  unfoldable pub srem_all : List Bytes → Bytes → D → D
  srem_all [] id d = d
  srem_all (key ∷ keys) id d = srem_all keys id (client.exec (srem key id ∷ []) d).0

  -- The body for one key.
  unfoldable pub expel_key : ℕ → ℤ → Bytes → D → D
  unfolding scan_keys srem_all read_int
  expel_key fuel cutoff key d =
      elim (chain (client.hget key (codes "last_seen") d) (λ v. chain v read_int)) [
        | none ↦ d
        | some last_seen ↦
            if ltb_ℤ last_seen cutoff
            then (client.exec (del key ∷ [])
                (srem_all (scan_keys fuel 0 (codes "torrent:*:peers") d) (drop 5 key) d)).0
            else d
      ]

  unfoldable pub expel_keys : ℕ → ℤ → List Bytes → D → D
  unfolding expel_key
  expel_keys fuel cutoff [] d = d
  expel_keys fuel cutoff (key ∷ keys) d = expel_keys fuel cutoff keys (expel_key fuel cutoff key d)

  -- The outer loop of `CleanupExpiredPeers`: the data, and whether no call of `Scan` failed; `rounds`
  -- bounds the batches.
  unfoldable pub expel_from : ℕ → ℕ → ℤ → ℕ → D → Option (D × Bool)
  unfolding expel_keys
  expel_from zero fuel cutoff cursor d = none
  expel_from (suc rounds) fuel cutoff cursor d = elim (client.scan cursor (codes "peer:*") d) [
    | none ↦ some (d, false)
    | some batch ↦
        let d' = expel_keys fuel cutoff batch.0 d in
        let more = expel_from rounds fuel cutoff batch.1 d' in
        if batch.1 == 0 then some (d', true) else more
  ]

  unfoldable pub cleanup_expired_peers : ℕ → ℕ → ℕ → D → Option (D × Bool)
  unfolding expel_from
  cleanup_expired_peers rounds fuel now d = expel_from rounds fuel (sub_ℕ (unix now) (30 * 60)) 0 d

  unfoldable pub get_active_torrents : ℕ → D → List Bytes
  unfolding scan_keys hashes_of
  get_active_torrents fuel d = hashes_of (scan_keys fuel 0 (codes "torrent:*:peers") d)
