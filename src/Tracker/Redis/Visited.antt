-- ===== src/Tracker/Redis/Visited.antt =====
-- The run of `CleanupExpiredPeers` of tracker/redis_storage.go over the batches of its cursor.
use pixtorrent.Prelude.{
  ℕ, zero, suc, true, Option, none, some, List, [], ◌∷◌, ◌++◌, Bytes, codes, ◌==◌, if◌then◌else◌,
  ◌≡◌, refl, sym, ap, ◌∙◌, Bool-cases, Option-cases, inl, inr,
}
use pixtorrent.Prelude.Int.{ℤ}
use pixtorrent.Meta.Torrent.{chain}
use pixtorrent.Tracker.Redis.{RedisClient}
use pixtorrent.Tracker.Redis.Cleanup.{expel_keys, expel_from}

module _ {D : Type 0} (client : RedisClient D) where
  -- The keys that the cleanup meets on its run, if its cursor comes back to 0 in that many batches.
  unfoldable pub visited : ℕ → ℕ → ℤ → ℕ → D → Option (List Bytes)
  visited zero fuel cutoff cursor d = none
  visited (suc rounds) fuel cutoff cursor d = elim (client.scan cursor (codes "peer:*") d) [
    | none ↦ none
    | some batch ↦
        let more = visited rounds fuel cutoff batch.1 (expel_keys client fuel cutoff batch.0 d) in
        if batch.1 == 0 then some batch.0 else chain more (λ ks. some (batch.0 ++ ks))
  ]

  expel_keys-append :
      (fuel : ℕ) (cutoff : ℤ) (ks ls : List Bytes) (d : D)
      → expel_keys client fuel cutoff (ks ++ ls) d
        ≡ expel_keys client fuel cutoff ls (expel_keys client fuel cutoff ks d)
  unfolding expel_keys
  expel_keys-append fuel cutoff [] ls d = refl
  expel_keys-append fuel cutoff (k ∷ ks) ls d = expel_keys-append fuel cutoff ks ls _

  pub expel_from-visited :
      (rounds fuel : ℕ) (cutoff : ℤ) (cursor : ℕ) (d : D) (ks : List Bytes)
      → visited rounds fuel cutoff cursor d ≡ some ks
      → expel_from client rounds fuel cutoff cursor d
        ≡ some (expel_keys client fuel cutoff ks d, true)
  unfolding visited expel_from
  expel_from-visited zero fuel cutoff cursor d ks h = cc
  expel_from-visited (suc rounds) fuel cutoff cursor d ks h =
      elim (Option-cases (client.scan cursor (codes "peer:*") d)) [
        | inl e ↦ absurd (no_keys (rw (e, visited) at h))
        | inr (batch, e) ↦ elim (Bool-cases (batch.1 == 0)) [
          | inl z ↦
              rw (e, z, expel_from)
                (ap (λ o. chain o (λ l. some (expel_keys client fuel cutoff l d, true)))
                  (rw (e, z, visited) at h))
          | inr z ↦
              elim (Option-cases
                (visited rounds fuel cutoff batch.1 (expel_keys client fuel cutoff batch.0 d))) [
                  | inl m ↦ absurd (no_keys (rw (e, z, m, visited) at h))
                  | inr (ls, m) ↦
                      rw (e, z, expel_from)
                        (expel_from-visited rounds fuel cutoff batch.1
                            (expel_keys client fuel cutoff batch.0 d) ls m
                          ∙ ap (λ r. some (r, true))
                              (sym (expel_keys-append fuel cutoff batch.0 ls d))
                          ∙ ap (λ o. chain o (λ l. some (expel_keys client fuel cutoff l d, true)))
                              (rw (e, z, m, visited) at h))
                ]
        ]
      ]
    where
      no_keys : {ks : List Bytes} → none ≡ some ks → ⊥
      no_keys e = cc
