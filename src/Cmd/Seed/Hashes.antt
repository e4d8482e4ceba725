-- ===== src/Cmd/Seed/Hashes.antt =====
-- The hash list that cmd/seed.go builds.
use pixtorrent.Prelude.{
  ℕ, zero, suc, ◌+◌, ◌*◌, ◌<◌, [], ◌++◌, Bytes, length, take, drop, replicate, copy_at_middle,
  replicate-add, length-append, drop-drop, drop-append, take-append, take_of_length, ◌≡◌, refl, sym,
  ap, ◌∙◌, append_assoc, arith,
}
use pixtorrent.Cmd.Seed.{num_pieces_of, piece_at, hash_pieces, piece_hashes_of}

module _ (sha1 : Bytes → Bytes) (digest : (b : Bytes) → length (sha1 b) ≡ 20) (size : ℕ)
    (file : Bytes) where
  -- The digests of `n` pieces from piece `i` on, one behind the other.
  unfoldable pub digests : ℕ → ℕ → Bytes
  digests zero i = []
  digests (suc n) i = sha1 (piece_at size file i) ++ digests n (suc i)

  blank : ℕ → Bytes
  blank n = replicate (n * 20) 0

  blank-suc : (n : ℕ) → blank (suc n) ≡ replicate 20 0 ++ blank n
  unfolding blank
  blank-suc n = ap (λ k. replicate k 0) (omega arith) ∙ replicate-add 20 (n * 20) 0

  hash_pieces-digests :
      (n i : ℕ) (pre : Bytes)
      → length pre ≡ i * 20
      → hash_pieces sha1 size file n i (pre ++ blank n) ≡ pre ++ digests n i
  unfolding hash_pieces digests
  hash_pieces-digests zero i pre h = unfold blank in refl
  hash_pieces-digests (suc n) i pre h =
      let d = sha1 (piece_at size file i) in
      rw (blank-suc n, take_of_length d 20 (digest _))
        (ap (hash_pieces sha1 size file n (suc i)) (
            copy_at_middle pre (replicate 20 0) (blank n) d (i * 20) h
              (sym (digest (piece_at size file i)))
            ∙ sym (append_assoc pre d (blank n)))
          ∙ hash_pieces-digests n (suc i) (pre ++ d)
              (omega (arith, length-append pre d, digest (piece_at size file i)))
          ∙ append_assoc pre d (digests n (suc i)))

  length-digests : (n i : ℕ) → length (digests n i) ≡ n * 20
  unfolding digests
  length-digests zero i = refl
  length-digests (suc n) i = omega (
    arith,
    length-append (sha1 (piece_at size file i)) (digests n (suc i)),
    digest (piece_at size file i),
    length-digests n (suc i),
  )

  digests_at :
      (n i j : ℕ)
      → j < n
      → take 20 (drop (j * 20) (digests n i)) ≡ sha1 (piece_at size file (i + j))
  unfolding digests
  digests_at zero i j h = absurd (omega arith)
  digests_at (suc n) i zero h =
      take-append (sha1 (piece_at size file i)) _ 20 (digest _)
      ∙ ap (λ k. sha1 (piece_at size file k)) (omega arith)
  digests_at (suc n) i (suc j) h =
      ap (take 20) (
        ap (λ k. drop k (digests (suc n) i)) (omega arith)
        ∙ sym (drop-drop (j * 20) 20 (digests (suc n) i))
        ∙ ap (drop (j * 20)) (drop-append (sha1 (piece_at size file i)) _ 20 (digest _)))
      ∙ digests_at n (suc i) j (omega arith)
      ∙ ap (λ k. sha1 (piece_at size file k)) (omega arith)

  pub piece_hashes_of-digests :
      piece_hashes_of sha1 size file ≡ digests (num_pieces_of (length file) size) 0
  unfolding piece_hashes_of
  piece_hashes_of-digests =
      unfold blank in hash_pieces-digests (num_pieces_of (length file) size) 0 [] refl

  -- Twenty bytes for each piece, and the digest of piece `j` at its place.
  pub piece_hashes_of_lem :
      (length (piece_hashes_of sha1 size file) ≡ num_pieces_of (length file) size * 20)
      × ((j : ℕ)
          → j < num_pieces_of (length file) size
          → take 20 (drop (j * 20) (piece_hashes_of sha1 size file)) ≡ sha1 (piece_at size file j))
  piece_hashes_of_lem = rw piece_hashes_of-digests (
    length-digests _ 0,
    λ j h. digests_at _ 0 j h ∙ ap (λ k. sha1 (piece_at size file k)) (omega arith),
  )
