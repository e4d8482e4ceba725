-- ===== src/Cmd/Seed/Pieces.antt =====
-- The piece manager that cmd/seed.go fills.
use pixtorrent.Prelude.{
  ℕ, zero, suc, ◌+◌, ◌*◌, ◌-◌, ◌≤◌, ◌<◌, true, Option, none, some, ◌++◌, Bytes, length, take, drop,
  ltb, drop-drop, take-append-drop, take_of_length, ◌≡◌, refl, sym, ap, ap₂, subst, ◌∙◌, append-nil,
  arith, if◌then◌else◌, Bool-cases, inl, inr, length-drop, drop_past, lt→ltb, zero-add,
}
use pixtorrent.Prelude.Int.{pos, pos-injective}
use pixtorrent.Prelude.Maps.{get}
use pixtorrent.P2p.Pieces.{
  PieceManager, add_piece, get_piece, has_piece, verify_piece, all_pieces_received,
  new_piece_manager_with_hashes,
}
use pixtorrent.P2p.Pieces.Store.{
  IsValid, add_piece_fresh, new_piece_manager_with_hashes-IsValid, all_pieces_received_lem,
}
use pixtorrent.P2p.Pieces.Verify.{verify_piece_iff}
use pixtorrent.TorrentServer.Reconstruct.{reconstruct_data, joined, reconstruct_data-joined}
use pixtorrent.Cmd.Seed.{num_pieces_of, piece_at, add_pieces, piece_hashes_of, seed_pieces}
use pixtorrent.Cmd.Seed.Hashes.{piece_hashes_of_lem}

-- The first `i` pieces of the file are held, and no other.
record Filled (size : ℕ) (file : Bytes) (n i : ℕ) (hashes : Option Bytes) (pm : PieceManager)
    : Type 0 where
  valid : IsValid pm
  count : pm.num_pieces ≡ n
  listed : pm.piece_hashes ≡ hashes
  held : (j : ℕ) → get_piece pm (pos j) ≡ (if ltb j i then some (piece_at size file j) else none)

module _ (size : ℕ) (file : Bytes) (total : ℕ) (hashes : Option Bytes) where
  add_piece-Filled :
      (i : ℕ) (pm : PieceManager)
      → i < total
      → Filled size file total i hashes pm
      → Filled size file total (suc i) hashes (add_piece pm (pos i) (piece_at size file i)).0
  add_piece-Filled i pm lt f =
      let (pm', e, n, h, g, v) =
        add_piece_fresh pm (pos i) (piece_at size file i) (rw f.count lt)
          (f.held i ∙ ground arith) in
      rw e (record {
        valid = v f.valid;
        count = n ∙ f.count;
        listed = h ∙ f.listed;
        held = λ j. g (pos j) ∙ ground (arith, f.held j, pos-injective j i);
      })

  add_pieces-Filled :
      (n i : ℕ) (pm : PieceManager)
      → i + n ≤ total
      → Filled size file total i hashes pm
      → Filled size file total (i + n) hashes (add_pieces size file n i pm)
  unfolding add_pieces
  add_pieces-Filled zero i pm h f = subst (λ k. Filled size file total k hashes pm) (omega arith) f
  add_pieces-Filled (suc n) i pm h f =
      subst (λ k. Filled size file total k hashes (add_pieces size file (suc n) i pm)) (omega arith)
        (add_pieces-Filled n (suc i) _ (omega arith) (add_piece-Filled i pm (omega arith) f))

-- A piece, followed by what stands behind it, is what stands at its start.
piece_at-append-drop :
    (size : ℕ) (file : Bytes) (i : ℕ)
    → piece_at size file i ++ drop (suc i * size) file ≡ drop (i * size) file
unfolding piece_at
piece_at-append-drop size file i = elim (Bool-cases (ltb (length file) (i * size + size))) [
  | inl short ↦ rw short (
      ap₂ ◌++◌
        (take_of_length (drop (i * size) file) (length file - i * size)
          (length-drop (i * size) file))
        (drop_past file (suc i * size) (ground arith))
      ∙ append-nil (drop (i * size) file))
  | inr whole ↦ rw whole (
      ap₂ (λ k t. take k (drop (i * size) file) ++ t) (omega arith)
        (ap (λ k. drop k file) (omega arith) ∙ sym (drop-drop size (i * size) file))
      ∙ take-append-drop size (drop (i * size) file))
]

joined-piece_at :
    (size : ℕ) (file : Bytes) (n i : ℕ)
    → length file ≤ (i + n) * size
    → joined (piece_at size file) n i ≡ drop (i * size) file
joined-piece_at size file zero i h = sym (drop_past file (i * size) (omega arith))
joined-piece_at size file (suc n) i h =
    ap (λ t. piece_at size file i ++ t) (joined-piece_at size file n (suc i) (omega arith))
    ∙ piece_at-append-drop size file i

pub covered : (len size : ℕ) → 0 < size → len ≤ num_pieces_of len size * size
unfolding num_pieces_of
covered len size h = omega arith

-- The pieces of a file, one behind the other, are the file.
pub joined_pieces :
    (size : ℕ) (file : Bytes)
    → 0 < size
    → joined (piece_at size file) (num_pieces_of (length file) size) 0 ≡ file
joined_pieces size file h =
    joined-piece_at size file (num_pieces_of (length file) size) 0
      (omega (arith, covered (length file) size h))
    ∙ ap (λ k. drop k file) {y = 0} (omega arith)

module _ (sha1 : Bytes → Bytes) (digest : (b : Bytes) → length (sha1 b) ≡ 20) (size : ℕ)
    (file : Bytes) where
  seed_pieces-Filled :
      let n = num_pieces_of (length file) size in
      Filled size file n n (some (piece_hashes_of sha1 size file)) (seed_pieces sha1 size file)
  unfolding seed_pieces new_piece_manager_with_hashes get_piece get
  seed_pieces-Filled =
      let n = num_pieces_of (length file) size in
      let hashes = piece_hashes_of sha1 size file in
      subst (λ k. Filled size file n k (some hashes) (seed_pieces sha1 size file)) (zero-add n)
        (add_pieces-Filled size file n (some hashes) n 0 (new_piece_manager_with_hashes n hashes)
          (omega arith)
          (record {
            valid = new_piece_manager_with_hashes-IsValid n hashes;
            count = refl;
            listed = refl;
            held = λ j. ground arith;
          }))

  seed_pieces-get_piece :
      (j : ℕ)
      → j < num_pieces_of (length file) size
      → get_piece (seed_pieces sha1 size file) (pos j) ≡ some (piece_at size file j)
  seed_pieces-get_piece j lt = seed_pieces-Filled.held j ∙ rw (lt→ltb _ _ lt)

  -- A seeder holds every piece of its file: it counts as complete, each piece passes the check
  -- against the hash list that it prints, and the pieces put together give the file back. The
  -- digests are 20 bytes long and the piece size is positive.
  pub seed_pieces_lem :
      0 < size
      → (all_pieces_received (seed_pieces sha1 size file) ≡ true)
        × ((j : ℕ)
            → j < num_pieces_of (length file) size
            → (get_piece (seed_pieces sha1 size file) (pos j) ≡ some (piece_at size file j))
              × (verify_piece sha1 (seed_pieces sha1 size file) (pos j) (piece_at size file j)
                  ≡ true))
        × (reconstruct_data (seed_pieces sha1 size file) ≡ some file)
  seed_pieces_lem h =
      let n = num_pieces_of (length file) size in
      let f = seed_pieces-Filled in
      let hashes = piece_hashes_of_lem sha1 digest size file in
      let got = seed_pieces-get_piece in
      (
        (all_pieces_received_lem _ f.valid).1.1
            (λ j lt. unfold has_piece in rw (got j (rw f.count at lt))),
        (λ j lt. (
          got j lt,
          (verify_piece_iff sha1 _ (pos j) (piece_at size file j) _ f.listed).1 (record {
            index = j;
            is_index = refl;
            in_range = rw f.count lt;
            listed = omega (arith, hashes.0);
            digest = hashes.1 j lt;
          }),
        )),
        reconstruct_data-joined _ (piece_at size file) (λ j lt. got j (rw f.count at lt))
            ∙ ap some
                (ap (λ k. joined (piece_at size file) k 0) f.count ∙ joined_pieces size file h),
      )
