-- ===== src/P2p/Pieces/Verify.antt =====
-- The hash check of p2p/piece_manager.go.
use pixtorrent.Prelude.{
  ℕ, ◌+◌, ◌*◌, ◌≤◌, ◌<◌, true, some, [], ◌∷◌, Bytes, length, take, drop, ◌≡◌, ◌↔◌, refl, sym, ap,
  ◌∙◌, arith,
}
use pixtorrent.Prelude.Int.{ℤ, pos, negsuc}
use pixtorrent.P2p.Pieces.{PieceManager, equal, hash_matches, verify_piece}

equal_sound : (x y : Bytes) → equal x y ≡ true → x ≡ y
unfolding equal
equal_sound [] [] h = refl
equal_sound (v ∷ x) (w ∷ y) h = ground (arith, equal_sound x y)
equal_sound [] (w ∷ y) h = cc
equal_sound (v ∷ x) [] h = cc

equal_refl : (x : Bytes) → equal x x ≡ true
unfolding equal
equal_refl [] = refl
equal_refl (v ∷ x) = ground (arith, equal_refl x)

pub equal_iff : (x y : Bytes) → (equal x y ≡ true) ↔ (x ≡ y)
equal_iff x y = (equal_sound x y, λ e. ap (equal x) (sym e) ∙ equal_refl x)

-- The twenty bytes of the hash list at piece `i`.
abbrev pub expected_hash : Bytes → ℕ → Bytes
expected_hash hashes i = take 20 (drop (i * 20) hashes)

-- The piece is one of the torrent, and its digest stands at its place in the hash list.
pub record Matches (sha1 : Bytes → Bytes) (n : ℕ) (hashes : Bytes) (idx : ℤ) (piece : Bytes)
    : Type 0 where
  pub index : ℕ
  pub is_index : idx ≡ pos index
  pub in_range : index < n
  pub listed : index * 20 + 20 ≤ length hashes
  pub digest : expected_hash hashes index ≡ sha1 piece

module _ (sha1 : Bytes → Bytes) (pm : PieceManager) (piece : Bytes) where
  match_of_verify :
      (idx : ℤ) (hashes : Bytes)
      → pm.piece_hashes ≡ some hashes
      → verify_piece sha1 pm idx piece ≡ true
      → Matches sha1 pm.num_pieces hashes idx piece
  unfolding verify_piece hash_matches
  match_of_verify (negsuc i) hashes e h = absurd (ground arith)
  match_of_verify (pos i) hashes e h = record {
    index = i;
    is_index = refl;
    in_range = ground arith;
    listed = ground arith;
    digest = (equal_iff _ _).0 (ground arith);
  }

  verify_of_match :
      (idx : ℤ) (hashes : Bytes)
      → pm.piece_hashes ≡ some hashes
      → Matches sha1 pm.num_pieces hashes idx piece
      → verify_piece sha1 pm idx piece ≡ true
  unfolding verify_piece hash_matches
  verify_of_match idx hashes e m =
      ground (arith, (equal_iff (expected_hash hashes m.index) (sha1 piece)).1 m.digest)

-- With a hash list, `verify_piece` accepts exactly the data whose index is one of the torrent's,
-- whose twenty bytes lie inside the list, and whose digest they are.
pub verify_piece_iff :
    (sha1 : Bytes → Bytes) (pm : PieceManager) (idx : ℤ) (piece hashes : Bytes)
    → pm.piece_hashes ≡ some hashes
    → (verify_piece sha1 pm idx piece ≡ true) ↔ Matches sha1 pm.num_pieces hashes idx piece
verify_piece_iff sha1 pm idx piece hashes e =
    (match_of_verify sha1 pm piece idx hashes e, verify_of_match sha1 pm piece idx hashes e)
