-- ===== src/Tests/Pieces.antt =====
-- p2p/piece_manager.go and cmd/seed.go at small inputs.
use pixtorrent.Prelude.{
  All, IsByte, if_pos, if_neg, replicate-All, ℕ, zero, suc, ◌+◌, ◌*◌, ◌/◌, ◌≤◌, ◌<◌, Bool, true,
  false, not, ◌&&◌, Option, none, some, List, [], ◌∷◌, ◌++◌, Bytes, bytes_discrete, length, take,
  drop, replicate, ltb, contains, IsRising, ◌≡◌, ◌↔◌, refl, arith, All, ite, is_some,
}
use pixtorrent.Prelude.Int.{pos, ℤ_discrete}
use pixtorrent.Prelude.Maps.{get}
use pixtorrent.P2p.Pieces.{
  PieceManager, get_piece, has_piece, verify_piece, hash_matches, equal, all_pieces_received,
  bitfield, peer_has,
}
use pixtorrent.P2p.Pieces.Bitfield.{IsBytes, bitfield_lem}
use pixtorrent.P2p.Pieces.Verify.{Matches, verify_piece_iff}
use pixtorrent.TorrentServer.Reconstruct.{reconstruct_data}
use pixtorrent.Cmd.Seed.{num_pieces_of, piece_at, seed_pieces}
use pixtorrent.Cmd.Seed.Pieces.{seed_pieces_lem}

-- A stand-in for SHA-1 that tells one piece from all others.
abbrev pub toy_digest : Bytes → Bytes
toy_digest piece = ite (bytes_discrete piece (7 ∷ 8 ∷ [])) (replicate 20 1) (replicate 20 2)

pub length-toy_digest : (b : Bytes) → length (toy_digest b) ≡ 20
length-toy_digest b = ground arith

pub toy_digest-IsByte : (b : Bytes) → All IsByte (toy_digest b)
toy_digest-IsByte b = elim (bytes_discrete b (7 ∷ 8 ∷ [])) [
  | yes e ↦ rw (if_pos {C = Bytes} (bytes_discrete b (7 ∷ 8 ∷ [])) e) ones
  | no ne ↦ rw (if_neg {C = Bytes} (bytes_discrete b (7 ∷ 8 ∷ [])) ne) twos
]
  where
    ones : All IsByte (replicate 20 1)
    ones = replicate-All IsByte 20 1 (omega arith)

    twos : All IsByte (replicate 20 2)
    twos = replicate-All IsByte 20 2 (omega arith)

-- Ten pieces, of which the first and the last are held.
abbrev two_of_ten : PieceManager
two_of_ten = record {
  num_pieces = 10;
  pieces = (pos 0, 7 ∷ 8 ∷ []) ∷ (pos 9, 9 ∷ []) ∷ [];
  piece_hashes = none;
}

-- Two pieces, both held.
abbrev two_of_two : PieceManager
two_of_two = record {
  num_pieces = 2;
  pieces = (pos 1, 9 ∷ []) ∷ (pos 0, 7 ∷ 8 ∷ []) ∷ [];
  piece_hashes = some (replicate 20 1 ++ replicate 20 2);
}

bitfield_lem_example :
    ((j : ℕ) → peer_has (bitfield two_of_ten) j ≡ (ltb j 10 && has_piece two_of_ten j))
    × (length (bitfield two_of_ten) ≡ (10 + 7) / 8)
    × IsBytes (bitfield two_of_ten)
bitfield_lem_example = bitfield_lem two_of_ten

verify_piece_iff_example :
    (verify_piece toy_digest two_of_two (pos 0) (7 ∷ 8 ∷ []) ≡ true)
    ↔ Matches toy_digest 2 (replicate 20 1 ++ replicate 20 2) (pos 0) (7 ∷ 8 ∷ [])
verify_piece_iff_example =
    verify_piece_iff toy_digest two_of_two (pos 0) (7 ∷ 8 ∷ []) (replicate 20 1 ++ replicate 20 2)
      refl

-- The check accepts the first piece.
verify_piece_run : verify_piece toy_digest two_of_two (pos 0) (7 ∷ 8 ∷ []) ≡ true
unfolding verify_piece hash_matches equal bytes_discrete pixtorrent.Prelude.ℕ_discrete
verify_piece_run = refl

abbrev held_piece : ℕ → Bytes
held_piece zero = 7 ∷ 8 ∷ []
held_piece (suc j) = 9 ∷ []

two_of_two-held : (j : ℕ) → j < 2 → get_piece two_of_two (pos j) ≡ some (held_piece j)
unfolding get_piece get ℤ_discrete pixtorrent.Prelude.ℕ_discrete
two_of_two-held zero h = refl
two_of_two-held (suc zero) h = refl
two_of_two-held (suc (suc j)) h = absurd (omega arith)

seed_pieces_lem_example :
    let pm = seed_pieces toy_digest 2 (7 ∷ 8 ∷ 9 ∷ []) in
    (all_pieces_received pm ≡ true)
    × ((j : ℕ)
        → j < num_pieces_of 3 2
        → (get_piece pm (pos j) ≡ some (piece_at 2 (7 ∷ 8 ∷ 9 ∷ []) j))
          × (verify_piece toy_digest pm (pos j) (piece_at 2 (7 ∷ 8 ∷ 9 ∷ []) j) ≡ true))
    × (reconstruct_data pm ≡ some (7 ∷ 8 ∷ 9 ∷ []))
seed_pieces_lem_example =
    seed_pieces_lem toy_digest length-toy_digest 2 (7 ∷ 8 ∷ 9 ∷ []) (omega arith)
