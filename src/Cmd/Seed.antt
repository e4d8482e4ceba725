-- ===== src/Cmd/Seed.antt =====
-- cmd/seed.go: a file is cut into pieces, each piece is hashed, and the pieces and hashes fill a
-- piece manager. `sha1` stands for `sha1.Sum`. The flag parsing, the printing and the start of
-- the server are not modelled. A piece size of 0, at which Go's division panics, is outside the
-- model: the theorems take a positive size.
pub mod Hashes
pub mod Pieces
pub mod Run
use pixtorrent.Prelude.{
  ℕ, zero, suc, ◌+◌, ◌-◌, ◌*◌, ◌/◌, List, Bytes, length, take, replicate, slice, copy_at, ltb,
  if◌then◌else◌,
}
use pixtorrent.Prelude.Int.{pos}
use pixtorrent.P2p.Pieces.{PieceManager, add_piece, new_piece_manager_with_hashes}

unfoldable pub num_pieces_of : ℕ → ℕ → ℕ
num_pieces_of len size = (len + size - 1) / size

-- `data[start:end]` of both loops
unfoldable pub piece_at : ℕ → Bytes → ℕ → Bytes
piece_at size file i =
    let start = i * size in
    let end = start + size in slice start (if ltb (length file) end then length file else end) file

-- The first loop; `n` rounds are left, from `i` on.
unfoldable pub hash_pieces : (Bytes → Bytes) → ℕ → Bytes → ℕ → ℕ → Bytes → Bytes
hash_pieces sha1 size file zero i hashes = hashes
hash_pieces sha1 size file (suc n) i hashes =
    hash_pieces sha1 size file n (suc i)
      (copy_at (i * 20) (take 20 (sha1 (piece_at size file i))) hashes)

-- The second loop. Its calls drop the error of `AddPiece`.
unfoldable pub add_pieces : ℕ → Bytes → ℕ → ℕ → PieceManager → PieceManager
add_pieces size file zero i pm = pm
add_pieces size file (suc n) i pm =
    add_pieces size file n (suc i) (add_piece pm (pos i) (piece_at size file i)).0

unfoldable pub piece_hashes_of : (Bytes → Bytes) → ℕ → Bytes → Bytes
piece_hashes_of sha1 size file =
    let n = num_pieces_of (length file) size in
    hash_pieces sha1 size file n 0 (replicate (n * 20) 0)

unfoldable pub seed_pieces : (Bytes → Bytes) → ℕ → Bytes → PieceManager
seed_pieces sha1 size file =
    let n = num_pieces_of (length file) size in
    add_pieces size file n 0 (new_piece_manager_with_hashes n (piece_hashes_of sha1 size file))
