-- ===== src/P2p/Pieces.antt =====
-- p2p/piece_manager.go: the pieces of the torrent that this node holds, and the bitfields that
-- say so on the wire. `sha1` stands for `sha1.Sum` of Go's library, a function on byte strings.
-- The lock is not modelled: each method runs under it from its first line to its last.
pub mod Bitfield
pub mod Store
pub mod Verify
use pixtorrent.Prelude.{
  ℕ, zero, suc, ◌+◌, ◌-◌, ◌*◌, ◌/◌, ◌%◌, Bool, true, false, not, ◌&&◌, ◌||◌, Option, none, some,
  List, [], ◌∷◌, ◌++◌, Bytes, length, get_or, set, take, drop, replicate, is_some, ltb, leb, ◌==◌,
  if◌then◌else◌, has_bit, set_bit,
}
use pixtorrent.Prelude.Int.{ℤ, pos, negsuc, ℤ_discrete, ltb_ℤ, leb_ℤ}
use pixtorrent.Prelude.Maps.{Map, get, put}

-- `piece_hashes` is `none` for the nil slice.
pub record PieceManager : Type 0 where
  pub num_pieces : ℕ
  pub pieces : Map ℤ Bytes
  pub piece_hashes : Option Bytes

pub data AddError : Type 0 where
  out_of_range already_exists : AddError

unfoldable pub new_piece_manager : ℕ → PieceManager
new_piece_manager n = record { num_pieces = n; pieces = []; piece_hashes = none }

unfoldable pub new_piece_manager_with_hashes : ℕ → Bytes → PieceManager
new_piece_manager_with_hashes n hashes = record {
  num_pieces = n;
  pieces = [];
  piece_hashes = some hashes;
}

unfoldable pub set_piece_hashes : Option Bytes → PieceManager → PieceManager
set_piece_hashes hashes pm = record pm { piece_hashes = hashes }

-- `bytes.Equal`
unfoldable pub equal : Bytes → Bytes → Bool
equal [] [] = true
equal (x ∷ xs) (y ∷ ys) = x == y && equal xs ys
equal _ _ = false

-- `idx < 0 || idx >= numPieces`
abbrev pub out_of_bounds : PieceManager → ℤ → Bool
out_of_bounds pm idx = ltb_ℤ idx (pos 0) || leb_ℤ (pos pm.num_pieces) idx

-- The digest check of a piece with a number in range.
unfoldable pub hash_matches : (Bytes → Bytes) → Bytes → ℤ → Bytes → Bool
hash_matches sha1 hashes (negsuc i) piece = false
hash_matches sha1 hashes (pos i) piece =
    let hash_start = i * 20 in
    let hash_end = hash_start + 20 in
    if ltb (length hashes) hash_end
    then false
    else equal (take 20 (drop hash_start hashes)) (sha1 piece)

unfoldable pub verify_piece : (Bytes → Bytes) → PieceManager → ℤ → Bytes → Bool
verify_piece sha1 pm idx piece = elim pm.piece_hashes [
  | none ↦ true
  | some hashes ↦ if out_of_bounds pm idx then false else hash_matches sha1 hashes idx piece
]

unfoldable pub get_piece : PieceManager → ℤ → Option Bytes
get_piece pm idx = get ℤ_discrete idx pm.pieces

-- Either the new manager, or the error beside the old one.
unfoldable pub add_piece : PieceManager → ℤ → Bytes → PieceManager × Option AddError
unfolding get_piece
add_piece pm idx piece =
    if out_of_bounds pm idx
    then (pm, some out_of_range)
    else if is_some (get_piece pm idx)
    then (pm, some already_exists)
    else (record pm { pieces = put ℤ_discrete idx piece pm.pieces }, none)

unfoldable pub has_piece : PieceManager → ℕ → Bool
unfolding get_piece
has_piece pm i = is_some (get_piece pm (pos i))

-- `byteIndex` and `bitIndex`: the most significant bit of a byte comes first.
abbrev pub byte_index : ℕ → ℕ
byte_index i = i / 8

abbrev pub bit_index : ℕ → ℕ
bit_index i = 7 - i % 8

-- `bitfield[byteIndex] |= 1 << bitIndex`, on an index in range
abbrev pub mark : ℕ → Bytes → Bytes
mark i field = set field (byte_index i) (set_bit (get_or field (byte_index i) 0) (bit_index i))

-- The loop of `Bitfield`: `n` rounds are left, from `i` on.
unfoldable pub mark_pieces : ℕ → ℕ → PieceManager → Bytes → Bytes
mark_pieces zero i pm field = field
mark_pieces (suc n) i pm field =
    mark_pieces n (suc i) pm (if has_piece pm i then mark i field else field)

unfoldable pub bitfield : PieceManager → Bytes
bitfield pm = mark_pieces pm.num_pieces 0 pm (replicate ((pm.num_pieces + 7) / 8) 0)

-- `bitfield[byteIndex] & (1 << bitIndex) != 0`
abbrev pub peer_has : Bytes → ℕ → Bool
peer_has field i = has_bit (get_or field (byte_index i) 0) (bit_index i)

-- The loop of `MissingPieces`: `n` rounds are left, from `i` on; it ends early where the
-- bitfield does.
unfoldable pub missing_from : ℕ → ℕ → PieceManager → Bytes → List ℕ
missing_from zero i pm field = []
missing_from (suc n) i pm field =
    let rest = missing_from n (suc i) pm field in
    if leb (length field) (byte_index i)
    then []
    else if peer_has field i && not (has_piece pm i)
    then i ∷ rest
    else rest

unfoldable pub missing_pieces : PieceManager → Bytes → List ℕ
missing_pieces pm field = missing_from pm.num_pieces 0 pm field

unfoldable pub received_count : PieceManager → ℕ
received_count pm = length pm.pieces

unfoldable pub all_pieces_received : PieceManager → Bool
all_pieces_received pm = length pm.pieces == pm.num_pieces
