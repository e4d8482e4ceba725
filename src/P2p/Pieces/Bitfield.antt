-- ===== src/P2p/Pieces/Bitfield.antt =====
-- What the bitfields of p2p/piece_manager.go mean.
use pixtorrent.Prelude.{
  ℕ, zero, suc, ◌+◌, ◌*◌, ◌/◌, ◌≤◌, ◌<◌, Bool, false, not, ◌&&◌, ◌||◌, List, [], ◌∷◌, Bytes, length,
  get_or, replicate, ◌≡◌, refl, ◌∙◌, arith, ltb, leb, ◌==◌, if◌then◌else◌, IsByte, set_bit,
  has_bit-set_bit, set_bit-lt, zero-has_bit, length-set, get_or-set_self, get_or-set_ne, All,
  get_or-All, set-All, replicate-All, get_or_past, length-replicate, get_or-replicate, contains,
  IsRising, Bool-cases, inl, inr,
}
use pixtorrent.P2p.Pieces.{
  PieceManager, has_piece, byte_index, bit_index, mark, mark_pieces, bitfield, peer_has,
  missing_from, missing_pieces,
}

abbrev pub IsBytes : Bytes → Type 0
IsBytes = All IsByte

mark-IsBytes : (i : ℕ) (field : Bytes) → IsBytes field → IsBytes (mark i field)
mark-IsBytes i field h =
    set-All IsByte field (byte_index i) _
      (set_bit-lt _ _ (get_or-All IsByte field (byte_index i) 0 (omega arith) h) (omega arith)) h

peer_has-mark :
    (i j : ℕ) (field : Bytes)
    → IsBytes field
    → byte_index i < length field
    → peer_has (mark i field) j ≡ (i == j || peer_has field j)
peer_has-mark i j field h fits = ground (
  arith,
  get_or-set_self field (byte_index i) (set_bit (get_or field (byte_index i) 0) (bit_index i)) 0,
  get_or-set_ne field (byte_index i) (byte_index j)
      (set_bit (get_or field (byte_index i) 0) (bit_index i)) 0,
  has_bit-set_bit (get_or field (byte_index i) 0) (bit_index i) (bit_index j),
  get_or-All IsByte field (byte_index i) 0 (omega arith) h,
)

length-mark : (i : ℕ) (field : Bytes) → length (mark i field) ≡ length field
length-mark i field = length-set field (byte_index i) _

abbrev marked : ℕ → ℕ → PieceManager → ℕ → Bool
marked n i pm j = leb i j && ltb j (i + n) && has_piece pm j

-- One round of the loop, whichever way its test goes.
abbrev round : ℕ → PieceManager → Bytes → Bytes
round i pm field = if has_piece pm i then mark i field else field

module _ (pm : PieceManager) (i : ℕ) (field : Bytes) (h : IsBytes field) where
  round-IsBytes : IsBytes (round i pm field)
  round-IsBytes = elim (Bool-cases (has_piece pm i)) [
    | inl e ↦ rw e (mark-IsBytes i field h)
    | inr e ↦ rw e h
  ]

  length-round : length (round i pm field) ≡ length field
  length-round = elim (Bool-cases (has_piece pm i)) [
    | inl e ↦ rw e (length-mark i field)
    | inr e ↦ rw e
  ]

  peer_has-round :
      (j : ℕ)
      → byte_index i < length field
      → peer_has (round i pm field) j ≡ ((i == j && has_piece pm j) || peer_has field j)
  peer_has-round j fits = elim (Bool-cases (has_piece pm i)) [
    | inl e ↦ rw e (peer_has-mark i j field h fits ∙ ground arith)
    | inr e ↦ rw e (ground arith)
  ]

mark_pieces-IsBytes :
    (n i : ℕ) (pm : PieceManager) (field : Bytes)
    → IsBytes field
    → IsBytes (mark_pieces n i pm field)
unfolding mark_pieces
mark_pieces-IsBytes zero i pm field h = h
mark_pieces-IsBytes (suc n) i pm field h =
    mark_pieces-IsBytes n (suc i) pm (round i pm field) (round-IsBytes pm i field h)

length-mark_pieces :
    (n i : ℕ) (pm : PieceManager) (field : Bytes)
    → IsBytes field
    → length (mark_pieces n i pm field) ≡ length field
unfolding mark_pieces
length-mark_pieces zero i pm field h = refl
length-mark_pieces (suc n) i pm field h =
    length-mark_pieces n (suc i) pm (round i pm field) (round-IsBytes pm i field h)
    ∙ length-round pm i field h

peer_has-mark_pieces :
    (n i : ℕ) (pm : PieceManager) (field : Bytes) (j : ℕ)
    → IsBytes field
    → i + n ≤ length field * 8
    → peer_has (mark_pieces n i pm field) j ≡ (marked n i pm j || peer_has field j)
unfolding mark_pieces
peer_has-mark_pieces zero i pm field j h fits = ground arith
peer_has-mark_pieces (suc n) i pm field j h fits =
    peer_has-mark_pieces n (suc i) pm (round i pm field) j (round-IsBytes pm i field h)
      (omega (arith, length-round pm i field h))
    ∙ rw (peer_has-round pm i field h j (omega arith)) (ground arith)

blank-IsBytes : (n : ℕ) → IsBytes (replicate n 0)
blank-IsBytes n = replicate-All IsByte n 0 (omega arith)

peer_has-blank : (n j : ℕ) → peer_has (replicate n 0) j ≡ false
peer_has-blank n j = rw (get_or-replicate {A = ℕ} n (byte_index j) 0) (zero-has_bit _ (omega arith))

-- Bit j of the bitfield that a node sends, most significant bit first, is set exactly when j is
-- below the number of pieces and the node holds piece j; the padding bits are clear. The
-- bitfield is a row of bytes, one for each eight pieces or part of eight.
pub bitfield_lem :
    (pm : PieceManager)
    → ((j : ℕ) → peer_has (bitfield pm) j ≡ (ltb j pm.num_pieces && has_piece pm j))
      × (length (bitfield pm) ≡ (pm.num_pieces + 7) / 8)
      × IsBytes (bitfield pm)
unfolding bitfield
bitfield_lem pm = (
  λ j.
      peer_has-mark_pieces pm.num_pieces 0 pm blank j (blank-IsBytes size)
        (omega (arith, length-replicate {A = ℕ} size 0))
      ∙ rw (peer_has-blank size j) (ground arith),
  length-mark_pieces pm.num_pieces 0 pm blank (blank-IsBytes size)
      ∙ length-replicate {A = ℕ} size 0,
  mark_pieces-IsBytes pm.num_pieces 0 pm blank (blank-IsBytes size),
)
  where
    size : ℕ
    size = (pm.num_pieces + 7) / 8

    blank : Bytes
    blank = replicate size 0

pub peer_has_past : (field : Bytes) (j : ℕ) → length field ≤ byte_index j → peer_has field j ≡ false
peer_has_past field j h = rw (get_or_past field (byte_index j) 0 h) (zero-has_bit _ (omega arith))

contains-missing_from :
    (n i : ℕ) (pm : PieceManager) (field : Bytes) (j : ℕ)
    → contains j (missing_from n i pm field)
      ≡ (leb i j && ltb j (i + n) && (peer_has field j && not (has_piece pm j)))
unfolding missing_from
contains-missing_from zero i pm field j = ground arith
contains-missing_from (suc n) i pm field j =
    ground (arith, contains-missing_from n (suc i) pm field j, peer_has_past field j)

le-IsRising : (lo lo' : ℕ) (xs : List ℕ) → lo' ≤ lo → IsRising lo xs → IsRising lo' xs
le-IsRising lo lo' [] h r = tt
le-IsRising lo lo' (x ∷ xs) h r = (omega arith, r.1)

missing_from-IsRising :
    (n i : ℕ) (pm : PieceManager) (field : Bytes) → IsRising i (missing_from n i pm field)
unfolding missing_from
missing_from-IsRising zero i pm field = tt
missing_from-IsRising (suc n) i pm field = ground (
  arith,
  missing_from-IsRising n (suc i) pm field,
  le-IsRising (suc i) i (missing_from n (suc i) pm field),
)

-- The pieces asked of a peer are exactly the pieces of the torrent that its bitfield shows and
-- that this node does not hold, each once, in rising order; a bitfield that is too short or too
-- long reads as one padded with clear bits or cut.
pub missing_pieces_lem :
    (pm : PieceManager) (field : Bytes)
    → ((j : ℕ)
        → contains j (missing_pieces pm field)
          ≡ (ltb j pm.num_pieces && (peer_has field j && not (has_piece pm j))))
      × IsRising 0 (missing_pieces pm field)
unfolding missing_pieces
missing_pieces_lem pm field = (
  λ j. contains-missing_from pm.num_pieces 0 pm field j ∙ ground arith,
  missing_from-IsRising pm.num_pieces 0 pm field,
)

-- Two nodes of one torrent: what `a` asks for after reading `b`'s bitfield is exactly what `b`
-- holds and `a` does not.
pub missing_pieces-bitfield :
    (a b : PieceManager) (j : ℕ)
    → a.num_pieces ≡ b.num_pieces
    → contains j (missing_pieces a (bitfield b))
      ≡ (ltb j a.num_pieces && (has_piece b j && not (has_piece a j)))
missing_pieces-bitfield a b j e =
    (missing_pieces_lem a (bitfield b)).0 j ∙ rw ((bitfield_lem b).0 j) (ground arith)
