-- ===== src/TorrentServer/Reconstruct.antt =====
-- `ReconstructData` of torrent_server/handler.go: the pieces in order, as one file.
use pixtorrent.Prelude.{
  ℕ, zero, suc, ◌+◌, ◌≤◌, ◌<◌, true, false, ◌⊎◌, Bool-cases, Option, none, some, [], ◌++◌, Bytes,
  ◌≡◌, sym, ap, ◌∙◌, append_assoc, append-nil, arith, Option-cases, inl, inr, is_some,
}
use pixtorrent.Prelude.Int.{pos}
use pixtorrent.P2p.Pieces.{PieceManager, get_piece, has_piece, all_pieces_received}
use pixtorrent.P2p.Pieces.Store.{IsValid, all_pieces_received_lem}

-- The loop; `n` rounds are left, from `i` on. `none` is the nil that a missing piece gives.
unfoldable pub collect : ℕ → ℕ → PieceManager → Bytes → Option Bytes
collect zero i pm out = some out
collect (suc n) i pm out = elim (get_piece pm (pos i)) [
  | none ↦ none
  | some piece ↦ collect n (suc i) pm (out ++ piece)
]

unfoldable pub reconstruct_data : PieceManager → Option Bytes
unfolding collect
reconstruct_data pm = collect pm.num_pieces 0 pm []

-- `n` pieces from piece `i` on, given by a function, one behind the other.
abbrev pub joined : (ℕ → Bytes) → ℕ → ℕ → Bytes
joined piece zero i = []
joined piece (suc n) i = piece i ++ joined piece n (suc i)

collect-joined :
    (piece : ℕ → Bytes) (n i : ℕ) (pm : PieceManager) (out : Bytes)
    → ((j : ℕ) → i ≤ j → j < i + n → get_piece pm (pos j) ≡ some (piece j))
    → collect n i pm out ≡ some (out ++ joined piece n i)
unfolding collect
collect-joined piece zero i pm out h = rw append-nil
collect-joined piece (suc n) i pm out h =
    rw (h i (omega arith) (omega arith), collect)
      (collect-joined piece n (suc i) pm (out ++ piece i)
          (λ j lo hi. h j (omega arith) (omega arith))
        ∙ ap some (append_assoc out (piece i) (joined piece n (suc i))))

collect_missing :
    (n i : ℕ) (pm : PieceManager) (out : Bytes) (j : ℕ)
    → i ≤ j
    → j < i + n
    → get_piece pm (pos j) ≡ none
    → collect n i pm out ≡ none
unfolding collect
collect_missing zero i pm out j lo hi h = absurd (omega arith)
collect_missing (suc n) i pm out j lo hi h = elim (Option-cases (get_piece pm (pos i))) [
  | inl e ↦ rw (e, collect)
  | inr (p, e) ↦
      rw (e, collect) (collect_missing n (suc i) pm (out ++ p) j (later p e) (omega arith) h)
]
  where
    later : (p : Bytes) → get_piece pm (pos i) ≡ some p → suc i ≤ j
    later p e = ground arith

not_all :
    (pm : PieceManager)
    → IsValid pm
    → (j : ℕ) → j < pm.num_pieces
    → has_piece pm j ≡ false
    → all_pieces_received pm ≡ false
not_all pm v j lt gone = elim (Bool-cases (all_pieces_received pm)) [
  | inl e ↦ cc ((all_pieces_received_lem pm v).1.0 e j lt)
  | inr e ↦ e
]

-- With every piece held the file is their concatenation in the order of their numbers.
pub reconstruct_data-joined :
    (pm : PieceManager) (piece : ℕ → Bytes)
    → ((j : ℕ) → j < pm.num_pieces → get_piece pm (pos j) ≡ some (piece j))
    → reconstruct_data pm ≡ some (joined piece pm.num_pieces 0)
unfolding reconstruct_data
reconstruct_data-joined pm piece h =
    collect-joined piece pm.num_pieces 0 pm [] (λ j lo hi. h j (omega arith))

-- The bytes of a piece that is held.
abbrev held_bytes : PieceManager → ℕ → Bytes
held_bytes pm j = elim (get_piece pm (pos j)) [ none ↦ [] | some piece ↦ piece ]

held_bytes_lem :
    (pm : PieceManager) (j : ℕ)
    → has_piece pm j ≡ true
    → get_piece pm (pos j) ≡ some (held_bytes pm j)
unfolding has_piece
held_bytes_lem pm j h = ground arith

missing_one :
    (n : ℕ) (pm : PieceManager)
    → ((j : ℕ) → j < n → has_piece pm j ≡ true) ⊎ ((j : ℕ) × (j < n) × (has_piece pm j ≡ false))
missing_one zero pm = inl (λ j h. absurd (omega arith))
missing_one (suc n) pm = elim (Bool-cases (has_piece pm n)) [
  | inl here ↦ elim (missing_one n pm) [
    | inl all ↦ inl (λ j h. ground (arith, all j))
    | inr (j, lt, gone) ↦ inr (j, omega arith, gone)
  ]
  | inr gone ↦ inr (n, omega arith, gone)
]

-- The write of the file is attempted on a complete download alone: on a well-formed table
-- `ReconstructData` gives data exactly when `AllPiecesReceived` holds.
pub reconstruct_data-all_pieces_received :
    (pm : PieceManager) → IsValid pm → is_some (reconstruct_data pm) ≡ all_pieces_received pm
reconstruct_data-all_pieces_received pm v = elim (missing_one pm.num_pieces pm) [
  | inl all ↦ rw (
    reconstruct_data-joined pm (held_bytes pm) (λ j lt. held_bytes_lem pm j (all j lt)),
    (all_pieces_received_lem pm v).1.1 all,
  )
  | inr (j, lt, gone) ↦
      let none_there : get_piece pm (pos j) ≡ none = unfold has_piece in ground arith in
      let nothing : reconstruct_data pm ≡ none =
        unfold reconstruct_data in
        collect_missing pm.num_pieces 0 pm [] j (omega arith) (omega arith) none_there in
      rw nothing (sym (not_all pm v j lt gone))
]
