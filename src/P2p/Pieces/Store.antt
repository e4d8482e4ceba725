-- ===== src/P2p/Pieces/Store.antt =====
-- The piece table of p2p/piece_manager.go: what the methods keep, and what counting it means.
use pixtorrent.Prelude.{
  ℕ, zero, suc, ◌+◌, ◌≤◌, ◌<◌, true, false, Option, none, some, [], ◌∷◌, Bytes, length, ◌≡◌, ◌≢◌,
  ◌↔◌, inl, inr, refl, sym, ◌∙◌, arith, ltb, if◌then◌else◌, is_some, Bool-cases, Option-cases, All,
  ==_iff, ite,
}
use pixtorrent.Prelude.Int.{ℤ, pos, negsuc, ℤ_discrete}
use pixtorrent.Prelude.Maps.{
  Map, get, put, IsMap, get-put, put-IsMap, All-put, none_of_IsAbsent, length-put,
}
use pixtorrent.P2p.Pieces.{
  PieceManager, AddError, out_of_range, already_exists, get_piece, add_piece, has_piece,
  all_pieces_received, out_of_bounds, received_count, new_piece_manager,
  new_piece_manager_with_hashes,
}

-- An index of the torrent's pieces.
abbrev pub InRange : ℕ → ℤ → Type 0
InRange n (pos i) = i < n
InRange n (negsuc i) = ⊥

-- The table has one entry for a piece, and no entry outside the torrent.
pub record IsValid (pm : PieceManager) : Type 0 where
  pub distinct : IsMap ℤ_discrete pm.pieces
  pub in_range : All (λ e. InRange pm.num_pieces e.0) pm.pieces

-- What `add_piece` did to the table, on each of its branches.
pub data Added (pm : PieceManager) (idx : ℤ) (piece : Bytes)
    : PieceManager × Option AddError → Type 0 where
  refused_range : ¬ InRange pm.num_pieces idx → Added pm idx piece (pm, some out_of_range)
  refused_twice :
      InRange pm.num_pieces idx
      → get_piece pm idx ≢ none
      → Added pm idx piece (pm, some already_exists)
  added :
      {pm' : PieceManager}
      → InRange pm.num_pieces idx
      → get_piece pm idx ≡ none
      → pm'.num_pieces ≡ pm.num_pieces
      → pm'.piece_hashes ≡ pm.piece_hashes
      → get_piece pm' idx ≡ some piece
      → ((j : ℤ) → j ≢ idx → get_piece pm' j ≡ get_piece pm j)
      → received_count pm' ≡ received_count pm + 1
      → Added pm idx piece (pm', none)

insert : PieceManager → ℤ → Bytes → PieceManager
insert pm idx piece = record pm { pieces = put ℤ_discrete idx piece pm.pieces }

insert-Added :
    (pm : PieceManager) (idx : ℤ) (piece : Bytes)
    → InRange pm.num_pieces idx
    → get_piece pm idx ≡ none
    → Added pm idx piece (insert pm idx piece, none)
unfolding get_piece received_count insert
insert-Added pm idx piece h new =
    added h new refl refl (get-put ℤ_discrete idx idx piece pm.pieces ∙ ground arith)
      (λ j ne. get-put ℤ_discrete idx j piece pm.pieces ∙ ground arith)
      (ground (arith, length-put ℤ_discrete idx piece pm.pieces))

insert-IsValid :
    (pm : PieceManager) (idx : ℤ) (piece : Bytes)
    → InRange pm.num_pieces idx
    → IsValid pm
    → IsValid (insert pm idx piece)
unfolding insert
insert-IsValid pm idx piece h v = record {
  distinct = put-IsMap ℤ_discrete idx piece pm.pieces v.distinct;
  in_range = All-put ℤ_discrete (λ e. InRange pm.num_pieces e.0) idx piece pm.pieces h v.in_range;
}

range_of_test :
    (pm : PieceManager) (idx : ℤ) → out_of_bounds pm idx ≡ false → InRange pm.num_pieces idx
range_of_test pm (pos i) h = ground arith
range_of_test pm (negsuc i) h = ground arith

out_of_range_test :
    (pm : PieceManager) (idx : ℤ) → out_of_bounds pm idx ≡ true → ¬ InRange pm.num_pieces idx
out_of_range_test pm (pos i) h = ground arith
out_of_range_test pm (negsuc i) h = λ r. r

in_bounds_of_InRange :
    (pm : PieceManager) (idx : ℤ) → InRange pm.num_pieces idx → out_of_bounds pm idx ≡ false
in_bounds_of_InRange pm (pos i) h = ground arith
in_bounds_of_InRange pm (negsuc i) h = absurd h

-- `add_piece` refuses an index outside the torrent and a piece that is held, and then changes
-- nothing; else it stores the piece, leaves every other piece, the number of pieces and the
-- hashes alone, and counts one more.
pub add_piece-Added :
    (pm : PieceManager) (idx : ℤ) (piece : Bytes) → Added pm idx piece (add_piece pm idx piece)
unfolding add_piece insert
add_piece-Added pm idx piece = elim (Bool-cases (out_of_bounds pm idx)) [
  | inl e ↦ rw e (refused_range (out_of_range_test pm idx e))
  | inr e ↦ rw e (elim (Option-cases (get_piece pm idx)) [
    | inl new ↦ rw new (insert-Added pm idx piece (range_of_test pm idx e) new)
    | inr (a, old) ↦ rw old (refused_twice (range_of_test pm idx e) (cc))
  ])
]

-- The table stays well formed, whatever is added.
pub add_piece-IsValid :
    (pm : PieceManager) (idx : ℤ) (piece : Bytes) → IsValid pm → IsValid (add_piece pm idx piece).0
unfolding add_piece insert
add_piece-IsValid pm idx piece v = elim (Bool-cases (out_of_bounds pm idx)) [
  | inl e ↦ rw e v
  | inr e ↦ rw e (elim (Option-cases (get_piece pm idx)) [
    | inl new ↦ rw new (insert-IsValid pm idx piece (range_of_test pm idx e) v)
    | inr (a, old) ↦ rw old v
  ])
]

-- The number of piece indices below `n` that the table has.
unfoldable pub held_below : ℕ → Map ℤ Bytes → ℕ
held_below zero m = 0
held_below (suc n) m = (if is_some (get ℤ_discrete (pos n) m) then 1 else 0) + held_below n m

held_below-cons :
    (n i : ℕ) (v : Bytes) (m : Map ℤ Bytes)
    → get ℤ_discrete (pos i) m ≡ none
    → held_below n ((pos i, v) ∷ m) ≡ held_below n m + (if ltb i n then 1 else 0)
unfolding held_below get
held_below-cons zero i v m h = ground arith
held_below-cons (suc n) i v m h = ground (arith, held_below-cons n i v m h)

held_below-nil : (n : ℕ) → held_below n [] ≡ 0
unfolding held_below get
held_below-nil zero = refl
held_below-nil (suc n) = ground (arith, held_below-nil n)

pub length-eq-held_below :
    (n : ℕ) (m : Map ℤ Bytes)
    → IsMap ℤ_discrete m
    → All (λ e. InRange n e.0) m
    → length m ≡ held_below n m
length-eq-held_below n [] d r = sym (held_below-nil n)
length-eq-held_below n ((pos i, v) ∷ m) d r = ground (
  arith,
  held_below-cons n i v m (none_of_IsAbsent ℤ_discrete (pos i) m d.0),
  length-eq-held_below n m d.1 r.1,
)
length-eq-held_below n ((negsuc i, v) ∷ m) d r = absurd r.0

pub held_below-le : (n : ℕ) (m : Map ℤ Bytes) → held_below n m ≤ n
unfolding held_below
held_below-le zero m = omega arith
held_below-le (suc n) m = ground (arith, held_below-le n m)

held_of_full :
    (n : ℕ) (m : Map ℤ Bytes)
    → held_below n m ≡ n
    → (j : ℕ) → j < n
    → is_some (get ℤ_discrete (pos j) m) ≡ true
unfolding held_below
held_of_full zero m h j lt = absurd (omega arith)
held_of_full (suc n) m h j lt =
    ground (arith, held_below-le n m, held_of_full n m (ground (arith, held_below-le n m)) j)

full_of_held :
    (n : ℕ) (m : Map ℤ Bytes)
    → ((j : ℕ) → j < n → is_some (get ℤ_discrete (pos j) m) ≡ true)
    → held_below n m ≡ n
unfolding held_below
full_of_held zero m h = refl
full_of_held (suc n) m h =
    rw (h n (omega arith)) (omega (arith, full_of_held n m (λ j lt. h j (omega arith))))

-- Comparing two counts is a sound test for completeness: on a well-formed table the count of
-- received pieces never exceeds the number of pieces, and the two agree exactly when every
-- piece of the torrent is held.
pub all_pieces_received_lem :
    (pm : PieceManager)
    → IsValid pm
    → (received_count pm ≤ pm.num_pieces)
      × ((all_pieces_received pm ≡ true) ↔ ((j : ℕ) → j < pm.num_pieces → has_piece pm j ≡ true))
unfolding all_pieces_received received_count has_piece
all_pieces_received_lem pm v =
    let count = length-eq-held_below pm.num_pieces pm.pieces v.distinct v.in_range in
    (
      omega (arith, count, held_below-le pm.num_pieces pm.pieces),
      (
        λ e. held_of_full pm.num_pieces pm.pieces (sym count ∙ (==_iff _ _).0 e),
        λ h. (==_iff _ _).1 (count ∙ full_of_held pm.num_pieces pm.pieces h),
      ),
    )

-- A new manager, with hashes or without, is well formed and holds no piece.
pub new_piece_manager-IsValid : (n : ℕ) → IsValid (new_piece_manager n)
unfolding new_piece_manager
new_piece_manager-IsValid n = record { distinct = tt; in_range = tt }

-- A piece that is new and in range is stored.
pub add_piece_fresh :
    (pm : PieceManager) (idx : ℤ) (piece : Bytes)
    → InRange pm.num_pieces idx
    → get_piece pm idx ≡ none
    → (pm' : PieceManager) × (add_piece pm idx piece ≡ (pm', none))
      × (pm'.num_pieces ≡ pm.num_pieces)
      × (pm'.piece_hashes ≡ pm.piece_hashes)
      × ((j : ℤ) → get_piece pm' j ≡ ite (ℤ_discrete j idx) (some piece) (get_piece pm j))
      × (IsValid pm → IsValid pm')
unfolding add_piece get_piece insert
add_piece_fresh pm idx piece h new = (
  insert pm idx piece,
  rw (in_bounds_of_InRange pm idx h, new),
  refl,
  refl,
  λ j. get-put ℤ_discrete idx j piece pm.pieces,
  insert-IsValid pm idx piece h,
)

pub new_piece_manager_with_hashes-IsValid :
    (n : ℕ) (hashes : Bytes) → IsValid (new_piece_manager_with_hashes n hashes)
unfolding new_piece_manager_with_hashes
new_piece_manager_with_hashes-IsValid n hashes = record { distinct = tt; in_range = tt }
