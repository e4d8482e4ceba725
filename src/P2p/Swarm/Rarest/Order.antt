-- ===== src/P2p/Swarm/Rarest/Order.antt =====
-- Rarest first: which pieces are chosen, and in which order.
use mathlib.Core.List.{Perm}
use mathlib.Core.List.Perm
use native.Mathlib.Nat.{le_trans}
use pixtorrent.Prelude.{
  ℕ, zero, suc, ◌+◌, ◌≤◌, ◌<◌, Bool, true, false, ◌&&◌, List, [], ◌∷◌, map, Bytes, length, get_or,
  set, replicate, ltb, leb, if◌then◌else◌, ◌≡◌, refl, ap, subst, ◌∙◌, arith, All, Bool-cases, inl,
  inr, length-set, get_or-set_self, get_or-set_ne, length-replicate, get_or-replicate,
}
use pixtorrent.Prelude.Maps.{Map}
use pixtorrent.Prelude.Sort.{
  sort_slice, sort_slice-perm, sort_slice-All, sort_slice-IsOrdered, IsOrdered,
}
use pixtorrent.P2p.Pieces.{
  PieceManager, has_piece, byte_index, peer_has, missing_from, missing_pieces,
}
use pixtorrent.P2p.Swarm.{Swarm}
use pixtorrent.P2p.Swarm.Rarest.{
  shows, count_field, count_fields, availability, PieceRarity, candidates, rarer,
  get_rarest_missing_pieces,
}

-- The number of peers whose bitfield shows piece `i`.
abbrev pub holders : Map Bytes Bytes → ℕ → ℕ
holders [] i = 0
holders ((id, field) ∷ fields) i = (if shows field i then 1 else 0) + holders fields i

length-count_field :
    (n i : ℕ) (field : Bytes) (avail : List ℕ) → length (count_field n i field avail) ≡ length avail
unfolding count_field
length-count_field zero i field avail = refl
length-count_field (suc n) i field avail = elim (Bool-cases (shows field i)) [
  | inl e ↦ rw e (length-count_field n (suc i) field _ ∙ length-set avail i _)
  | inr e ↦ rw e (length-count_field n (suc i) field avail)
]

get_or-count_field :
    (n i : ℕ) (field : Bytes) (avail : List ℕ) (j : ℕ)
    → i + n ≤ length avail
    → get_or (count_field n i field avail) j 0
      ≡ get_or avail j 0 + (if leb i j && ltb j (i + n) && shows field j then 1 else 0)
unfolding count_field
get_or-count_field zero i field avail j h = ground arith
get_or-count_field (suc n) i field avail j h = elim (Bool-cases (shows field i)) [
  | inl e ↦ rw e (
      get_or-count_field n (suc i) field (set avail i (get_or avail i 0 + 1)) j
        (omega (arith, length-set avail i (get_or avail i 0 + 1)))
      ∙ ground (
        arith,
        get_or-set_self avail i (get_or avail i 0 + 1) 0,
        get_or-set_ne avail i j (get_or avail i 0 + 1) 0,
      ))
  | inr e ↦ rw e (get_or-count_field n (suc i) field avail j (omega arith) ∙ ground arith)
]

get_or-count_fields :
    (n : ℕ) (fields : Map Bytes Bytes) (avail : List ℕ) (j : ℕ)
    → j < n
    → n ≤ length avail
    → get_or (count_fields n fields avail) j 0 ≡ get_or avail j 0 + holders fields j
unfolding count_fields
get_or-count_fields n [] avail j lt h = omega arith
get_or-count_fields n ((id, field) ∷ fields) avail j lt h = ground (
  arith,
  get_or-count_fields n fields (count_field n 0 field avail) j,
  length-count_field n 0 field avail,
  get_or-count_field n 0 field avail j,
)

get_or-availability :
    (n : ℕ) (fields : Map Bytes Bytes) (j : ℕ)
    → j < n
    → get_or (availability n fields) j 0 ≡ holders fields j
unfolding availability
get_or-availability n fields j lt = omega (
  arith,
  get_or-count_fields n fields (replicate n 0) j lt (omega (arith, length-replicate {A = ℕ} n 0)),
  get_or-replicate {A = ℕ} n j 0,
)

abbrev index_of : PieceRarity → ℕ
index_of c = c.index

-- The candidates are the missing pieces of p2p/piece_manager.go, though one loop goes on where
-- the other breaks off.
candidates_past :
    (n i : ℕ) (pm : PieceManager) (field : Bytes) (avail : List ℕ)
    → length field ≤ byte_index i
    → candidates n i pm field avail ≡ []
unfolding candidates
candidates_past zero i pm field avail h = refl
candidates_past (suc n) i pm field avail h =
    ground (arith, candidates_past n (suc i) pm field avail)

index-candidates :
    (n i : ℕ) (pm : PieceManager) (field : Bytes) (avail : List ℕ)
    → map index_of (candidates n i pm field avail) ≡ missing_from n i pm field
unfolding candidates missing_from
index-candidates zero i pm field avail = refl
index-candidates (suc n) i pm field avail = elim (Bool-cases (leb (length field) (byte_index i))) [
  | inl past ↦
      rw (past, candidates_past n (suc i) pm field avail (ground arith))
        (elim (Bool-cases (has_piece pm i)) [ inl e ↦ rw e | inr e ↦ rw e ])
  | inr within ↦ rw within (elim (Bool-cases (has_piece pm i)) [
    | inl e ↦ rw e (index-candidates n (suc i) pm field avail ∙ ground arith)
    | inr e ↦ rw e (elim (Bool-cases (peer_has field i)) [
      | inl f ↦ rw f (ap (◌∷◌ i) (index-candidates n (suc i) pm field avail))
      | inr f ↦ rw f (index-candidates n (suc i) pm field avail)
    ])
  ])
]

-- A candidate carries the number of peers that show its piece.
abbrev Counted : Map Bytes Bytes → PieceRarity → Type 0
Counted fields c = c.count ≡ holders fields c.index

candidates-Counted :
    (total n i : ℕ) (pm : PieceManager) (field : Bytes) (fields : Map Bytes Bytes)
    → i + n ≤ total
    → All (Counted fields) (candidates n i pm field (availability total fields))
unfolding candidates
candidates-Counted total zero i pm field fields h = tt
candidates-Counted total (suc n) i pm field fields h =
    let rest = candidates-Counted total n (suc i) pm field fields (omega arith) in
    elim (Bool-cases (has_piece pm i)) [
      | inl e ↦ rw e rest
      | inr e ↦ rw e (elim (Bool-cases (leb (length field) (byte_index i))) [
        | inl past ↦ rw past rest
        | inr within ↦ rw within (elim (Bool-cases (peer_has field i)) [
          | inl f ↦ rw f (get_or-availability total fields i (omega arith), rest)
          | inr f ↦ rw f rest
        ])
      ])
    ]

abbrev NotMore : PieceRarity → PieceRarity → Type 0
NotMore a b = a.count ≤ b.count

All-index :
    (fields : Map Bytes Bytes) (a : PieceRarity) (cs : List PieceRarity)
    → Counted fields a
    → All (Counted fields) cs
    → All (NotMore a) cs
    → All (λ j. holders fields a.index ≤ holders fields j) (map index_of cs)
All-index fields a [] e h k = tt
All-index fields a (c ∷ cs) e h k = (omega arith, All-index fields a cs e h.1 k.1)

IsOrdered-index :
    (fields : Map Bytes Bytes) (cs : List PieceRarity)
    → All (Counted fields) cs
    → IsOrdered NotMore cs
    → IsOrdered (λ i j. holders fields i ≤ holders fields j) (map index_of cs)
IsOrdered-index fields [] h k = tt
IsOrdered-index fields (c ∷ cs) h k =
    (All-index fields c cs h.0 h.1 k.0, IsOrdered-index fields cs h.1 k.1)

module _ (coin : ℕ → Bool) where
  rarer-le : (t : ℕ) (a b : PieceRarity) → rarer coin t a b ≡ true → NotMore a b
  unfolding rarer
  rarer-le t a b h = ground arith

  not-rarer-le : (t : ℕ) (a b : PieceRarity) → rarer coin t a b ≡ false → NotMore b a
  unfolding rarer
  not-rarer-le t a b h = ground arith

-- Whatever the coins, the pieces asked for are the missing ones of the piece manager, each once,
-- and a piece never stands before one that fewer peers show.
pub get_rarest_missing_pieces_lem :
    {Rate : Type 0} (coin : ℕ → Bool) (s : Swarm Rate) (field : Bytes)
    → Perm (get_rarest_missing_pieces coin s field) (missing_pieces s.pieces field)
      × IsOrdered
          (λ i j. holders s.peer_bitfields i ≤ holders s.peer_bitfields j)
          (get_rarest_missing_pieces coin s field)
unfolding get_rarest_missing_pieces missing_pieces
get_rarest_missing_pieces_lem coin s field =
    let n = s.pieces.num_pieces in
    let fields = s.peer_bitfields in
    let avail = availability n fields in
    let cs = candidates n 0 s.pieces field avail in
    (
      subst (Perm (map index_of (sort_slice (rarer coin) cs)))
          (index-candidates n 0 s.pieces field avail)
          (Perm.map index_of (sort_slice-perm (rarer coin) cs)),
      IsOrdered-index fields (sort_slice (rarer coin) cs)
          (sort_slice-All (rarer coin) (Counted fields) cs
            (candidates-Counted n n 0 s.pieces field fields (omega arith)))
          (sort_slice-IsOrdered (rarer coin) NotMore (rarer-le coin) (not-rarer-le coin)
            (λ a b c p q. le_trans p q) cs),
    )
