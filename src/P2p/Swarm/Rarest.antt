-- ===== src/P2p/Swarm/Rarest.antt =====
-- `GetRarestMissingPieces` of p2p/swarm.go. `coin` gives the result of each call of `rand.Int`
-- that breaks a tie.
pub mod Order
use pixtorrent.Prelude.{
  ℕ, zero, suc, ◌+◌, Bool, true, false, not, ◌&&◌, List, [], ◌∷◌, map, Bytes, length, get_or, set,
  replicate, ltb, leb, ◌==◌, if◌then◌else◌,
}
use pixtorrent.Prelude.Maps.{Map}
use pixtorrent.Prelude.Sort.{sort_slice}
use pixtorrent.P2p.Pieces.{PieceManager, has_piece, byte_index, peer_has}
use pixtorrent.P2p.Swarm.{Swarm}

-- `byteIndex < len(bf) && (bf[byteIndex]&(1<<bitIndex)) != 0`
abbrev pub shows : Bytes → ℕ → Bool
shows field i = ltb (byte_index i) (length field) && peer_has field i

-- The inner loop over the pieces; `n` rounds are left, from `i` on.
unfoldable pub count_field : ℕ → ℕ → Bytes → List ℕ → List ℕ
count_field zero i field avail = avail
count_field (suc n) i field avail =
    count_field n (suc i) field
      (if shows field i then set avail i (get_or avail i 0 + 1) else avail)

-- The outer loop over the bitfields.
unfoldable pub count_fields : ℕ → Map Bytes Bytes → List ℕ → List ℕ
count_fields n [] avail = avail
count_fields n ((id, field) ∷ fields) avail = count_fields n fields (count_field n 0 field avail)

unfoldable pub availability : ℕ → Map Bytes Bytes → List ℕ
unfolding count_fields count_field
availability n fields = count_fields n fields (replicate n 0)

pub record PieceRarity : Type 0 where
  pub index : ℕ
  pub count : ℕ

-- The loop that gathers the candidates; `n` rounds are left, from `i` on.
unfoldable pub candidates : ℕ → ℕ → PieceManager → Bytes → List ℕ → List PieceRarity
candidates zero i pm field avail = []
candidates (suc n) i pm field avail =
    let rest = candidates n (suc i) pm field avail in
    if has_piece pm i
    then rest
    else if leb (length field) (byte_index i)
    then rest
    else if peer_has field i
    then record { index = i; count = get_or avail i 0 } ∷ rest
    else rest

-- The comparison that `sort.Slice` is given.
unfoldable pub rarer : (ℕ → Bool) → ℕ → PieceRarity → PieceRarity → Bool
rarer coin t a b = if a.count == b.count then coin t else ltb a.count b.count

unfoldable pub get_rarest_missing_pieces :
    {Rate : Type 0} → (ℕ → Bool) → Swarm Rate → Bytes → List ℕ
unfolding availability candidates sort_slice rarer
get_rarest_missing_pieces coin s field =
    let n = s.pieces.num_pieces in
    let avail = availability n s.peer_bitfields in
    map (λ c. c.index) (sort_slice (rarer coin) (candidates n 0 s.pieces field avail))
