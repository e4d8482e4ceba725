-- ===== src/TorrentServer/Integrity/Download.antt =====
-- From cmd/seed.go to cmd/download.go: the file that a node puts together from what its peers sent
-- is the file that was seeded.
use pixtorrent.Prelude.{
  ℕ, ◌*◌, ◌<◌, true, Option, none, some, List, [], Bytes, length, take, drop, ◌≡◌, refl, sym, ap,
  ◌∙◌, arith, Option-cases, inl, inr, All,
}
use pixtorrent.Prelude.Int.{pos}
use pixtorrent.Prelude.Maps.{get}
use pixtorrent.Cmd.Seed.{num_pieces_of, piece_at, piece_hashes_of}
use pixtorrent.Cmd.Seed.Hashes.{piece_hashes_of_lem}
use pixtorrent.Cmd.Seed.Pieces.{joined_pieces}
use pixtorrent.P2p.Pieces.{
  PieceManager, get_piece, has_piece, all_pieces_received, new_piece_manager_with_hashes,
}
use pixtorrent.P2p.Pieces.Store.{all_pieces_received_lem, new_piece_manager_with_hashes-IsValid}
use pixtorrent.P2p.Swarm.{new_swarm}
use pixtorrent.TorrentServer.{TorrentServer}
use pixtorrent.TorrentServer.Events.{Event, loop}
use pixtorrent.TorrentServer.Integrity.{IsSound, HashedBy, loop-IsSound}
use pixtorrent.TorrentServer.Reconstruct.{reconstruct_data, reconstruct_data-joined}

-- The node that cmd/download.go starts: no piece, no peer, and the seeder's hash list.
unfoldable pub downloader : {Rate : Type 0} → Bytes → Bytes → ℕ → Bytes → TorrentServer Rate
downloader local_id info_hash n hashes = record {
  swarm = new_swarm local_id info_hash (new_piece_manager_with_hashes n hashes);
  pending_requests = [];
}

held_not_none : {o : Option Bytes} {piece : Bytes} → o ≡ some piece → o ≡ none → ⊥
held_not_none h k = cc

-- No other data has the digest of a piece of the file.
unfoldable pub NoSecondPreimage : (Bytes → Bytes) → ℕ → Bytes → Type 0
NoSecondPreimage sha1 size file =
    (j : ℕ) (piece : Bytes)
    → j < num_pieces_of (length file) size
    → sha1 piece ≡ sha1 (piece_at size file j)
    → piece ≡ piece_at size file j

module _ (sha1 : Bytes → Bytes) (digest : (b : Bytes) → length (sha1 b) ≡ 20) (size : ℕ)
    (file : Bytes) where
  abbrev pieces_total : ℕ
  pieces_total = num_pieces_of (length file) size

  abbrev IsSeeded : PieceManager → Type 0
  IsSeeded = IsSound sha1 pieces_total (piece_hashes_of sha1 size file)

  genuine_piece :
      NoSecondPreimage sha1 size file
      → (pm : PieceManager) (j : ℕ) (piece : Bytes) → IsSeeded pm
      → get_piece pm (pos j) ≡ some piece
      → piece ≡ piece_at size file j
  unfolding NoSecondPreimage
  genuine_piece no_other pm j piece s got =
      let m = s.genuine (pos j) piece got in
      let same_index : m.index ≡ j = pos_inj (sym m.is_index) in
      no_other j piece (omega (arith, m.in_range, same_index)) (
        sym m.digest
        ∙ ap (λ k. take 20 (drop (k * 20) (piece_hashes_of sha1 size file))) same_index
        ∙ (piece_hashes_of_lem sha1 digest size file).1 j (omega (arith, m.in_range, same_index)))
    where
      pos_inj : {a b : ℕ} → pos a ≡ pos b → a ≡ b
      pos_inj h = cc

  complete-reconstruct_data :
      0 < size
      → NoSecondPreimage sha1 size file
      → (pm : PieceManager) → IsSeeded pm
      → all_pieces_received pm ≡ true
      → reconstruct_data pm ≡ some file
  unfolding has_piece
  complete-reconstruct_data positive no_other pm s all =
      reconstruct_data-joined pm (piece_at size file) held
      ∙ ap some (rw s.count (joined_pieces size file positive))
    where
      held : (j : ℕ) → j < pm.num_pieces → get_piece pm (pos j) ≡ some (piece_at size file j)
      held j lt = elim (Option-cases (get_piece pm (pos j))) [
        | inl e ↦ absurd (ground (arith, (all_pieces_received_lem pm s.valid).1.0 all j lt))
        | inr (piece, e) ↦ e ∙ ap some (genuine_piece no_other pm j piece s e)
      ]

  start-IsSound :
      IsSeeded (new_piece_manager_with_hashes pieces_total (piece_hashes_of sha1 size file))
  unfolding new_piece_manager_with_hashes get_piece get
  start-IsSound = record {
    valid = new_piece_manager_with_hashes-IsValid pieces_total (piece_hashes_of sha1 size file);
    count = refl;
    listed = refl;
    genuine = λ idx piece got. absurd (held_not_none got refl);
  }

  pub downloader-IsSound :
      (Rate : Type 0) (local_id info_hash : Bytes)
      → IsSeeded
          (downloader {Rate = Rate} local_id info_hash pieces_total
            (piece_hashes_of sha1 size file)).swarm.pieces
  unfolding downloader new_swarm
  downloader-IsSound Rate local_id info_hash = start-IsSound

-- A download gives the seeded file or is not complete. A node starts with the number of pieces
-- and the hash list that the seeder made of its file, and reacts to any events in any order, so
-- to any data from any peers. If it then counts as complete, the data that it puts together is
-- the seeder's file. The digests are 20 bytes long, the piece size is positive, and no other
-- data has the digest of a piece of the file.
pub download_lem :
    {Rate : Type 0} (sha1 : Bytes → Bytes) (digest : (b : Bytes) → length (sha1 b) ≡ 20) (size : ℕ)
    (file local_id info_hash : Bytes) (events : List (Event Rate))
    → 0 < size
    → NoSecondPreimage sha1 size file
    → All (HashedBy sha1) events
    → all_pieces_received
        (loop events (
          downloader local_id info_hash
            (num_pieces_of (length file) size)
            (piece_hashes_of sha1 size file))).0.swarm.pieces
      ≡ true
    → reconstruct_data
        (loop events (
          downloader local_id info_hash
            (num_pieces_of (length file) size)
            (piece_hashes_of sha1 size file))).0.swarm.pieces
      ≡ some file
download_lem sha1 digest size file local_id info_hash events positive no_other hashed all =
    complete-reconstruct_data sha1 digest size file positive no_other _
      (loop-IsSound _ _ sha1 events _ hashed
        (downloader-IsSound sha1 digest size file _ local_id info_hash))
      all
