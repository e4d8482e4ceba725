-- ===== src/TorrentServer/Stats/Balance.antt =====
-- How the numbers that a node announces fit together.
use pixtorrent.Prelude.{
  ℕ, zero, suc, ◌+◌, ◌-◌, ◌*◌, ◌^◌, ◌<◌, is_some, true, Option, [], length, if◌then◌else◌, ◌≡◌, ◌↔◌,
  refl, ap, ◌∙◌, arith, Bool-cases, inl, inr,
}
use pixtorrent.Prelude.Int.{pos, ◌+ℤ◌, wrap64}
use pixtorrent.P2p.Pieces.{PieceManager, get_piece, received_count, all_pieces_received}
use pixtorrent.P2p.Pieces.Store.{IsValid, held_below, held_below-le, length-eq-held_below}
use pixtorrent.P2p.Swarm.{missing_pieces_count}
use pixtorrent.Client.{TrackerClient, Url, Reply, update_stats, announce}
use pixtorrent.TorrentServer.{TorrentServer}
use pixtorrent.TorrentServer.Stats.{
  downloaded_from, tracker_stats, announce_to_tracker, update_tracker_stats,
}

add_1024 : (a : ℕ) → a + 1024 < 2 ^ 63 → wrap64 (pos a +ℤ pos 1024) ≡ pos (a + 1024)
unfolding wrap64 ◌+ℤ◌
add_1024 a h = ground arith

held_below-step :
    (i : ℕ) (pm : PieceManager)
    → held_below (suc i) pm.pieces
      ≡ (if is_some (get_piece pm (pos i)) then 1 else 0) + held_below i pm.pieces
unfolding held_below get_piece
held_below-step i pm = refl

-- The loop adds 1024 for each held piece of those that are left.
downloaded_from_lem :
    (n i a k : ℕ) (pm : PieceManager)
    → k ≡ i + n
    → a + 1024 * n < 2 ^ 63
    → (d : ℕ) × (downloaded_from n i pm (pos a) ≡ pos d)
      × (d + 1024 * held_below i pm.pieces ≡ a + 1024 * held_below k pm.pieces)
unfolding downloaded_from
downloaded_from_lem zero i a k pm e h =
    (a, refl, ap (λ j. a + 1024 * held_below j pm.pieces) (omega (arith, e)))
downloaded_from_lem (suc n) i a k pm e h = elim (Bool-cases (is_some (get_piece pm (pos i)))) [
  | inl held ↦
      let (d, run, sum) =
        downloaded_from_lem n (suc i) (a + 1024) k pm (omega arith) (omega arith) in
      (d, rw (held, add_1024 a (omega arith)) run, ground (arith, sum, held_below-step i pm, held))
  | inr free ↦
      let (d, run, sum) = downloaded_from_lem n (suc i) a k pm (omega arith) (omega arith) in
      (d, rw free run, ground (arith, sum, held_below-step i pm, free))
]

-- What a node tells the tracker in `UpdateTrackerStats`, whatever the network makes of it: as
-- uploaded 1024 bytes for each peer, as downloaded 1024 bytes for each piece that it holds, and as
-- left the number of pieces that it does not hold, which is 0 exactly if `AllPiecesReceived` holds;
-- and its client keeps the two numbers. The piece table is well formed, and 1024 bytes for each piece
-- and for each peer are an int64.
pub update_tracker_stats_lem :
    {Rate : Type 0} (max_make : ℕ) (network : Url → Reply) (tracker_url : Option Url)
    (ts : TorrentServer Rate) (tc : TrackerClient)
    → let pm = ts.swarm.pieces in
      let held = held_below pm.num_pieces pm.pieces in
      let told = record tc {
        uploaded = pos (1024 * length ts.swarm.peers);
        downloaded = pos (1024 * held);
      } in
      IsValid pm
      → 1024 * pm.num_pieces < 2 ^ 63
      → 1024 * length ts.swarm.peers < 2 ^ 63
      → (update_tracker_stats max_make network tc tracker_url ts ≡ (
        told,
        announce max_make network told tracker_url ts.swarm.info_hash
            (pos (pm.num_pieces - held))
            [],
      ))
        × ((pm.num_pieces - held ≡ 0) ↔ (all_pieces_received pm ≡ true))
unfolding update_tracker_stats announce_to_tracker tracker_stats update_stats missing_pieces_count
    received_count held_below all_pieces_received wrap64
update_tracker_stats_lem max_make network tracker_url ts tc v small few_peers =
    let pm = ts.swarm.pieces in
    let (d, run, sum) =
      downloaded_from_lem pm.num_pieces 0 0 pm.num_pieces pm (omega arith) (omega (arith, small)) in
    let held = length-eq-held_below pm.num_pieces pm.pieces v.distinct v.in_range in
    let few = held_below-le pm.num_pieces pm.pieces in
    let downloaded : downloaded_from pm.num_pieces 0 pm (pos 0)
        ≡ pos (1024 * held_below pm.num_pieces pm.pieces) =
      run ∙ ap pos (omega (arith, sum)) in
    let uploaded : wrap64 (pos (length ts.swarm.peers * 1024))
        ≡ pos (1024 * length ts.swarm.peers) =
      ground (arith, few_peers) in
    let left : missing_pieces_count ts.swarm
        ≡ pos (pm.num_pieces - held_below pm.num_pieces pm.pieces) =
      ground (arith, held, few) in
    (
      rw (downloaded, uploaded, left) refl,
      (λ e. ground (arith, held, few), λ e. ground (arith, held, few)),
    )
