-- ===== src/TorrentServer/Stats.antt =====
-- What torrent_server/handler.go tells the tracker: `AnnounceToTracker`, `UpdateTrackerStats` and
-- `ScrapeTracker`. The tracker client is never nil behind `NewTorrentServer`.
pub mod Balance
use pixtorrent.Prelude.{
  ℕ, zero, suc, ◌+◌, ◌*◌, Bool, Option, List, [], ◌∷◌, Bytes, length, is_some, if◌then◌else◌,
}
use pixtorrent.Prelude.Int.{ℤ, pos, ◌+ℤ◌, wrap64}
use pixtorrent.P2p.Pieces.{PieceManager, get_piece}
use pixtorrent.P2p.Swarm.{Swarm, missing_pieces_count}
use pixtorrent.Client.{
  TrackerClient, AnnounceResponse, ScrapeResponse, Url, Reply, Answer, update_stats, announce,
  scrape,
}
use pixtorrent.TorrentServer.{TorrentServer}

-- The loop over the piece numbers; `n` rounds are left, from `i` on.
unfoldable pub downloaded_from : ℕ → ℕ → PieceManager → ℤ → ℤ
unfolding get_piece
downloaded_from zero i pm downloaded = downloaded
downloaded_from (suc n) i pm downloaded =
    downloaded_from n (suc i) pm
      (if is_some (get_piece pm (pos i)) then wrap64 (downloaded +ℤ pos 1024) else downloaded)

module _ {Rate : Type 0} where
  unfoldable pub announce_to_tracker :
      ℕ
      → (Url → Reply)
      → TrackerClient
      → Option Url
      → Bytes
      → TorrentServer Rate
      → Answer AnnounceResponse
  unfolding announce missing_pieces_count
  announce_to_tracker max_make network tc tracker_url event ts =
      announce max_make network tc tracker_url ts.swarm.info_hash (missing_pieces_count ts.swarm)
        event

  unfoldable pub scrape_tracker :
      ℕ → (Url → Reply) → Option Url → TorrentServer Rate → Answer ScrapeResponse
  unfolding scrape
  scrape_tracker max_make network tracker_url ts =
      scrape max_make network tracker_url ts.swarm.info_hash

  -- The client behind `UpdateStats`.
  unfoldable pub tracker_stats : TorrentServer Rate → TrackerClient → TrackerClient
  unfolding downloaded_from update_stats
  tracker_stats ts tc =
      update_stats (wrap64 (pos (length ts.swarm.peers * 1024)))
        (downloaded_from ts.swarm.pieces.num_pieces 0 ts.swarm.pieces (pos 0)) tc

  -- `UpdateTrackerStats`: the client with its new numbers, and how the announce ends.
  unfoldable pub update_tracker_stats :
      ℕ
      → (Url → Reply)
      → TrackerClient
      → Option Url
      → TorrentServer Rate
      → TrackerClient × Answer AnnounceResponse
  unfolding tracker_stats announce_to_tracker
  update_tracker_stats max_make network tc tracker_url ts =
      let tc' = tracker_stats ts tc in
      (tc', announce_to_tracker max_make network tc' tracker_url [] ts)
