-- ===== src/TorrentServer/Bootstrap/Ids.antt =====
-- `newPeerId` of torrent_server/server.go: the shape of an id.
use pixtorrent.Prelude.{◌*◌, ◌<◌, Bytes, length, All, IsByte, ◌≡◌, refl, ◌∙◌, arith, ap}
use pixtorrent.Prelude.Int.{ℤ}
use pixtorrent.Client.{new_tracker_client}
use pixtorrent.P2p.Pieces.{PieceManager}
use pixtorrent.P2p.Swarm.{new_swarm}
use pixtorrent.Tracker.Hex.{length-encode_to_string}
use pixtorrent.TorrentServer.{TorrentServer}
use pixtorrent.TorrentServer.Bootstrap.{Draws, new_peer_id, new_torrent_server, started_client}

-- What `rand.Int` and `rand.Read` promise.
pub record IsDraw (d : Draws) : Type 0 where
  pub small_letters : (d.letters.0 < 26) × (d.letters.1 < 26)
  pub small_digits : (d.digits.0 < 10) × (d.digits.1 < 10) × (d.digits.2 < 10) × (d.digits.3 < 10)
  pub twelve : length d.others ≡ 12
  pub bytes : All IsByte d.others

new_peer_id-IsByte : (d : Draws) → IsDraw d → All IsByte (new_peer_id d)
unfolding new_peer_id
new_peer_id-IsByte d h =
    let (a, b) = h.small_letters in
    let (i, j, k, l) = h.small_digits in
    (
      omega arith,
      (
        omega (arith, a),
        (
          omega (arith, b),
          (
            omega (arith, i),
            (omega (arith, j), (omega (arith, k), (omega (arith, l), (omega arith, h.bytes)))),
          ),
        ),
      ),
    )

length-new_peer_id : (d : Draws) → IsDraw d → length (new_peer_id d) ≡ 20
unfolding new_peer_id
length-new_peer_id d h = omega (arith, h.twelve)

-- A new node has an id of twenty bytes, and announces itself to the tracker by forty hexadecimal
-- digits, before and behind its start: the numbers that are drawn for letters are below 26, those
-- for digits below 10, and twelve bytes are read.
pub new_torrent_server-ids :
    (Rate : Type 0) (d : Draws) (info_hash : Bytes) (pieces : PieceManager) (port : ℤ)
    → IsDraw d
    → let ts : TorrentServer Rate = (new_torrent_server d info_hash pieces).0 in
      (length ts.swarm.local_peer_id ≡ 20)
      × All IsByte ts.swarm.local_peer_id
      × (length (new_torrent_server {Rate = Rate} d info_hash pieces).1.peer_id ≡ 40)
      × ((started_client port ts).peer_id
          ≡ (new_torrent_server {Rate = Rate} d info_hash pieces).1.peer_id)
unfolding new_torrent_server started_client new_swarm new_tracker_client
new_torrent_server-ids Rate d info_hash pieces port h = (
  length-new_peer_id d h,
  new_peer_id-IsByte d h,
  length-encode_to_string (new_peer_id d) ∙ ap (λ n. 2 * n) (length-new_peer_id d h),
  refl,
)
