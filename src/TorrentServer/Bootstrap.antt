-- ===== src/TorrentServer/Bootstrap.antt =====
-- torrent_server/server.go before its main loop: the id of a node, the new server, and the peers
-- that the tracker gives it to dial. The dials are goroutines: the addresses are what is modelled.
pub mod Announced
pub mod Nodes
pub mod Ids
use pixtorrent.Prelude.{
  ℕ, zero, suc, ◌+◌, Bool, true, false, not, Option, none, some, List, [], ◌∷◌, ◌++◌, Bytes,
  bytes_discrete, codes, contains, is_some, if◌then◌else◌,
}
use pixtorrent.Prelude.Int.{ℤ, pos}
use pixtorrent.Prelude.Maps.{Map, get, put}
use pixtorrent.Client.{
  TrackerClient, Peer, Url, Reply, Answer, answered, failed, panicked, unfinished,
  new_tracker_client, announce,
}
use pixtorrent.Meta.Bencode.Scan.{text_of}
use pixtorrent.P2p.Pieces.{PieceManager, equal}
use pixtorrent.P2p.Swarm.{new_swarm}
use pixtorrent.Tracker.Hex.{encode_to_string}
use pixtorrent.TorrentServer.{TorrentServer}

-- What `crypto/rand` gives for an id: numbers for two letters and four digits, and twelve bytes.
pub record Draws : Type 0 where
  pub letters : ℕ × ℕ
  pub digits : ℕ × ℕ × ℕ × ℕ
  pub others : Bytes

abbrev pub random_letter : ℕ → ℕ
random_letter n = 0x41 + n

abbrev pub random_digit : ℕ → ℕ
random_digit n = 0x30 + n

unfoldable pub new_peer_id : Draws → Bytes
new_peer_id d =
    0x2d
    ∷ random_letter d.letters.0
    ∷ random_letter d.letters.1
    ∷ random_digit d.digits.0
    ∷ random_digit d.digits.1
    ∷ random_digit d.digits.2
    ∷ random_digit d.digits.3
    ∷ 0x2d
    ∷ d.others

-- `NewTorrentServer`: the server and its tracker client, whose port is not known yet.
unfoldable pub new_torrent_server :
    {Rate : Type 0} → Draws → Bytes → PieceManager → TorrentServer Rate × TrackerClient
unfolding new_peer_id new_tracker_client encode_to_string
new_torrent_server d info_hash pieces = (
  record { swarm = new_swarm (new_peer_id d) info_hash pieces; pending_requests = [] },
  new_tracker_client (encode_to_string (new_peer_id d)) (pos 0),
)

-- The client that `Start` makes when the port is known.
unfoldable pub started_client : {Rate : Type 0} → ℤ → TorrentServer Rate → TrackerClient
unfolding new_tracker_client encode_to_string
started_client port ts = new_tracker_client (encode_to_string ts.swarm.local_peer_id) port

unfoldable pub format_addr : Bytes → ℤ → Bytes
unfolding text_of
format_addr ip port =
    if contains 0x3a ip
    then 0x5b ∷ (ip ++ 0x5d ∷ 0x3a ∷ text_of port)
    else ip ++ 0x3a ∷ text_of port

-- The loop over the peers, with the set `unique` and the nodes so far.
unfoldable pub add_nodes : Bytes → List Peer → Map Bytes Unit → List Bytes → List Bytes
unfolding format_addr
add_nodes own [] unique nodes = nodes
add_nodes own (p ∷ peers) unique nodes =
    let addr = format_addr p.ip p.port in
    let skipped = add_nodes own peers unique nodes in
    let added = add_nodes own peers (put bytes_discrete addr tt unique) (nodes ++ addr ∷ []) in
    if equal addr own
    then skipped
    else if is_some (get bytes_discrete addr unique)
    then skipped
    else added

-- The announce of `populateBootstrapNodes`: nothing is left, whatever the node holds.
abbrev pub bootstrap_left : ℤ
bootstrap_left = pos 0

abbrev pub started : Bytes
started = codes "started"

-- `bootstrapNetwork` for a node that listens at `own`: the addresses that it dials, or how the
-- announce ended.
unfoldable pub bootstrap_network :
    ℕ → (Url → Reply) → TrackerClient → Option Url → Bytes → Bytes → Answer (List Bytes)
unfolding announce add_nodes
bootstrap_network max_make network tc tracker_url info_hash own =
    elim (announce max_make network tc tracker_url info_hash bootstrap_left started) [
      | answered response ↦ answered (add_nodes own response.peers [] [])
      | failed e ↦ failed e
      | panicked ↦ panicked
      | unfinished ↦ unfinished
    ]
