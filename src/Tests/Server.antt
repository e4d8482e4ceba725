-- ===== src/Tests/Server.antt =====
-- torrent_server/ at small inputs.
use pixtorrent.Prelude.{
  ℕ, ◌+◌, ◌≤◌, ◌<◌, Bool, true, false, Option, none, some, List, [], ◌∷◌, ◌++◌, Bytes,
  bytes_discrete, length, is_some, ◌≡◌, ◌≢◌, ◌↔◌, refl, arith, All, ite, replicate, codes, IsByte,
  ◌*◌, ◌-◌, ◌^◌, put_u32, not, ◌&&◌,
}
use pixtorrent.Client.{Peer}
use pixtorrent.Cmd.Seed.Run.{SeedFlags, format_of}
use pixtorrent.Meta.Bencode.Scan.{text_of, decimal, decimal_onto}
use pixtorrent.P2p.Pieces.{
  PieceManager, received_count, equal, new_piece_manager, new_piece_manager_with_hashes,
}
use pixtorrent.P2p.Pieces.Store
use pixtorrent.P2p.Swarm.{missing_pieces_count}
use pixtorrent.P2p.Swarm.Members.{IsValid}
use pixtorrent.TorrentServer.Bootstrap.{Draws, new_torrent_server, add_nodes, format_addr}
use pixtorrent.TorrentServer.Bootstrap.Nodes.{IsDistinct, is_listed, addresses, add_nodes_lem}
use pixtorrent.Client.{answered, unreachable, announce}
use pixtorrent.P2p.Pieces.Store.{held_below}
use pixtorrent.P2p.Swarm.Unchoke.{chosen}
use pixtorrent.P2p.Swarm.Unchoke.Bound.{round_choice}
use pixtorrent.TorrentServer.Choked.{unchosen_request}
use pixtorrent.TorrentServer.Life
use pixtorrent.TorrentServer.Life.{crashed_behind, returned, start_lem}
use pixtorrent.TorrentServer.Membership.Loop.{loop-IsValid}
use pixtorrent.TorrentServer.Stats.{update_tracker_stats}
use pixtorrent.TorrentServer.Stats.Balance.{update_tracker_stats_lem}
use pixtorrent.Tests.Client.{bobs, url}
use pixtorrent.Prelude.Int.{ℤ_discrete, pos}
use pixtorrent.Prelude.Maps.{get, put}
use pixtorrent.Cmd.Seed.{num_pieces_of, piece_hashes_of}
use pixtorrent.P2p.Pieces.{get_piece, all_pieces_received}
use pixtorrent.P2p.Swarm.{lookup, is_choking, msg_request_piece, msg_unchoke, msg_send_piece}
use pixtorrent.TorrentServer.{
  TorrentServer, Outside, Result, run_unchoke_round, handle_rpc, request_message, piece_message,
}
use pixtorrent.TorrentServer.Events.{Event, rpc, announce_tick, loop}
use pixtorrent.TorrentServer.Integrity.{IsSound, HashedBy, loop-IsSound}
use pixtorrent.TorrentServer.Integrity.Download.{downloader, downloader-IsSound}
use pixtorrent.TorrentServer.Requests.{Served, request-Served, request_frames, unchoke_requests}
use pixtorrent.Tests.Pieces.{toy_digest, length-toy_digest}
use pixtorrent.Tests.Swarm.{
  Rate, alice, bob, peer, state_of, swarm, swarm-IsValid, round_input, round_input-Covers,
  some_pieces,
}

abbrev env : Outside
env = record { sha1 = toy_digest; coin = λ t. true; mkdir_ok = true; write_ok = true }

-- A node that chokes Bob, serves Alice, and has requests stored for Bob.
abbrev node : TorrentServer Rate
node = record { swarm = swarm; pending_requests = (bob, 0 ∷ 3 ∷ []) ∷ [] }

unknown_unchosen : chosen (7 ∷ []) (round_choice round_input swarm) ≡ false
unfolding round_choice chosen get pixtorrent.P2p.Swarm.Unchoke.choose_optimistic equal
    pixtorrent.P2p.Swarm.Unchoke.next_optimistic pixtorrent.P2p.Swarm.Unchoke.update_all
    bytes_discrete pixtorrent.Prelude.ℕ_discrete pixtorrent.P2p.Swarm.Unchoke.best_peers put
unknown_unchosen = refl

unchosen_request_example :
    handle_rpc env
      (7 ∷ [])
      (msg_request_piece ∷ 0 ∷ 0 ∷ 0 ∷ 1 ∷ [])
      (run_unchoke_round round_input node)
    ≡ (run_unchoke_round round_input node, [])
unchosen_request_example =
    unchosen_request env round_input (7 ∷ []) (0 ∷ 0 ∷ 0 ∷ 1 ∷ []) node swarm-IsValid.states_map
      round_input-Covers unknown_unchosen

request-Served_example :
    let asked = handle_rpc env alice (msg_request_piece ∷ put_u32 1) node in
    Served alice 1 (9 ∷ []) (peer alice) (state_of false 10) node asked.0 × (asked.1 ≡ [])
unfolding get get_piece bytes_discrete pixtorrent.Prelude.ℕ_discrete ℤ_discrete
request-Served_example =
    request-Served env alice 1 (9 ∷ []) (peer alice) (state_of false 10) node (omega arith) refl
      refl (omega arith) refl refl refl

unchoke_requests_example :
    let after = (handle_rpc env bob (msg_unchoke ∷ []) node).0 in
    (lookup bob after.swarm.peers
      ≡ some (record (peer bob) { outbox = [] ++ request_frames (0 ∷ 3 ∷ []) }))
    × (get bytes_discrete bob after.pending_requests ≡ none)
unfolding get bytes_discrete pixtorrent.Prelude.ℕ_discrete
unchoke_requests_example =
    unchoke_requests env bob (0 ∷ 3 ∷ []) (peer bob) node refl refl refl (omega arith)

-- A file of one piece, and a download of it from a peer that first sends another piece.
abbrev file : Bytes
file = 7 ∷ 8 ∷ []

abbrev hashes : Bytes
hashes = piece_hashes_of toy_digest 2 file

abbrev start : TorrentServer Rate
start = downloader [] [] (num_pieces_of 2 2) hashes

abbrev events : List (Event Rate)
events =
    rpc env alice (msg_send_piece ∷ 0 ∷ 0 ∷ 0 ∷ 0 ∷ 6 ∷ [])
    ∷ announce_tick
    ∷ rpc env alice (msg_send_piece ∷ 0 ∷ 0 ∷ 0 ∷ 0 ∷ 7 ∷ 8 ∷ [])
    ∷ []

events-HashedBy : All (HashedBy toy_digest) events
unfolding HashedBy
events-HashedBy = (refl, (tt, (refl, tt)))

loop-IsSound_example :
    IsSound toy_digest (num_pieces_of 2 2) hashes (loop events start).0.swarm.pieces
loop-IsSound_example =
    loop-IsSound (num_pieces_of 2 2) hashes toy_digest events start events-HashedBy
      (downloader-IsSound toy_digest length-toy_digest 2 file Rate [] [])

-- The seeder's command line, the draws of the downloader's id, and the server that it starts.
abbrev flags : SeedFlags
flags = record { file = codes "a/b.txt"; port = []; tracker = codes "t"; piece_size = 2 }

abbrev draws : Draws
draws = record { letters = (0, 1); digits = (0, 1, 2, 3); others = replicate 12 7 }

abbrev downloading : TorrentServer Rate
downloading =
    (new_torrent_server draws (toy_digest file)
      (new_piece_manager_with_hashes (num_pieces_of 2 2) hashes)).0

-- The format is the extension.
format_of_run : format_of (codes "a/b.txt") ≡ codes "txt"
unfolding format_of
format_of_run = refl

loop-IsValid_example : IsValid (loop events node).0.swarm
loop-IsValid_example = loop-IsValid events node swarm-IsValid

some_pieces-IsValid : Store.IsValid some_pieces
some_pieces-IsValid = record { distinct = (tt, tt); in_range = (omega arith, tt) }

-- The node holds one piece of four, and has two peers.
update_tracker_stats_lem_example :
    let held = held_below 4 node.swarm.pieces.pieces in
    let told = record bobs { uploaded = pos (1024 * 2); downloaded = pos (1024 * held) } in
    (update_tracker_stats (2 ^ 48) (λ u. unreachable) bobs (some url) node
      ≡ (told, announce (2 ^ 48) (λ u. unreachable) told (some url) [] (pos (4 - held)) []))
    × ((4 - held ≡ 0) ↔ (all_pieces_received node.swarm.pieces ≡ true))
update_tracker_stats_lem_example =
    update_tracker_stats_lem (2 ^ 48) (λ u. unreachable) (some url) node bobs some_pieces-IsValid
      (omega arith) (omega arith)

-- Three peers, of which one is the node itself and two are the same.
abbrev known : List Peer
known =
    record { peer_id = []; ip = codes "1.2.3.4"; port = pos 1 }
    ∷ record { peer_id = []; ip = codes "::1"; port = pos 2 }
    ∷ record { peer_id = []; ip = codes "1.2.3.4"; port = pos 1 }
    ∷ record { peer_id = []; ip = codes "9"; port = pos 3 }
    ∷ []

add_nodes_lem_example :
    IsDistinct (add_nodes (codes "9:3") known [] [])
    × ((a : Bytes)
        → is_listed a (add_nodes (codes "9:3") known [] [])
          ≡ (not (equal a (codes "9:3")) && is_listed a (addresses known)))
add_nodes_lem_example = add_nodes_lem (codes "9:3") known

add_nodes_run : add_nodes (codes "9:3") known [] [] ≡ codes "1.2.3.4:1" ∷ codes "[::1]:2" ∷ []
unfolding add_nodes format_addr text_of decimal decimal_onto get put bytes_discrete equal
    pixtorrent.Prelude.ℕ_discrete
add_nodes_run = refl

start_lem_example :
    let bootstrap = answered (codes "9:3" ∷ []) in
    ((nodes : List Bytes)
      → Life.start true (answered nodes) events node ≡ crashed_behind (loop events node))
    × (((done : Result Rate) × (Life.start true bootstrap events node ≡ crashed_behind done))
        ↔ ((true ≡ true) × ((nodes : List Bytes) × (bootstrap ≡ answered nodes))))
    × ((done : Result Rate) → Life.start true bootstrap events node ≢ returned done)
start_lem_example = start_lem true (answered (codes "9:3" ∷ [])) events node
