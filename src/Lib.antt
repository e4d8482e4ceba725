-- ===== src/Lib.antt =====
-- PixTorrent: a peer-to-peer file sharing program in Go. A seeder (cmd/seed.go) cuts a file into
-- pieces and hashes them; a node (torrent_server/) holds a table of pieces, talks to the peers of
-- its swarm over framed TCP messages (p2p/), and stores what passes the hash check; a tracker
-- (tracker/) tells nodes of each other.
--
-- Which file models which part, with the program's names in the spelling of this library:
--   P2p/Pieces       p2p/piece_manager.go: `PieceManager` with `add_piece`, `verify_piece`,
--                    `bitfield`, `missing_pieces`, `all_pieces_received`; a Go map is an
--                    association list without repeated keys (Prelude/Maps).
--   P2p/Wire         p2p/tcp_transport.go and p2p/encoding.go: the outbox of a peer, `send`,
--                    `close`, `frame`, `decode`, `read_loop`; Writer is `write_loop`.
--   P2p/Handshake    p2p/handshake.go: `build_handshake`, `validate`, `default_handshake`.
--   P2p/Transport    `handleConn` of p2p/tcp_transport.go in its three parts: `open_conn`, the read
--                    loop, and the deferred `close_conn`.
--   P2p/PeerState    p2p/peer_state.go: counters, flags and rates of one connection.
--   P2p/Swarm        p2p/swarm.go: the tables of peers, states and bitfields; Unchoke is
--                    `RunUnchokeAlgorithm`, Rarest is `GetRarestMissingPieces`.
--   TorrentServer    torrent_server/handler.go and the main loop of torrent_server/server.go:
--                    `handle_rpc` with one function for each handler, and `loop` over a list of
--                    events (RPCs, ticks, connections that begin, write or end) in any order.
--                    Bootstrap is what comes before the loop (`new_torrent_server`,
--                    `bootstrap_network`), Stats what the node tells the tracker, Life `start` and
--                    `stop`, Choked what an unchoke round leaves to the peers that it passes over.
--   Cmd              cmd/seed.go (Seed), cmd/download.go (Download) and cmd/connect.go (Connect) up to
--                    the server that they start (Start); Ui is the layout that cmd/ui.go computes.
--   Client           client/tracker_client.go: `announce` and `scrape` over a network that maps a URL
--                    to a reply; Announce and Scrape put it together with the tracker server.
--   Meta/Bencode     meta/bencode.go: `decode` with `parse_int`, `parse_string`, `parse_list` and
--                    `parse_dict`; Encode is the format, which the program only writes in part.
--   Meta/Torrent     meta/torrent.go: `parse_torrent`, `parse_info_dict`,
--                    `encode_bencode_info_dict`, `info_hash`.
--   Tracker/Memory   tracker/memory_storage.go: one function for each method; its keys are Tracker/Hex.
--   Tracker/Redis    tracker/redis_storage.go: every method as the commands that it gives the client
--                    of Redis, a parameter; Commands says what Redis answers to them.
--   Tracker/Query    what tracker/server.go reads from a request: `decode_info_hash`, `parse_int`.
--   Tracker/Server   `handle_announce` and `handle_scrape` of tracker/server.go over a store that
--                    fills the `Storage` interface of tracker/tracker.go; Reply is what they encode, and
--                    Mux gives a request to the handler of its path (`serve_http`).
--   Tests            the theorems at concrete inputs.
--
-- State is passed explicitly. Every method of the program runs under one lock from its first line
-- to its last, so a method is one step; a node handles its events in one goroutine, so a handler
-- is one step too. A peer object that the program shares by pointer stands in the swarm's table
-- under its id. Numbers are natural numbers; an int64 counter wraps (`wrap64`), a uint32 on the
-- wire is written out as four bytes. What Go leaves open is an argument: the order of a range over
-- a map is the order of a list, random draws and coins are functions or numbers, and float64 rates
-- are a type with the two operations used. SHA-1 is a function on byte strings; theorems that need
-- more name it (digests of 20 bytes, no second preimage of the pieces of one file).
--
-- Code that is not part of the repository is a parameter. The client of Redis is a record of calls,
-- with what its data holds behind each command as named hypotheses; the bencode package by which the
-- tracker writes is a function on values, with the hypothesis that it writes the format. Between
-- client and tracker, `url.Values` is kept as its keys and values: `Query` undoes `Encode`, so what
-- the client sets is what the server reads.
--
-- Loops over a count are recursion on the number of rounds left. Five loops run on fuel. In the read
-- loop of a connection it bounds the number of frames, and one more than the frames of the stream is
-- enough; in the bencode decoder it bounds calls and rounds, and `fuel_for` gives two for each byte
-- of the input and one more; in `format_bytes` seven rounds are enough for an int64. The two loops
-- over the cursor of Redis (`scan_keys`, `expel_from`) take the number of batches that they may ask
-- for, since nothing in the program bounds it; `visited` tells whether the cursor of a cleanup comes
-- back to 0 in that many.
--
-- Not modelled: printing, flags, signals, sockets, timers and files; the expiry of keys in Redis;
-- the tracker's HTTP server beyond its two routes (paths that it redirects, connections);
-- cmd/tracker.go and the other entry points, which only choose a store and start a server.
pub mod Prelude
pub mod P2p
pub mod TorrentServer
pub mod Client
pub mod Cmd
pub mod Meta
pub mod Tracker
pub mod Tests
