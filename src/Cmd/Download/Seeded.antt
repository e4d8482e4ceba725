-- ===== src/Cmd/Download/Seeded.antt =====
-- From the command line of a seeder to the file of a downloader: cmd/seed.go prints a command,
-- cmd/download.go runs it, and torrent_server/ reacts to what arrives.
use pixtorrent.Prelude.{Option, none, some}
use pixtorrent.TorrentServer.{TorrentServer}
use pixtorrent.TorrentServer.Bootstrap.{Draws, new_torrent_server}
use pixtorrent.Cmd.Start.{Start, started, refused, panicked}

-- The server of a command that gets so far.
unfoldable pub server_of : {Rate : Type 0} → Draws → Start → Option (TorrentServer Rate)
unfolding new_torrent_server
server_of d (started opts pieces) = some (new_torrent_server d opts.info_hash pieces).0
server_of d (refused e) = none
server_of d panicked = none
