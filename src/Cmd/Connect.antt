-- ===== src/Cmd/Connect.antt =====
-- cmd/connect.go: a node that joins a swarm with no hash list.
use pixtorrent.Prelude.{ℕ, none, some, not, Bytes, codes, length, ◌==◌, if◌then◌else◌}
use pixtorrent.P2p.Pieces.{new_piece_manager}
use pixtorrent.Cmd.Start.{
  Start, started, refused, bad_length, bad_info_hash, decode_string, array_20, listen_on,
}

pub record ConnectFlags : Type 0 where
  pub hash : Bytes
  pub port : Bytes
  pub tracker : Bytes
  pub pieces : ℕ

unfoldable pub run_connect : ConnectFlags → Start
unfolding decode_string new_piece_manager
run_connect flags =
    if not (length flags.hash == 40) then refused bad_length else elim (decode_string flags.hash) [
      | none ↦ refused bad_info_hash
      | some hash_bytes ↦
          started
            (record {
              listen_addr = listen_on flags.port;
              info_hash = array_20 hash_bytes;
              tracker_url = flags.tracker;
              root_dir = codes "downloads";
              file_format = codes "bin";
            })
            (new_piece_manager flags.pieces)
    ]
