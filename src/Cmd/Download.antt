-- ===== src/Cmd/Download.antt =====
-- cmd/download.go: the checks of the arguments and the piece manager of a download.
pub mod Command
pub mod Seeded
use pixtorrent.Prelude.{ℕ, Option, none, some, not, Bytes, length, ltb, ◌==◌, if◌then◌else◌}
use pixtorrent.P2p.Pieces.{PieceManager, new_piece_manager, new_piece_manager_with_hashes}
use pixtorrent.Cmd.Start.{
  ServerOpts, Start, started, refused, bad_length, bad_info_hash, bad_piece_hashes, decode_string,
  array_20, listen_on,
}

-- The flags of the command.
pub record DownloadFlags : Type 0 where
  pub hash : Bytes
  pub port : Bytes
  pub tracker : Bytes
  pub output : Bytes
  pub pieces : ℕ
  pub format : Bytes
  pub piece_hash : Bytes

-- The piece manager checks pieces only where there are hashes.
unfoldable pub choose_manager : ℕ → Bytes → PieceManager
unfolding new_piece_manager new_piece_manager_with_hashes
choose_manager n piece_hashes =
    if ltb 0 (length piece_hashes)
    then new_piece_manager_with_hashes n piece_hashes
    else new_piece_manager n

-- The hex of the piece hashes, where the flag is given.
unfoldable pub decode_piece_hashes : Bytes → Option Bytes
unfolding decode_string
decode_piece_hashes text = if not (length text == 0) then decode_string text else some text

unfoldable pub run_download : DownloadFlags → Start
unfolding decode_string decode_piece_hashes choose_manager
run_download flags =
    if not (length flags.hash == 40) then refused bad_length else elim (decode_string flags.hash) [
      | none ↦ refused bad_info_hash
      | some hash_bytes ↦ elim (decode_piece_hashes flags.piece_hash) [
        | none ↦ refused bad_piece_hashes
        | some piece_hashes ↦
            started
              (record {
                listen_addr = listen_on flags.port;
                info_hash = array_20 hash_bytes;
                tracker_url = flags.tracker;
                root_dir = flags.output;
                file_format = flags.format;
              })
              (choose_manager flags.pieces piece_hashes)
      ]
    ]
