-- ===== src/Cmd/Seed/Run.antt =====
-- `runSeed` of cmd/seed.go as a whole, and the two commands that it prints for other nodes.
use pixtorrent.Prelude.{
  ℕ, Option, none, some, [], ◌∷◌, Bytes, codes, length, drop, ◌==◌, if◌then◌else◌,
}
use pixtorrent.Cmd.Connect.{ConnectFlags}
use pixtorrent.Cmd.Download.{DownloadFlags}
use pixtorrent.Cmd.Seed.{num_pieces_of, piece_hashes_of, seed_pieces}
use pixtorrent.Cmd.Start.{Start, started, refused, panicked, no_file, listen_on}
use pixtorrent.Tracker.Hex.{encode_to_string}

-- The flags of the command.
pub record SeedFlags : Type 0 where
  pub file : Bytes
  pub port : Bytes
  pub tracker : Bytes
  pub piece_size : ℕ

-- `filepath.Ext`: the last dot behind the last slash, and what follows; `ext` is the best so far.
unfoldable pub ext_from : Bytes → Bytes → Bytes
ext_from ext [] = ext
ext_from ext (c ∷ path) =
    if c == 0x2f
    then ext_from [] path
    else if c == 0x2e
    then ext_from (c ∷ path) path
    else ext_from ext path

-- Without its dot.
unfoldable pub format_of : Bytes → Bytes
unfolding ext_from
format_of path = drop 1 (ext_from [] path)

-- `none` is a file that cannot be read; a piece size of 0 makes the division panic.
unfoldable pub run_seed : (Bytes → Bytes) → SeedFlags → Option Bytes → Start
unfolding seed_pieces format_of
run_seed sha1 flags none = refused no_file
run_seed sha1 flags (some file) =
    if flags.piece_size == 0
    then panicked
    else started
        (record {
          listen_addr = listen_on flags.port;
          info_hash = sha1 file;
          tracker_url = flags.tracker;
          root_dir = codes "downloads";
          file_format = format_of flags.file;
        })
        (seed_pieces sha1 flags.piece_size file)

-- What the printed download command sets, with the flags that it leaves at their defaults. Its words
-- are `-f`, the format, `-t`, the tracker, `-H` and the hashes, and an empty one is no word: without
-- a format `-f` takes `-t`, and the tracker is a word that nothing reads; without a tracker `-t` takes
-- `-H`, and nothing reads the hashes. The tracker is one word that does not look like a flag, and the
-- file has a piece.
unfoldable pub download_command : (Bytes → Bytes) → SeedFlags → Bytes → DownloadFlags
unfolding encode_to_string num_pieces_of piece_hashes_of format_of
download_command sha1 flags file =
    let format = format_of flags.file in
    let hashes = encode_to_string (piece_hashes_of sha1 flags.piece_size file) in
    let no_format = length format == 0 in
    let no_tracker = length flags.tracker == 0 in
    record {
      hash = encode_to_string (sha1 file);
      port = codes "0";
      tracker =
          if no_format
          then codes "http://localhost:8080"
          else if no_tracker
          then codes "-H"
          else flags.tracker;
      output = codes "downloads";
      pieces = num_pieces_of (length file) flags.piece_size;
      format = if no_format then codes "-t" else format;
      piece_hash = if no_format then hashes else if no_tracker then [] else hashes;
    }

-- The arguments of the printed connect command, where there is a tracker.
unfoldable pub connect_command : (Bytes → Bytes) → SeedFlags → Bytes → ConnectFlags
unfolding encode_to_string num_pieces_of
connect_command sha1 flags file = record {
  hash = encode_to_string (sha1 file);
  port = codes "0";
  tracker = flags.tracker;
  pieces = num_pieces_of (length file) flags.piece_size;
}
