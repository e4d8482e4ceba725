-- ===== src/Cmd/Download/Command.antt =====
-- The commands that cmd/seed.go prints, run by cmd/download.go and cmd/connect.go.
use pixtorrent.Prelude.{
  ℕ, zero, suc, ◌*◌, ◌/◌, ◌%◌, ◌≤◌, ◌<◌, true, false, some, [], ◌∷◌, Bytes, codes, length, copy_at,
  ◌==◌, ◌≡◌, refl, ap, arith, All, All-append, IsByte, Bool, if◌then◌else◌, take_of_length,
  append-nil, lt→ltb,
}
use pixtorrent.P2p.Pieces.{new_piece_manager, new_piece_manager_with_hashes}
use pixtorrent.Tracker.Hex.{hex_digit, encode_to_string, length-encode_to_string}
use pixtorrent.Tracker.Query.{is_hex, unhex}
use pixtorrent.Cmd.Connect.{run_connect}
use pixtorrent.Cmd.Download.{choose_manager, decode_piece_hashes, run_download}
use pixtorrent.Cmd.Seed.{num_pieces_of, piece_at, piece_hashes_of}
use pixtorrent.Cmd.Seed.Hashes.{digests, piece_hashes_of-digests, piece_hashes_of_lem}
use pixtorrent.Cmd.Seed.Pieces.{covered}
use pixtorrent.Cmd.Seed.Run.{SeedFlags, format_of, download_command, connect_command}
use pixtorrent.Cmd.Start.{ServerOpts, Start, started, decode_string, array_20, listen_on}

is_hex-hex_digit : (n : ℕ) → n < 16 → is_hex (hex_digit n) ≡ true
is_hex-hex_digit n h = ground arith

unhex-hex_digit : (n : ℕ) → n < 16 → unhex (hex_digit n) ≡ n
unhex-hex_digit n h = ground arith

-- A byte string is read back from its hexadecimal text.
pub decode_string-encode_to_string :
    (s : Bytes) → All IsByte s → decode_string (encode_to_string s) ≡ some s
unfolding decode_string encode_to_string
decode_string-encode_to_string [] h = refl
decode_string-encode_to_string (b ∷ s) h =
    let low : b % 16 < 16 = omega arith in
    let high : b / 16 < 16 = omega (arith, h.0) in
    rw
      (
        is_hex-hex_digit (b / 16) high,
        is_hex-hex_digit (b % 16) low,
        decode_string-encode_to_string s h.1,
        unhex-hex_digit (b / 16) high,
        unhex-hex_digit (b % 16) low,
      )
      (ap (λ c. some (c ∷ s)) (omega arith))

array_20_lem : (bytes : Bytes) → length bytes ≡ 20 → array_20 bytes ≡ bytes
unfolding copy_at
array_20_lem bytes h = rw (take_of_length bytes 20 h, h) (append-nil bytes)

manager_chosen :
    (n : ℕ) (hashes : Bytes)
    → 0 < length hashes
    → choose_manager n hashes ≡ new_piece_manager_with_hashes n hashes
unfolding choose_manager
manager_chosen n hashes h = rw (lt→ltb _ _ h)

if_same : {A : Type 0} (x : A) (c : Bool) → (if c then x else x) ≡ x
if_same x true = refl
if_same x false = refl

-- The options of a node that runs a printed command.
abbrev pub other_opts : (Bytes → Bytes) → Bytes → Bytes → Bytes → ServerOpts
other_opts sha1 file tracker format = record {
  listen_addr = listen_on (codes "0");
  info_hash = sha1 file;
  tracker_url = tracker;
  root_dir = codes "downloads";
  file_format = format;
}

module _ (sha1 : Bytes → Bytes) (digest : (b : Bytes) → length (sha1 b) ≡ 20)
    (bytes : (b : Bytes) → All IsByte (sha1 b)) (flags : SeedFlags) (file : Bytes) where
  digests-IsByte : (n i : ℕ) → All IsByte (digests sha1 digest flags.piece_size file n i)
  unfolding digests
  digests-IsByte zero i = tt
  digests-IsByte (suc n) i =
      All-append IsByte (sha1 (piece_at flags.piece_size file i)) _ (bytes _)
        (digests-IsByte n (suc i))

  piece_hashes_of-IsByte : All IsByte (piece_hashes_of sha1 flags.piece_size file)
  piece_hashes_of-IsByte =
      rw (piece_hashes_of-digests sha1 digest flags.piece_size file)
        (digests-IsByte (num_pieces_of (length file) flags.piece_size) 0)

  some_pieces :
      0 < flags.piece_size → 0 < length file → 0 < num_pieces_of (length file) flags.piece_size
  some_pieces h k = go (num_pieces_of (length file) flags.piece_size) (covered (length file) _ h)
    where
      go : (n : ℕ) → length file ≤ n * flags.piece_size → 0 < n
      go zero e = absurd (omega arith)
      go (suc n) e = omega arith

  hash_length : (length (encode_to_string (sha1 file)) == 40) ≡ true
  hash_length = ground (arith, length-encode_to_string (sha1 file), digest file)

  piece_hash_read :
      let hashes = piece_hashes_of sha1 flags.piece_size file in
      0 < length hashes → decode_piece_hashes (encode_to_string hashes) ≡ some hashes
  unfolding decode_piece_hashes
  piece_hash_read h =
      let hashes = piece_hashes_of sha1 flags.piece_size file in
      let given : (length (encode_to_string hashes) == 0) ≡ false =
        ground (arith, length-encode_to_string hashes) in
      rw given (decode_string-encode_to_string hashes piece_hashes_of-IsByte)

  hashes_full :
      0 < flags.piece_size
      → 0 < length file
      → 0 < length (piece_hashes_of sha1 flags.piece_size file)
  hashes_full h k =
      omega (arith, (piece_hashes_of_lem sha1 digest flags.piece_size file).0, some_pieces h k)

-- The commands that a seeder prints: run as they are, `download` starts a node of the same torrent
-- with the seeder's number of pieces and hash list, and `connect` one that has the number of pieces
-- and no hash list. Both have the seeder's tracker, but `download` has the default one, and `-t` for a
-- format, where the file has no extension. The digests are twenty bytes, the piece size is positive,
-- and neither the tracker nor the file is empty.
pub run_download-download_command :
    (sha1 : Bytes → Bytes) (flags : SeedFlags) (file : Bytes)
    → ((b : Bytes) → length (sha1 b) ≡ 20)
    → ((b : Bytes) → All IsByte (sha1 b))
    → 0 < flags.piece_size
    → 0 < length flags.tracker
    → 0 < length file
    → let n = num_pieces_of (length file) flags.piece_size in
      let no_format = length (format_of flags.file) == 0 in
      (run_download (download_command sha1 flags file)
        ≡ started
            (other_opts sha1 file
              (if no_format then codes "http://localhost:8080" else flags.tracker)
              (if no_format then codes "-t" else format_of flags.file))
            (new_piece_manager_with_hashes n (piece_hashes_of sha1 flags.piece_size file)))
      × (run_connect (connect_command sha1 flags file)
          ≡ started (other_opts sha1 file flags.tracker (codes "bin")) (new_piece_manager n))
unfolding run_download run_connect download_command connect_command
run_download-download_command sha1 flags file digest bytes positive tracked full =
    let n = num_pieces_of (length file) flags.piece_size in
    let hashes = piece_hashes_of sha1 flags.piece_size file in
    let some_hashes = hashes_full sha1 digest bytes flags file positive full in
    let named = decode_string-encode_to_string (sha1 file) (bytes file) in
    let right = hash_length sha1 digest bytes flags file in
    let there : (length flags.tracker == 0) ≡ false = ground arith in
    let both : (c : Bool)
        → (if c then encode_to_string hashes else encode_to_string hashes)
          ≡ encode_to_string hashes =
      if_same (encode_to_string hashes) in
    let format = format_of flags.file in
    let answer : Bool → Start = λ no_tracker.
      started
        (other_opts sha1 file
          (if length format == 0
            then codes "http://localhost:8080"
            else if no_tracker
            then codes "-H"
            else flags.tracker)
          (if length format == 0 then codes "-t" else format))
        (new_piece_manager_with_hashes n hashes) in
    (
      rw
          (
            right,
            named,
            there,
            both (length format == 0),
            piece_hash_read sha1 digest bytes flags file some_hashes,
            manager_chosen n hashes some_hashes,
            array_20_lem (sha1 file) (digest file),
          )
          (ap answer there),
      rw (right, named, array_20_lem (sha1 file) (digest file), run_connect),
    )
