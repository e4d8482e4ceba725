-- ===== src/Cmd/Start.antt =====
-- What cmd/seed.go, cmd/download.go and cmd/connect.go start: a server with its options and pieces,
-- unless a check of the arguments fails. Flags come parsed, printing and signals are left out, and
-- a number of pieces below 0 is outside the model.
use pixtorrent.Prelude.{
  Option, none, some, ◌&&◌, [], ◌∷◌, ◌++◌, ◌+◌, ◌*◌, Bytes, codes, take, replicate, copy_at,
  if◌then◌else◌,
}
use pixtorrent.P2p.Pieces.{PieceManager}
use pixtorrent.Tracker.Query.{is_hex, unhex, cons_some}

-- The options of the server and of its transport, as far as they are not constant.
pub record ServerOpts : Type 0 where
  pub listen_addr : Bytes
  pub info_hash : Bytes
  pub tracker_url : Bytes
  pub root_dir : Bytes
  pub file_format : Bytes

pub data StartError : Type 0 where
  no_file bad_length bad_info_hash bad_piece_hashes : StartError

pub data Start : Type 0 where
  started : ServerOpts → PieceManager → Start
  refused : StartError → Start
  panicked : Start

-- `hex.DecodeString`
unfoldable pub decode_string : Bytes → Option Bytes
decode_string [] = some []
decode_string (a ∷ []) = none
decode_string (a ∷ b ∷ s) =
    let rest = decode_string s in
    if is_hex a && is_hex b then cons_some (unhex a * 16 + unhex b) rest else none

-- `copy` into an array of twenty bytes.
abbrev pub array_20 : Bytes → Bytes
array_20 bytes = copy_at 0 (take 20 bytes) (replicate 20 0)

-- `0.0.0.0:%s`
abbrev pub listen_on : Bytes → Bytes
listen_on port = codes "0.0.0.0:" ++ port
