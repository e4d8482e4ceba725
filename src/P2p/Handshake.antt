-- ===== src/P2p/Handshake.antt =====
-- p2p/handshake.go: the handshake that opens a connection. Reading `resp[a:b]` past the end of
-- the 68 bytes is Go's run-time panic, a result of its own here.
pub mod Agreement
use pixtorrent.Prelude.{
  ℕ, suc, ◌+◌, Bool, true, false, List, [], ◌∷◌, ◌++◌, Bytes, length, take, drop, replicate, slice,
  copy_at, set, get_or, codes, ltb, not, if◌then◌else◌,
}
use pixtorrent.P2p.Pieces.{equal}

abbrev pub protocol : Bytes
protocol = codes "piXTorrent protocol"

unfoldable pub build_handshake : Bytes → Bytes → Bytes
build_handshake info_hash local_id =
    let buf0 = set (replicate (49 + length protocol) 0) 0 (length protocol) in
    let buf1 = copy_at 1 protocol buf0 in
    let buf2 = copy_at (1 + length protocol + 8) info_hash buf1 in
    copy_at (1 + length protocol + 8 + 20) local_id buf2

pub data Outcome : Type 0 where
  accepted : Bytes → Outcome
  unexpected_protocol infohash_mismatch connected_to_self : Outcome
  read_error write_error : Outcome
  panic : Outcome

-- The checks on the answer, from "validate protocol" on.
unfoldable pub validate : Bytes → Bytes → Bytes → Outcome
validate info_hash local_id resp =
    let pstrlen = get_or resp 0 0 in
    if ltb (length resp) (1 + pstrlen)
    then panic
    else if not (equal (slice 1 (1 + pstrlen) resp) protocol)
    then unexpected_protocol
    else if ltb (length resp) (1 + pstrlen + 8 + 20)
    then panic
    else if not (equal (slice (1 + pstrlen + 8) (1 + pstrlen + 8 + 20) resp) info_hash)
    then infohash_mismatch
    else if equal (drop (1 + pstrlen + 8 + 20) resp) local_id
    then connected_to_self
    else accepted (drop (1 + pstrlen + 8 + 20) resp)

-- What a handshake did: its outcome, what it wrote, and what of the stream it left.
pub record Exchange : Type 0 where
  pub outcome : Outcome
  pub written : Bytes
  pub unread : Bytes

-- `DefaultHandshakeFunc` over a connection whose writes succeed or not and whose peer sends
-- `stream`. The dialling side writes first, the accepting side reads first.
unfoldable pub default_handshake : Bool → Bytes → Bytes → Bool → Bytes → Exchange
default_handshake write_ok info_hash local_id outbound stream =
    let hs = build_handshake info_hash local_id in
    let n = length hs in
    let done : Exchange = record {
      outcome = validate info_hash local_id (take n stream);
      written = hs;
      unread = drop n stream;
    } in
    let short = ltb (length stream) n in
    if outbound
    then if not write_ok
      then record { outcome = write_error; written = []; unread = stream }
      else if short
      then record { outcome = read_error; written = hs; unread = [] }
      else done
    else if short
    then record { outcome = read_error; written = []; unread = [] }
    else if not write_ok
    then record { outcome = write_error; written = []; unread = drop n stream }
    else done
