-- ===== src/P2p/Wire.antt =====
-- Message frames: `Send` and the peer of p2p/tcp_transport.go, and the decoder of
-- p2p/encoding.go. A stream is the list of the bytes that are still to come before its end.
pub mod Frames
pub mod Writer
use pixtorrent.Prelude.{
  ℕ, zero, suc, ◌+◌, ◌*◌, ◌%◌, ◌^◌, Bool, true, false, Option, none, some, List, [], ◌∷◌, ◌++◌,
  Bytes, length, take, drop, ltb, leb, ◌==◌, if◌then◌else◌, put_u32, u32,
}

-- `outbox` holds what `writeLoop` has not yet written; its channel has room for 2048 frames.
pub record TcpPeer : Type 0 where
  pub id : Bytes
  pub outbound : Bool
  pub outbox : List Bytes
  pub closed : Bool

abbrev pub outbox_size : ℕ
outbox_size = 2048

pub data SendError : Type 0 where
  peer_closed outbox_full : SendError

unfoldable pub new_tcp_peer : Bool → TcpPeer
new_tcp_peer outbound = record { id = []; outbound = outbound; outbox = []; closed = false }

-- The four bytes of the length, as a uint32, and the message.
unfoldable pub frame : Bytes → Bytes
frame message = put_u32 (length message % 2 ^ 32) ++ message

unfoldable pub send : TcpPeer → Bytes → TcpPeer × Option SendError
send p message =
    if p.closed
    then (p, some peer_closed)
    else if ltb (length p.outbox) outbox_size
    then (record p { outbox = p.outbox ++ frame message ∷ [] }, none)
    else (p, some outbox_full)

-- `Close` of the peer: a second call changes nothing.
unfoldable pub close : TcpPeer → TcpPeer
close p = if p.closed then p else record p { closed = true }

abbrev pub max_message_length : ℕ
max_message_length = 16 * 1024 * 1024

-- `message` has the payload and the rest of the stream; the others are the errors. An empty
-- payload is the nil payload.
pub data Decoded : Type 0 where
  message : Bytes → Bytes → Decoded
  eof unexpected_eof : Decoded
  too_long : ℕ → Decoded

-- `io.ReadFull` of `n` bytes, `n` positive: all, or an error that tells an empty stream apart.
pub data Full : Type 0 where
  full : Bytes → Bytes → Full
  nothing partly : Full

unfoldable pub read_full : ℕ → Bytes → Full
read_full n [] = nothing
read_full n (b ∷ stream) =
    if ltb (length (b ∷ stream)) n then partly else full (take n (b ∷ stream)) (drop n (b ∷ stream))

-- The second half of `Decode`, behind the length.
unfoldable pub decode_payload : ℕ → Bytes → Decoded
unfolding read_full
decode_payload len stream =
    if len == 0
    then message [] stream
    else if ltb max_message_length len
    then too_long len
    else elim (read_full len stream) [
      | full buf rest ↦ message buf rest
      | nothing ↦ eof
      | partly ↦ unexpected_eof
    ]

unfoldable pub decode : Bytes → Decoded
unfolding read_full
decode stream = elim (read_full 4 stream) [
  | full head rest ↦ decode_payload (u32 head) rest
  | nothing ↦ eof
  | partly ↦ unexpected_eof
]

-- What ends the read loop: an error of `Decode`, or a full channel.
pub data Stop : Type 0 where
  failed : Decoded → Stop
  channel_full : Stop

-- The read loop of `handleConn`: the payloads that went into the channel, in order, and what ends
-- it. `accepts n` says whether the channel has room when the n-th payload is there; fuel bounds
-- the number of frames.
unfoldable pub read_loop : ℕ → (ℕ → Bool) → ℕ → Bytes → List Bytes × Option Stop
read_loop zero accepts n stream = ([], none)
read_loop (suc fuel) accepts n stream = elim (decode stream) [
  | message payload rest ↦
      let more = read_loop fuel accepts (suc n) rest in
      if accepts n then (payload ∷ more.0, more.1) else ([], some channel_full)
  | eof ↦ ([], some (failed eof))
  | unexpected_eof ↦ ([], some (failed unexpected_eof))
  | too_long len ↦ ([], some (failed (too_long len)))
]
