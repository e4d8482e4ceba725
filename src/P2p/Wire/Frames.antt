-- ===== src/P2p/Wire/Frames.antt =====
-- What is sent is what is decoded.
use pixtorrent.Prelude.{
  Bool, Option, ℕ, zero, suc, ◌%◌, ◌^◌, ◌≤◌, ◌<◌, some, List, [], ◌∷◌, ◌++◌, Bytes, length, leb,
  if◌then◌else◌, put_u32, u32, u32-put_u32, length-put_u32, ◌≡◌, refl, sym, ap, ap₂, ◌∙◌,
  length-append, take-append, drop-append, append_assoc, append-nil, arith, All, le→ltb_false,
  Bool-cases, inl, inr,
}
use pixtorrent.P2p.Wire.{
  frame, max_message_length, message, eof, too_long, full, read_full, decode, decode_payload,
  read_loop, Stop, failed, channel_full,
}

read_full-append :
    (n : ℕ) (xs rest : Bytes) → length xs ≡ suc n → read_full (suc n) (xs ++ rest) ≡ full xs rest
unfolding read_full
read_full-append n [] rest h = absurd (omega arith)
read_full-append n (x ∷ xs) rest h =
    rw (le→ltb_false (length (x ∷ (xs ++ rest))) (suc n) (omega (arith, length-append xs rest)))
      (ap₂ full (take-append (x ∷ xs) rest (suc n) h) (drop-append (x ∷ xs) rest (suc n) h))

decode-header :
    (n : ℕ) (stream : Bytes) → n < 2 ^ 32 → decode (put_u32 n ++ stream) ≡ decode_payload n stream
unfolding decode
decode-header n stream h =
    rw (read_full-append 3 (put_u32 n) stream (length-put_u32 n), decode)
      (ap (λ k. decode_payload k stream)
        (ap u32 (sym (append-nil (put_u32 n))) ∙ u32-put_u32 n [] h))

decode_payload-append :
    (msg rest : Bytes)
    → length msg ≤ max_message_length
    → decode_payload (length msg) (msg ++ rest) ≡ message msg rest
unfolding decode_payload
decode_payload-append [] rest h = refl
decode_payload-append (x ∷ xs) rest h =
    rw
      (
        le→ltb_false max_message_length (length (x ∷ xs)) h,
        read_full-append (length xs) (x ∷ xs) rest refl,
      )
      (ground arith)

decode_payload-length :
    (msg rest : Bytes)
    → decode_payload (length msg) (msg ++ rest)
      ≡ (if leb (length msg) max_message_length then message msg rest else too_long (length msg))
decode_payload-length msg rest = elim (Bool-cases (leb (length msg) max_message_length)) [
  | inl small ↦ rw small (decode_payload-append msg rest (ground arith))
  | inr large ↦ rw large (unfold decode_payload in ground arith)
]

-- A frame in front of any stream decodes to its message and leaves the stream, if the message
-- has at most 16 MiB; a longer one, up to the range of the length field, is refused by the
-- receiver though the sender accepts it.
pub decode-frame :
    (msg rest : Bytes)
    → length msg < 2 ^ 32
    → decode (frame msg ++ rest)
      ≡ (if leb (length msg) max_message_length then message msg rest else too_long (length msg))
unfolding frame
decode-frame msg rest h =
    let e : length msg % 2 ^ 32 ≡ length msg = omega arith in
    rw (e, append_assoc)
      (decode-header (length msg) (msg ++ rest) h ∙ decode_payload-length msg rest)

decode_small :
    (msg rest : Bytes)
    → length msg ≤ max_message_length
    → decode (frame msg ++ rest) ≡ message msg rest
decode_small msg rest h = decode-frame msg rest (omega arith) ∙ ground arith

abbrev pub stream_of : List Bytes → Bytes
stream_of [] = []
stream_of (m ∷ ms) = frame m ++ stream_of ms

abbrev pub IsSendable : Bytes → Type 0
IsSendable m = length m ≤ max_message_length

-- What the channel gets of messages that arrive whole: all of them up to the first for which it
-- has no room.
abbrev pub delivered : (ℕ → Bool) → ℕ → List Bytes → List Bytes × Option Stop
delivered accepts n [] = ([], some (failed eof))
delivered accepts n (m ∷ ms) =
    let more = delivered accepts (suc n) ms in
    if accepts n then (m ∷ more.0, more.1) else ([], some channel_full)

-- Messages that are sent one behind the other are read in the same order, each whole, up to the
-- first that finds the channel full; if none does, the end of the stream is seen behind the last.
-- No message is longer than 16 MiB, and fuel for one frame more than there are is enough.
pub read_loop-stream_of :
    (ms : List Bytes) (accepts : ℕ → Bool) (n fuel : ℕ)
    → All IsSendable ms
    → length ms < fuel
    → read_loop fuel accepts n (stream_of ms) ≡ delivered accepts n ms
unfolding read_loop
read_loop-stream_of [] accepts n zero h k = absurd (omega arith)
read_loop-stream_of [] accepts n (suc fuel) h k = unfold decode read_full in refl
read_loop-stream_of (m ∷ ms) accepts n zero h k = absurd (omega arith)
read_loop-stream_of (m ∷ ms) accepts n (suc fuel) h k =
    rw (decode_small m (stream_of ms) h.0, read_loop)
      (rw (read_loop-stream_of ms accepts (suc n) fuel h.1 (omega arith)))
