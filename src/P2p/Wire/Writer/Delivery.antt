-- ===== src/P2p/Wire/Writer/Delivery.antt =====
-- From `Send` of p2p/tcp_transport.go to the read loop of the other side: what the writer puts on the
-- network, and that it comes to the messages.
use pixtorrent.Prelude.{
  ℕ, ◌+◌, ◌≤◌, ◌<◌, Bool, false, none, List, [], ◌∷◌, ◌++◌, map, Bytes, length, take, drop, ◌≡◌,
  refl, sym, ap, ◌∙◌, arith, All, append_assoc, append-nil, length-append, length-drop,
  take-append-drop,
}
use pixtorrent.P2p.Wire.{TcpPeer, frame, send, read_loop, outbox_size}
use pixtorrent.P2p.Wire.Frames.{stream_of, delivered, IsSendable, read_loop-stream_of}
use pixtorrent.P2p.Wire.Writer.{
  Write, wrote, broken, Progress, finished, ended, waiting, write_frame, and_on, write_loop,
}

abbrev pub concat : List Bytes → Bytes
concat [] = []
concat (f ∷ fs) = f ++ concat fs

write_frame-prefix :
    (ws : List Write) (buf : Bytes) → (left : Bytes) × ((write_frame ws buf).0 ++ left ≡ buf)
unfolding write_frame
write_frame-prefix [] [] = ([], refl)
write_frame-prefix (w ∷ ws) [] = ([], refl)
write_frame-prefix [] (b ∷ buf) = (b ∷ buf, refl)
write_frame-prefix (broken n ∷ ws) (b ∷ buf) = (drop n (b ∷ buf), take-append-drop n (b ∷ buf))
write_frame-prefix (wrote n ∷ ws) (b ∷ buf) =
    let (left, e) = write_frame-prefix ws (drop n (b ∷ buf)) in
    (
      left,
      append_assoc (take n (b ∷ buf)) _ left
          ∙ ap (λ t. take n (b ∷ buf) ++ t) e
          ∙ take-append-drop n (b ∷ buf),
    )

-- A frame is done exactly if all of it was sent.
whole_frame :
    (ws ws' : List Write) (buf : Bytes)
    → (write_frame ws buf).1 ≡ finished ws'
    → (write_frame ws buf).0 ≡ buf
unfolding write_frame
whole_frame [] ws' [] e = refl
whole_frame (w ∷ ws) ws' [] e = refl
whole_frame [] ws' (b ∷ buf) e = cc
whole_frame (broken n ∷ ws) ws' (b ∷ buf) e = cc
whole_frame (wrote n ∷ ws) ws' (b ∷ buf) e =
    ap (λ t. take n (b ∷ buf) ++ t) (whole_frame ws ws' (drop n (b ∷ buf)) e)
    ∙ take-append-drop n (b ∷ buf)

and_on-prefix :
    (r : Bytes × Progress) (next : List Write → Bytes × Progress) (buf rest : Bytes)
    → ((left : Bytes) × (r.0 ++ left ≡ buf))
    → ((ws : List Write) → r.1 ≡ finished ws → r.0 ≡ buf)
    → ((ws : List Write) → (left : Bytes) × ((next ws).0 ++ left ≡ rest))
    → (left : Bytes) × ((and_on r next).0 ++ left ≡ buf ++ rest)
and_on-prefix (sent, finished ws) next buf rest (some_left, e) whole later =
    let (left, k) = later ws in
    (
      left,
      append_assoc sent (next ws).0 left
          ∙ ap (λ t. sent ++ t) k
          ∙ ap (λ t. t ++ rest) (whole ws refl),
    )
and_on-prefix (sent, ended) next buf rest (left, e) whole later =
    (left ++ rest, sym (append_assoc sent left rest) ∙ ap (λ t. t ++ rest) e)
and_on-prefix (sent, waiting bytes) next buf rest (left, e) whole later =
    (left ++ rest, sym (append_assoc sent left rest) ∙ ap (λ t. t ++ rest) e)

-- What is sent is the beginning of the frames of the outbox, in their order, whatever the writes do.
pub write_loop-prefix :
    (outbox : List Bytes) (ws : List Write)
    → (left : Bytes) × ((write_loop ws outbox).0 ++ left ≡ concat outbox)
unfolding write_loop
write_loop-prefix [] ws = ([], refl)
write_loop-prefix (buf ∷ outbox) ws =
    and_on-prefix (write_frame ws buf) (λ ws'. write_loop ws' outbox) buf (concat outbox)
      (write_frame-prefix ws buf) (λ ws' e. whole_frame ws ws' buf e)
      (λ ws'. write_loop-prefix outbox ws')

-- A write that takes a byte at least, without an error.
abbrev pub IsProgressing : Write → Type 0
IsProgressing (wrote n) = 0 < n
IsProgressing (broken n) = ⊥

-- A frame is written whole, with as many writes left as it does not need.
record Whole (ws : List Write) (buf : Bytes) (r : Bytes × Progress) : Type 0 where
  spare : List Write
  result : r ≡ (buf, finished spare)
  progressing : All IsProgressing spare
  enough : length ws ≤ length spare + length buf

write_frame-Whole :
    (ws : List Write) (buf : Bytes)
    → All IsProgressing ws
    → length buf ≤ length ws
    → Whole ws buf (write_frame ws buf)
unfolding write_frame
write_frame-Whole [] [] h k = record {
  spare = [];
  result = refl;
  progressing = tt;
  enough = omega arith;
}
write_frame-Whole (w ∷ ws) [] h k = record {
  spare = w ∷ ws;
  result = refl;
  progressing = h;
  enough = omega arith;
}
write_frame-Whole [] (b ∷ buf) h k = absurd (omega arith)
write_frame-Whole (broken n ∷ ws) (b ∷ buf) h k = absurd h.0
write_frame-Whole (wrote n ∷ ws) (b ∷ buf) h k =
    let shorter = length-drop n (b ∷ buf) in
    let w = write_frame-Whole ws (drop n (b ∷ buf)) h.1 (omega (arith, shorter, h.0)) in
    record {
      spare = w.spare;
      result = rw w.result (ap (λ t. (t, finished w.spare)) (take-append-drop n (b ∷ buf)));
      progressing = w.progressing;
      enough = omega (arith, w.enough, shorter, h.0);
    }

write_loop-whole :
    (outbox : List Bytes) (ws : List Write)
    → All IsProgressing ws
    → length (concat outbox) ≤ length ws
    → (write_loop ws outbox).0 ≡ concat outbox
unfolding write_loop
write_loop-whole [] ws h k = refl
write_loop-whole (buf ∷ outbox) ws h k =
    let long = length-append buf (concat outbox) in
    let w = write_frame-Whole ws buf h (omega (arith, long)) in
    rw w.result (
      ap (λ t. buf ++ t)
        (write_loop-whole outbox w.spare w.progressing (omega (arith, long, w.enough))))

-- The calls of `Send` with some messages, which drop the errors.
unfoldable pub send_all : TcpPeer → List Bytes → TcpPeer
unfolding send
send_all p [] = p
send_all p (m ∷ ms) = send_all (send p m).0 ms

send-queued :
    (p : TcpPeer) (m : Bytes)
    → p.closed ≡ false
    → length p.outbox < outbox_size
    → send p m ≡ (record p { outbox = p.outbox ++ frame m ∷ [] }, none)
unfolding send
send-queued p m h k = ground arith

send_all-outbox :
    (ms : List Bytes) (p : TcpPeer)
    → p.closed ≡ false
    → length p.outbox + length ms ≤ outbox_size
    → (send_all p ms).outbox ≡ p.outbox ++ map frame ms
unfolding send_all
send_all-outbox [] p h k = sym (append-nil p.outbox)
send_all-outbox (m ∷ ms) p h k =
    ap (λ s. (send_all s.0 ms).outbox) (send-queued p m h (omega arith))
    ∙ send_all-outbox ms (record p { outbox = p.outbox ++ frame m ∷ [] }) h
        (omega (arith, length-append p.outbox (frame m ∷ [])))
    ∙ append_assoc p.outbox (frame m ∷ []) (map frame ms)

concat-frames : (ms : List Bytes) → concat (map frame ms) ≡ stream_of ms
concat-frames [] = refl
concat-frames (m ∷ ms) = ap (λ t. frame m ++ t) (concat-frames ms)

-- Messages that are sent to a peer arrive on the other side: the read loop there hands exactly these
-- messages on, in their order, while its channel has room, however few bytes each write takes. The
-- peer is open with an empty outbox that has room for all of them, each write takes a byte at least
-- and there are as many as bytes, no message is longer than 16 MiB, and fuel for one frame more than
-- there are is given.
pub send-read_loop :
    (p : TcpPeer) (ms : List Bytes) (ws : List Write) (accepts : ℕ → Bool) (n fuel : ℕ)
    → p.closed ≡ false
    → p.outbox ≡ []
    → length ms ≤ outbox_size
    → All IsSendable ms
    → All IsProgressing ws
    → length (stream_of ms) ≤ length ws
    → length ms < fuel
    → read_loop fuel accepts n (write_loop ws (send_all p ms).outbox).0 ≡ delivered accepts n ms
send-read_loop p ms ws accepts n fuel up empty room small moving enough more =
    let queued : (send_all p ms).outbox ≡ map frame ms =
      send_all-outbox ms p up (omega (arith, ap length empty))
      ∙ ap (λ o. o ++ map frame ms) empty in
    rw queued (
      ap (read_loop fuel accepts n) (
        write_loop-whole (map frame ms) ws moving
          (omega (arith, ap length (concat-frames ms), enough))
        ∙ concat-frames ms)
      ∙ read_loop-stream_of ms accepts n fuel small more)
