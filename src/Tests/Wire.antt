-- ===== src/Tests/Wire.antt =====
-- p2p/handshake.go and p2p/encoding.go at small inputs.
use pixtorrent.Prelude.{
  replicate-All, is_some, bytes_discrete, ℕ, zero, suc, Bool, ℕ, zero, suc, ◌+◌, ◌≤◌, ◌<◌, Bool,
  true, false, not, Option, none, some, List, [], ◌∷◌, ◌++◌, Bytes, length, replicate, set, get_or,
  slice, leb, if◌then◌else◌, codes, ◌≡◌, ◌≢◌, ◌↔◌, refl, ap, arith, All, u32, take, drop,
}
use pixtorrent.P2p.PeerState.{new_peer_state}
use pixtorrent.P2p.Handshake.{build_handshake, validate, default_handshake, accepted, panic}
use pixtorrent.P2p.Handshake.Agreement.{
  layout, default_handshake_agrees, validate-panic_iff, validate_sound,
}
use pixtorrent.P2p.Pieces.{equal}
use pixtorrent.Prelude.Maps.{get}
use pixtorrent.P2p.Pieces.{new_piece_manager}
use pixtorrent.P2p.Swarm.{Swarm, new_swarm, on_peer, finish_join, lookup, already_exists}
use pixtorrent.P2p.Transport.{registered, dropped, not_joined, open_conn, set_id, close_conn}
use pixtorrent.P2p.Transport.Session.{
  greeted, open_conn_lem, close_conn-open_conn, open_conn-read_loop,
}
use pixtorrent.P2p.Wire.{
  new_tcp_peer, send, close, channel_full, frame, decode, message, too_long, read_loop,
  max_message_length,
}
use pixtorrent.P2p.Wire.Frames.{stream_of, delivered, decode-frame}
use pixtorrent.P2p.Wire.Writer.{wrote, write_loop}
use pixtorrent.P2p.Wire.Writer.Delivery.{IsProgressing, send_all, send-read_loop}

-- The info hash of a torrent, and the ids of two nodes.
abbrev pub torrent : Bytes
torrent = replicate 20 3

abbrev pub here : Bytes
here = replicate 20 4

abbrev pub there : Bytes
there = replicate 20 5

decode-frame_example :
    decode (frame (6 ∷ 0xe0 ∷ []) ++ 9 ∷ [])
    ≡ (if leb 2 max_message_length then message (6 ∷ 0xe0 ∷ []) (9 ∷ []) else too_long 2)
decode-frame_example = decode-frame (6 ∷ 0xe0 ∷ []) (9 ∷ []) (omega arith)

-- A channel with room for one RPC.
abbrev one_free : ℕ → Bool
one_free zero = true
one_free (suc n) = false

-- Two messages to an open peer, by writes that take three bytes each.
abbrev messages : List Bytes
messages = (7 ∷ []) ∷ (5 ∷ 0 ∷ 0 ∷ 0 ∷ 1 ∷ []) ∷ []

send-read_loop_example :
    read_loop 3 one_free 0
      (write_loop (replicate 14 (wrote 3)) (send_all (new_tcp_peer true) messages).outbox).0
    ≡ ((7 ∷ []) ∷ [], some channel_full)
unfolding new_tcp_peer frame pixtorrent.Prelude.put_u32
send-read_loop_example =
    send-read_loop (new_tcp_peer true) messages (replicate 14 (wrote 3)) one_free 0 3 refl refl
      (omega arith) (omega arith, (omega arith, tt))
      (replicate-All IsProgressing 14 (wrote 3) (omega arith)) (omega arith) (omega arith)

-- The run of the two sides' checks accepts.
validate_run : validate torrent here (build_handshake torrent there) ≡ accepted there
unfolding validate build_handshake equal pixtorrent.Prelude.copy_at
validate_run = refl

there_not_here : there ≢ here
there_not_here h = absurd (heads (get_or there 0 0) (get_or here 0 0) refl refl (ap_head h))
  where
    ap_head : there ≡ here → get_or there 0 0 ≡ get_or here 0 0
    ap_head h = ap (λ b. get_or b 0 0) h

    heads : (a b : ℕ) → a ≡ 5 → b ≡ 4 → a ≡ b → ⊥
    heads a b h k e = omega arith

default_handshake_agrees_example :
    default_handshake true torrent here false (build_handshake torrent there ++ 1 ∷ 2 ∷ [])
    ≡ record {
      outcome = accepted there;
      written = build_handshake torrent here;
      unread = 1 ∷ 2 ∷ [];
    }
default_handshake_agrees_example =
    default_handshake_agrees torrent here there refl refl refl there_not_here false (1 ∷ 2 ∷ [])

-- An answer that claims a protocol name of 200 bytes.
abbrev long_name : Bytes
long_name = set (replicate 68 0) 0 200

validate-panic_iff_example : (validate torrent here long_name ≡ panic) ↔ (68 ≤ get_or long_name 0 0)
validate-panic_iff_example = validate-panic_iff long_name refl torrent here

validate_sound_example :
    (build_handshake torrent there
      ≡ layout (slice 20 28 (build_handshake torrent there)) torrent there)
    × (there ≢ here)
unfolding build_handshake pixtorrent.Prelude.copy_at
validate_sound_example =
    validate_sound torrent here (build_handshake torrent there) there refl validate_run

-- A swarm that knows nobody, and the one after the other node has joined.
abbrev empty : Swarm ℕ
empty = new_swarm here torrent (new_piece_manager 3)

abbrev with_there : Swarm ℕ
with_there = (on_peer 0 7 (set_id there (new_tcp_peer false)) empty).0

open_conn_lem_example :
    (open_conn 0 torrent here
      (record {
        now = 7;
        write_ok = true;
        outbound = true;
        stream = build_handshake torrent there ++ 0 ∷ [];
      })
      empty).result
    ≡ (if is_some (lookup there empty.peers)
        then dropped
            (close (close (set_id there (new_tcp_peer true))))
            (not_joined (already_exists there))
        else registered (greeted true there empty) (0 ∷ []))
open_conn_lem_example =
    open_conn_lem 0 torrent here there refl refl refl there_not_here 7 true (0 ∷ []) empty

open_conn-read_loop_example :
    let opened =
      open_conn 0 torrent here
        (record {
          now = 7;
          write_ok = true;
          outbound = false;
          stream = build_handshake torrent there ++ stream_of ((6 ∷ 0xe0 ∷ []) ∷ []);
        })
        empty in
    (unread : Bytes) × (opened.result ≡ registered (greeted false there empty) unread)
    × (lookup there opened.swarm.peers ≡ some (greeted false there empty))
    × (lookup there opened.swarm.peer_states ≡ some (new_peer_state 0 7))
    × (read_loop 2 (λ n. true) 0 unread ≡ delivered (λ n. true) 0 ((6 ∷ 0xe0 ∷ []) ∷ []))
unfolding new_swarm get
open_conn-read_loop_example =
    open_conn-read_loop 0 torrent here there refl refl refl there_not_here 7 false
      ((6 ∷ 0xe0 ∷ []) ∷ []) empty (λ n. true) refl (omega arith, tt)

known_there : lookup there with_there.peers ≡ some (greeted false there empty)
unfolding get new_swarm on_peer finish_join set_id new_tcp_peer send pixtorrent.Prelude.Maps.put
    bytes_discrete pixtorrent.Prelude.ℕ_discrete
known_there = refl

close_conn-open_conn_example :
    (open_conn 0 torrent here
      (record {
        now = 9;
        write_ok = true;
        outbound = false;
        stream = build_handshake torrent there ++ [];
      })
      (close_conn there with_there)).result
    ≡ dropped
        (close (close (set_id there (new_tcp_peer false))))
        (not_joined (already_exists there))
close_conn-open_conn_example =
    close_conn-open_conn 0 torrent here there refl refl refl there_not_here 9 false [] with_there
      (greeted false there empty) known_there
