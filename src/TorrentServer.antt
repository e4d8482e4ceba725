-- ===== src/TorrentServer.antt =====
-- torrent_server/: the node's reaction to what arrives. One RPC, tick or new connection is one
-- step, since the program handles RPCs and ticks in one goroutine and guards the swarm by locks.
-- The steps of the whole node are in Events; printing is not modelled, and what leaves the node
-- other than by a peer's outbox is a list of effects.
pub mod Reconstruct
pub mod Bootstrap
pub mod Life
pub mod Stats
pub mod Membership
pub mod Events
pub mod Requests
pub mod Choked
pub mod Calls
pub mod Integrity
use pixtorrent.Prelude.{
  ℕ, zero, suc, ◌+◌, ◌*◌, Bool, true, false, Option, none, some, List, [], ◌∷◌, ◌++◌, map, Bytes,
  bytes_discrete, codes, not, ◌&&◌, length, take, drop, ltb, leb, ◌==◌, if◌then◌else◌, is_some,
  put_u32, u32,
}
use pixtorrent.Prelude.Int.{ℤ, pos}
use pixtorrent.Prelude.Maps.{Map, get, put, delete}
use pixtorrent.P2p.Pieces.{
  PieceManager, verify_piece, get_piece, add_piece, bitfield, all_pieces_received, has_piece,
}
use pixtorrent.P2p.Swarm.Rarest.{get_rarest_missing_pieces}
use pixtorrent.P2p.Swarm.Unchoke.{RoundInput, UnchokeAction, run_unchoke_algorithm}
use pixtorrent.P2p.Swarm.{
  Swarm, lookup, store, remove, is_choking, record_upload, record_download, mark_interested,
  mark_choking, update_peer_bitfield, set_peer_has_piece, missing_pieces_count, msg_interested,
  msg_not_interested, msg_request_piece, msg_send_piece, msg_have, msg_bitfield, msg_unchoke,
  msg_choke,
}
use pixtorrent.P2p.Wire.{TcpPeer, SendError, send}
use pixtorrent.TorrentServer.Reconstruct.{reconstruct_data}

pub record TorrentServer (Rate : Type 0) : Type 0 where
  pub swarm : Swarm Rate
  pub pending_requests : Map Bytes (List ℕ)

-- What a step asks of the outside: goroutines that talk to the tracker, and the file that holds
-- the download.
pub data Effect : Type 0 where
  update_tracker_stats : Effect
  announce : Bytes → Effect
  write_file : Bytes → Effect

-- What a step takes from outside: SHA-1, the coins of the piece order, and whether the directory
-- and the file can be made.
pub record Outside : Type 0 where
  pub sha1 : Bytes → Bytes
  pub coin : ℕ → Bool
  pub mkdir_ok : Bool
  pub write_ok : Bool

abbrev pub completed : Bytes
completed = codes "completed"

abbrev pub request_message : ℕ → Bytes
request_message i = msg_request_piece ∷ put_u32 i

abbrev pub piece_message : ℕ → Bytes → Bytes
piece_message i piece = msg_send_piece ∷ (put_u32 i ++ piece)

abbrev pub have_message : ℕ → Bytes
have_message i = msg_have ∷ put_u32 i

abbrev pub Result : Type 0 → Type 0
Result Rate = TorrentServer Rate × List Effect

module _ {Rate : Type 0} where
  abbrev pub with_swarm : TorrentServer Rate → Swarm Rate → TorrentServer Rate
  with_swarm ts s = record ts { swarm = s }

  -- `GetPeer` and `Send` on the object that it gives: the new swarm, and whether both succeed.
  unfoldable pub send_to : Bytes → Bytes → Swarm Rate → Swarm Rate × Bool
  send_to id message s = elim (lookup id s.peers) [
    | none ↦ (s, false)
    | some p ↦
        let sent = send p message in
        (record s { peers = store id sent.0 s.peers }, not (is_some sent.1))
  ]

  -- The loop that sends one message to every peer and passes over errors.
  unfoldable pub broadcast : Bytes → Swarm Rate → Swarm Rate
  broadcast message s = record s { peers = map (λ e. (e.0, (send e.1 message).0)) s.peers }

  -- `requestPiece`, which asks every peer; nothing calls it.
  unfoldable pub request_piece : ℕ → TorrentServer Rate → TorrentServer Rate
  unfolding broadcast
  request_piece i ts = with_swarm ts (broadcast (request_message i) ts.swarm)

  unfoldable pub handle_bitfield_announcement :
      Outside → Bytes → Bytes → TorrentServer Rate → TorrentServer Rate
  unfolding send_to
  handle_bitfield_announcement env id field ts =
      let s = update_peer_bitfield id field ts.swarm in
      let rarest = get_rarest_missing_pieces env.coin s field in
      let sent = send_to id (msg_interested ∷ []) s in
      if ltb 0 (length rarest)
      then if sent.1
        then record ts {
          swarm = sent.0;
          pending_requests = put bytes_discrete id rarest ts.pending_requests;
        }
        else with_swarm ts sent.0
      else with_swarm ts s

  unfoldable pub handle_piece_request : Bytes → ℕ → TorrentServer Rate → TorrentServer Rate
  unfolding send_to
  handle_piece_request id i ts =
      if is_choking id ts.swarm then ts else elim (get_piece ts.swarm.pieces (pos i)) [
        | none ↦ ts
        | some piece ↦
            let sent = send_to id (piece_message i piece) ts.swarm in
            with_swarm ts (if sent.1 then record_upload id (pos (length piece)) sent.0 else sent.0)
      ]

  -- The end of `handlePiece`, behind the check: `store_piece` drops the error of `AddPiece`.
  unfoldable pub store_piece : ℕ → Bytes → Swarm Rate → Swarm Rate
  store_piece i piece s = record s { pieces = (add_piece s.pieces (pos i) piece).0 }

  unfoldable pub finish_piece : Outside → TorrentServer Rate → Result Rate
  unfolding broadcast
  finish_piece env ts =
      let s = ts.swarm in
      if all_pieces_received s.pieces
      then (
        ts,
        update_tracker_stats ∷ elim (reconstruct_data s.pieces) [
          | none ↦ []
          | some file ↦
              if env.mkdir_ok && env.write_ok then write_file file ∷ announce completed ∷ [] else []
        ],
      )
      else (
        with_swarm ts (broadcast (msg_bitfield ∷ bitfield s.pieces) s),
        update_tracker_stats ∷ [],
      )

  unfoldable pub handle_piece : Outside → Bytes → Bytes → TorrentServer Rate → Result Rate
  unfolding store_piece broadcast finish_piece
  handle_piece env id body ts =
      if ltb (length body) 4
      then (ts, [])
      else let i = u32 (take 4 body) in
        let piece = drop 4 body in
        let credited = record_download id (pos (length piece)) ts.swarm in
        let stored = store_piece i piece credited in
        if not (verify_piece env.sha1 ts.swarm.pieces (pos i) piece)
        then (ts, [])
        else finish_piece env (with_swarm ts (broadcast (have_message i) stored))

  -- The loop of `sendPendingRequests`, which passes over errors.
  unfoldable pub request_pieces : Bytes → List ℕ → Swarm Rate → Swarm Rate
  unfolding send_to
  request_pieces id [] s = s
  request_pieces id (i ∷ is) s = request_pieces id is (send_to id (request_message i) s).0

  unfoldable pub send_pending_requests : Bytes → TorrentServer Rate → TorrentServer Rate
  unfolding request_pieces
  send_pending_requests id ts = elim (get bytes_discrete id ts.pending_requests) [
    | none ↦ ts
    | some pieces ↦ record ts {
      swarm = request_pieces id pieces ts.swarm;
      pending_requests = delete bytes_discrete id ts.pending_requests;
    }
  ]

  -- The switch on the message type.
  unfoldable pub dispatch : Outside → Bytes → ℕ → Bytes → TorrentServer Rate → Result Rate
  dispatch env id kind body ts =
      if kind == msg_interested
      then (with_swarm ts (mark_interested id true ts.swarm), [])
      else if kind == msg_not_interested
      then (with_swarm ts (mark_interested id false ts.swarm), [])
      else if kind == msg_request_piece
      then if ltb (length body) 4
        then (ts, [])
        else (handle_piece_request id (u32 (take 4 body)) ts, [])
      else if kind == msg_send_piece
      then handle_piece env id body ts
      else if kind == msg_have
      then if ltb (length body) 4
        then (ts, [])
        else (with_swarm ts (set_peer_has_piece id (u32 (take 4 body)) ts.swarm), [])
      else if kind == msg_bitfield
      then (handle_bitfield_announcement env id body ts, [])
      else if kind == msg_choke
      then (with_swarm ts (mark_choking id true ts.swarm), [])
      else if kind == msg_unchoke
      then (send_pending_requests id (with_swarm ts (mark_choking id false ts.swarm)), [])
      else (ts, [])

  -- One RPC; an empty payload is a keep-alive.
  unfoldable pub handle_rpc : Outside → Bytes → Bytes → TorrentServer Rate → Result Rate
  unfolding dispatch
  handle_rpc env id [] ts = (ts, [])
  handle_rpc env id (kind ∷ body) ts = dispatch env id kind body ts

  -- The loop of `runUnchokeRound` over the actions.
  unfoldable pub send_actions : List UnchokeAction → Swarm Rate → Swarm Rate
  unfolding send_to
  send_actions [] s = s
  send_actions (a ∷ actions) s =
      send_actions actions
        (send_to a.peer_id ((if a.unchoke then msg_unchoke else msg_choke) ∷ []) s).0

  unfoldable pub run_unchoke_round : RoundInput Rate → TorrentServer Rate → TorrentServer Rate
  unfolding send_actions
  run_unchoke_round env ts =
      let round = run_unchoke_algorithm env ts.swarm in with_swarm ts (send_actions round.1 round.0)
