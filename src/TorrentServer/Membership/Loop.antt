-- ===== src/TorrentServer/Membership/Loop.antt =====
-- The tables of the swarm behind the handlers of torrent_server/: who is a member does not change by
-- what peers send, and the tables of p2p/swarm.go stay in step through the main loop.
use pixtorrent.Prelude.{
  ℕ, true, false, List, [], ◌∷◌, ◌≡◌, Bytes, bytes_discrete, length, take, drop, ltb, u32, refl,
  arith, Bool-cases, Option-cases, inl, inr,
}
use pixtorrent.Prelude.Int.{pos}
use pixtorrent.Prelude.Maps.{get}
use pixtorrent.P2p.PeerState.{set_peer_interested, set_peer_choking}
use pixtorrent.P2p.Pieces.{verify_piece, get_piece, all_pieces_received, bitfield}
use pixtorrent.P2p.Swarm.{
  is_choking, record_upload, record_download, mark_interested, mark_choking, update_peer_bitfield,
  set_peer_has_piece, Swarm, lookup,
}
use pixtorrent.P2p.Transport.{close_conn}
use pixtorrent.P2p.Wire.{TcpPeer, close}
use pixtorrent.P2p.Swarm.Members.{IsValid, on_peer-IsValid, modify_state-IsValid}
use pixtorrent.TorrentServer.{
  TorrentServer, Outside, with_swarm, send_to, handle_bitfield_announcement, handle_piece_request,
  piece_message, have_message, store_piece, finish_piece, handle_piece, send_pending_requests,
  dispatch, handle_rpc,
}
use pixtorrent.TorrentServer.Events.{
  Event, rpc, unchoke_tick, announce_tick, connection, frame_taken, connection_end, take_frame,
  step, loop,
}
use pixtorrent.TorrentServer.Membership.{
  same_tables-IsValid, replaced-IsValid, send_to-IsValid, request_pieces-IsValid, broadcast-IsValid,
  run_unchoke_round-IsValid,
}

close-id : (p : TcpPeer) → (close p).id ≡ p.id
unfolding close
close-id p = ground arith

module _ {Rate : Type 0} where
  handle_bitfield_announcement-IsValid :
      (env : Outside) (id field : Bytes) (ts : TorrentServer Rate)
      → IsValid ts.swarm
      → IsValid (handle_bitfield_announcement env id field ts).swarm
  unfolding handle_bitfield_announcement update_peer_bitfield
  handle_bitfield_announcement-IsValid env id field ts v =
      let s = update_peer_bitfield id field ts.swarm in
      let noted = same_tables-IsValid ts.swarm s refl refl v in
      let sent = send_to-IsValid id (1 ∷ []) s noted in ground (arith, noted, sent)

  handle_piece_request-IsValid :
      (id : Bytes) (i : ℕ) (ts : TorrentServer Rate)
      → IsValid ts.swarm
      → IsValid (handle_piece_request id i ts).swarm
  unfolding handle_piece_request record_upload
  handle_piece_request-IsValid id i ts v = elim (Bool-cases (is_choking id ts.swarm)) [
    | inl e ↦ rw e v
    | inr e ↦ elim (Option-cases (get_piece ts.swarm.pieces (pos i))) [
      | inl k ↦ rw (e, k, handle_piece_request) v
      | inr (piece, k) ↦
          let sent = send_to-IsValid id (piece_message i piece) ts.swarm v in
          rw (e, k, handle_piece_request)
            (elim (Bool-cases (send_to id (piece_message i piece) ts.swarm).1) [
              | inl done ↦ rw done (modify_state-IsValid id _ _ sent)
              | inr bad ↦ rw bad sent
            ])
    ]
  ]

  send_pending_requests-IsValid :
      (id : Bytes) (ts : TorrentServer Rate)
      → IsValid ts.swarm
      → IsValid (send_pending_requests id ts).swarm
  unfolding send_pending_requests
  send_pending_requests-IsValid id ts v =
      elim (Option-cases (get bytes_discrete id ts.pending_requests)) [
        | inl e ↦ rw (e, send_pending_requests) v
        | inr (is, e) ↦ rw (e, send_pending_requests) (request_pieces-IsValid id is ts.swarm v)
      ]

  finish_piece-IsValid :
      (env : Outside) (ts : TorrentServer Rate)
      → IsValid ts.swarm
      → IsValid (finish_piece env ts).0.swarm
  unfolding finish_piece
  finish_piece-IsValid env ts v = elim (Bool-cases (all_pieces_received ts.swarm.pieces)) [
    | inl e ↦ rw e v
    | inr e ↦ rw e (broadcast-IsValid (6 ∷ bitfield ts.swarm.pieces) ts.swarm v)
  ]

  handle_piece-IsValid :
      (env : Outside) (id body : Bytes) (ts : TorrentServer Rate)
      → IsValid ts.swarm
      → IsValid (handle_piece env id body ts).0.swarm
  unfolding handle_piece store_piece record_download
  handle_piece-IsValid env id body ts v = elim (Bool-cases (ltb (length body) 4)) [
    | inl e ↦ rw e v
    | inr e ↦
        let i = u32 (take 4 body) in
        let piece = drop 4 body in
        let credited = record_download id (pos (length piece)) ts.swarm in
        let kept =
          same_tables-IsValid credited (store_piece i piece credited) refl refl
            (modify_state-IsValid id _ ts.swarm v) in
        elim (Bool-cases (verify_piece env.sha1 ts.swarm.pieces (pos i) piece)) [
          | inl ok ↦
              rw (e, ok) (finish_piece-IsValid env _ (broadcast-IsValid (have_message i) _ kept))
          | inr bad ↦ rw (e, bad) v
        ]
  ]

  dispatch-IsValid :
      (env : Outside) (id : Bytes) (kind : ℕ) (body : Bytes) (ts : TorrentServer Rate)
      → IsValid ts.swarm
      → IsValid (dispatch env id kind body ts).0.swarm
  unfolding dispatch mark_interested mark_choking set_peer_has_piece
  dispatch-IsValid env id kind body ts v =
      let i = u32 (take 4 body) in
      let interested = modify_state-IsValid id (set_peer_interested true) ts.swarm v in
      let bored = modify_state-IsValid id (set_peer_interested false) ts.swarm v in
      let choked = modify_state-IsValid id (set_peer_choking true) ts.swarm v in
      let freed = modify_state-IsValid id (set_peer_choking false) ts.swarm v in
      let asked = handle_piece_request-IsValid id i ts v in
      let stored = handle_piece-IsValid env id body ts v in
      let shown = same_tables-IsValid ts.swarm (set_peer_has_piece id i ts.swarm) refl refl v in
      let announced = handle_bitfield_announcement-IsValid env id body ts v in
      let requested = send_pending_requests-IsValid id (with_swarm ts _) freed in
      ground (arith, v, interested, bored, choked, asked, stored, shown, announced, requested)

  handle_rpc-IsValid :
      (env : Outside) (id payload : Bytes) (ts : TorrentServer Rate)
      → IsValid ts.swarm
      → IsValid (handle_rpc env id payload ts).0.swarm
  unfolding handle_rpc
  handle_rpc-IsValid env id [] ts v = v
  handle_rpc-IsValid env id (kind ∷ body) ts v = dispatch-IsValid env id kind body ts v

  take_frame-IsValid : (id : Bytes) (s : Swarm Rate) → IsValid s → IsValid (take_frame id s)
  unfolding take_frame
  take_frame-IsValid id s v = elim (Option-cases (lookup id s.peers)) [
    | inl e ↦ rw (e, take_frame) v
    | inr (p, e) ↦ rw (e, take_frame) (replaced-IsValid id p _ s e refl v)
  ]

  close_conn-IsValid : (id : Bytes) (s : Swarm Rate) → IsValid s → IsValid (close_conn id s)
  unfolding close_conn
  close_conn-IsValid id s v = elim (Option-cases (lookup id s.peers)) [
    | inl e ↦ rw (e, close_conn) v
    | inr (p, e) ↦ rw (e, close_conn) (replaced-IsValid id p (close p) s e (close-id p) v)
  ]

  step-IsValid :
      (e : Event Rate) (ts : TorrentServer Rate) → IsValid ts.swarm → IsValid (step e ts).0.swarm
  unfolding step
  step-IsValid (rpc env id payload) ts v = handle_rpc-IsValid env id payload ts v
  step-IsValid (unchoke_tick env) ts v = run_unchoke_round-IsValid env ts v
  step-IsValid announce_tick ts v = v
  step-IsValid (connection zero_rate now p) ts v = on_peer-IsValid zero_rate now p ts.swarm v
  step-IsValid (frame_taken id) ts v = take_frame-IsValid id ts.swarm v
  step-IsValid (connection_end id) ts v = close_conn-IsValid id ts.swarm v

  -- The tables of the swarm stay in step whatever events arrive in whatever order: the peers and
  -- the states have the same ids, each once, and a peer stands under its own id, if it was so at
  -- the start.
  pub loop-IsValid :
      (events : List (Event Rate)) (ts : TorrentServer Rate)
      → IsValid ts.swarm
      → IsValid (loop events ts).0.swarm
  unfolding loop
  loop-IsValid [] ts v = v
  loop-IsValid (e ∷ events) ts v = loop-IsValid events (step e ts).0 (step-IsValid e ts v)
