-- ===== src/TorrentServer/Calls.antt =====
-- What the handlers of torrent_server/ do to the pieces of the swarm: nothing, but for one that
-- stores a checked piece.
use pixtorrent.Prelude.{
  ℕ, true, false, List, [], ◌∷◌, Bytes, bytes_discrete, length, take, drop, ltb, ◌==◌, u32, ◌≡◌,
  refl, ap, ◌∙◌, arith, Bool-cases, Option-cases, inl, inr,
}
use pixtorrent.Prelude.Int.{pos}
use pixtorrent.Prelude.Maps.{get}
use pixtorrent.P2p.Pieces.{PieceManager, add_piece, verify_piece}
use pixtorrent.P2p.PeerState.{PeerState, set_peer_choking}
use pixtorrent.P2p.Swarm.{
  Swarm, modify_state, record_upload, record_download, mark_interested, mark_choking, on_peer,
  finish_join, update_peer_bitfield, set_peer_has_piece,
}
use pixtorrent.P2p.Swarm.Unchoke.{RoundInput, UnchokeAction, run_unchoke_algorithm}
use pixtorrent.P2p.Wire.{TcpPeer}
use pixtorrent.P2p.Transport.{close_conn}
use pixtorrent.TorrentServer.Events.{take_frame}
use pixtorrent.TorrentServer.{
  TorrentServer, Outside, with_swarm, send_to, broadcast, handle_bitfield_announcement,
  handle_piece_request, store_piece, finish_piece, handle_piece, request_pieces,
  send_pending_requests, dispatch, handle_rpc, send_actions, run_unchoke_round,
}

-- The calls that leave the pieces alone.
module _ {Rate : Type 0} where
  modify_state-pieces :
      (id : Bytes) (f : PeerState Rate → PeerState Rate) (s : Swarm Rate)
      → (modify_state id f s).pieces ≡ s.pieces
  unfolding modify_state
  modify_state-pieces id f s = ground arith

  send_to-pieces : (id m : Bytes) (s : Swarm Rate) → (send_to id m s).0.pieces ≡ s.pieces
  unfolding send_to
  send_to-pieces id m s = ground arith

  request_pieces-pieces :
      (id : Bytes) (is : List ℕ) (s : Swarm Rate) → (request_pieces id is s).pieces ≡ s.pieces
  unfolding request_pieces
  request_pieces-pieces id [] s = refl
  request_pieces-pieces id (i ∷ is) s = request_pieces-pieces id is _ ∙ send_to-pieces id _ s

  send_actions-pieces :
      (actions : List UnchokeAction) (s : Swarm Rate) → (send_actions actions s).pieces ≡ s.pieces
  unfolding send_actions
  send_actions-pieces [] s = refl
  send_actions-pieces (a ∷ actions) s = send_actions-pieces actions _ ∙ send_to-pieces a.peer_id _ s

  pub run_unchoke_round-pieces :
      (env : RoundInput Rate) (ts : TorrentServer Rate)
      → (run_unchoke_round env ts).swarm.pieces ≡ ts.swarm.pieces
  unfolding run_unchoke_round run_unchoke_algorithm
  run_unchoke_round-pieces env ts =
      let round = run_unchoke_algorithm env ts.swarm in send_actions-pieces round.1 round.0

  pub on_peer-pieces :
      (zero_rate : Rate) (now : ℕ) (p : TcpPeer) (s : Swarm Rate)
      → (on_peer zero_rate now p s).0.pieces ≡ s.pieces
  unfolding on_peer finish_join
  on_peer-pieces zero_rate now p s = ground arith

  pub take_frame-pieces : (id : Bytes) (s : Swarm Rate) → (take_frame id s).pieces ≡ s.pieces
  unfolding take_frame
  take_frame-pieces id s = ground arith

  pub close_conn-pieces : (id : Bytes) (s : Swarm Rate) → (close_conn id s).pieces ≡ s.pieces
  unfolding close_conn
  close_conn-pieces id s = ground arith

  handle_piece_request-pieces :
      (id : Bytes) (i : ℕ) (ts : TorrentServer Rate)
      → (handle_piece_request id i ts).swarm.pieces ≡ ts.swarm.pieces
  unfolding handle_piece_request record_upload send_to modify_state
  handle_piece_request-pieces id i ts = ground arith

  handle_bitfield_announcement-pieces :
      (env : Outside) (id field : Bytes) (ts : TorrentServer Rate)
      → (handle_bitfield_announcement env id field ts).swarm.pieces ≡ ts.swarm.pieces
  unfolding handle_bitfield_announcement update_peer_bitfield
  handle_bitfield_announcement-pieces env id field ts =
      ground (arith, send_to-pieces id (1 ∷ []) (update_peer_bitfield id field ts.swarm))

  send_pending_requests-pieces :
      (id : Bytes) (ts : TorrentServer Rate)
      → (send_pending_requests id ts).swarm.pieces ≡ ts.swarm.pieces
  unfolding send_pending_requests
  send_pending_requests-pieces id ts =
      elim (Option-cases (get bytes_discrete id ts.pending_requests)) [
        | inl e ↦ rw (e, send_pending_requests)
        | inr (is, e) ↦ rw (e, send_pending_requests) (request_pieces-pieces id is ts.swarm)
      ]

  finish_piece-pieces :
      (env : Outside) (ts : TorrentServer Rate)
      → (finish_piece env ts).0.swarm.pieces ≡ ts.swarm.pieces
  unfolding finish_piece broadcast
  finish_piece-pieces env ts = ground arith

-- What a run of the code does to the pieces of a swarm.
pub data Change (sha1 : Bytes → Bytes) (pm : PieceManager) : PieceManager → Type 0 where
  same : {pm' : PieceManager} → pm' ≡ pm → Change sha1 pm pm'
  verified :
      {pm' : PieceManager} (i : ℕ) (piece : Bytes)
      → verify_piece sha1 pm (pos i) piece ≡ true
      → pm' ≡ (add_piece pm (pos i) piece).0
      → Change sha1 pm pm'

module _ {Rate : Type 0} (env : Outside) (id : Bytes) where
  handle_piece-Change :
      (body : Bytes) (ts : TorrentServer Rate)
      → Change env.sha1 ts.swarm.pieces (handle_piece env id body ts).0.swarm.pieces
  unfolding handle_piece store_piece broadcast record_download
  handle_piece-Change body ts = elim (Bool-cases (ltb (length body) 4)) [
    | inl e ↦ rw e (same refl)
    | inr e ↦
        elim (Bool-cases
          (verify_piece env.sha1 ts.swarm.pieces (pos (u32 (take 4 body))) (drop 4 body))) [
            | inl ok ↦
                rw (e, ok)
                  (verified (u32 (take 4 body)) (drop 4 body) ok (
                    finish_piece-pieces env _
                    ∙ ap (λ pm. (add_piece pm (pos (u32 (take 4 body))) (drop 4 body)).0)
                        (modify_state-pieces id _ ts.swarm)))
            | inr bad ↦ rw (e, bad) (same refl)
          ]
  ]

  dispatch-Change :
      (kind : ℕ) (body : Bytes) (ts : TorrentServer Rate)
      → Change env.sha1 ts.swarm.pieces (dispatch env id kind body ts).0.swarm.pieces
  unfolding dispatch mark_interested mark_choking set_peer_has_piece
  dispatch-Change kind body ts = elim (Bool-cases (kind == 1)) [
    | inl e ↦ rw e (same (modify_state-pieces id _ ts.swarm))
    | inr e1 ↦ elim (Bool-cases (kind == 2)) [
      | inl e ↦ rw (e1, e) (same (modify_state-pieces id _ ts.swarm))
      | inr e2 ↦ elim (Bool-cases (kind == 4)) [
        | inl e ↦ rw (e1, e2, kind_is 4 e) (handle_piece-Change body ts)
        | inr e4 ↦ (same (other_kinds e1 e2 e4))
      ]
    ]
  ]
    where
      kind_is : (k : ℕ) → (kind == k) ≡ true → kind ≡ k
      kind_is k h = ground arith

      other_kinds :
          (kind == 1) ≡ false
          → (kind == 2) ≡ false
          → (kind == 4) ≡ false
          → (dispatch env id kind body ts).0.swarm.pieces ≡ ts.swarm.pieces
      other_kinds e1 e2 e4 = ground (
        arith,
        handle_piece_request-pieces id (u32 (take 4 body)) ts,
        handle_bitfield_announcement-pieces env id body ts,
        modify_state-pieces id (set_peer_choking true) ts.swarm,
        modify_state-pieces id (set_peer_choking false) ts.swarm,
        send_pending_requests-pieces id
            (with_swarm ts (modify_state id (set_peer_choking false) ts.swarm)),
      )

  pub handle_rpc-Change :
      (payload : Bytes) (ts : TorrentServer Rate)
      → Change env.sha1 ts.swarm.pieces (handle_rpc env id payload ts).0.swarm.pieces
  unfolding handle_rpc
  handle_rpc-Change [] ts = same refl
  handle_rpc-Change (kind ∷ body) ts = dispatch-Change kind body ts
