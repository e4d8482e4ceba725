-- ===== src/TorrentServer/Integrity.antt =====
-- What a node stores, whoever sends it: the check of `handlePiece` in torrent_server/handler.go
-- keeps the piece table genuine through every event of torrent_server/server.go.
pub mod Download
use pixtorrent.Prelude.{
  ℕ, zero, suc, ◌+◌, ◌*◌, ◌≤◌, ◌<◌, Bool, true, false, not, ◌&&◌, Option, none, some, List, [], ◌∷◌,
  ◌++◌, Bytes, bytes_discrete, length, take, drop, ltb, leb, ◌==◌, if◌then◌else◌, is_some, u32, ◌≡◌,
  ◌≢◌, refl, sym, ap, ◌∙◌, arith, subst, All, Bool-cases, Option-cases, inl, inr, ◌⊎◌,
}
use pixtorrent.Prelude.Int.{ℤ, pos, ℤ_discrete}
use pixtorrent.Prelude.Maps.{get}
use pixtorrent.P2p.Pieces.{
  PieceManager, AddError, get_piece, add_piece, has_piece, verify_piece, all_pieces_received,
}
use pixtorrent.P2p.Pieces.Store.{
  IsValid, Added, refused_range, refused_twice, added, add_piece-Added, add_piece-IsValid,
  all_pieces_received_lem,
}
use pixtorrent.P2p.Pieces.Verify.{Matches, verify_piece_iff}
use pixtorrent.P2p.PeerState.{PeerState, set_peer_choking}
use pixtorrent.P2p.Swarm.{
  Swarm, lookup, store, modify_state, is_choking, record_upload, record_download, mark_interested,
  mark_choking, on_peer, finish_join, update_peer_bitfield, set_peer_has_piece,
}
use pixtorrent.P2p.Swarm.Rarest.{get_rarest_missing_pieces}
use pixtorrent.P2p.Swarm.Unchoke.{RoundInput, UnchokeAction, run_unchoke_algorithm}
use pixtorrent.P2p.Wire.{TcpPeer, SendError, send}
use pixtorrent.TorrentServer.{
  TorrentServer, Outside, Effect, with_swarm, send_to, broadcast, handle_bitfield_announcement,
  handle_piece_request, store_piece, finish_piece, handle_piece, request_pieces,
  send_pending_requests, dispatch, handle_rpc, send_actions, run_unchoke_round,
}
use pixtorrent.TorrentServer.Calls.{
  Change, same, verified, handle_rpc-Change, run_unchoke_round-pieces, on_peer-pieces,
  take_frame-pieces, close_conn-pieces,
}
use pixtorrent.TorrentServer.Events.{
  Event, rpc, unchoke_tick, announce_tick, connection, frame_taken, connection_end, step, loop,
}
use pixtorrent.TorrentServer.Reconstruct.{reconstruct_data, reconstruct_data-joined}

-- Every piece that is held matches the hash list, and the table is well formed.
pub record IsSound (sha1 : Bytes → Bytes) (n : ℕ) (hashes : Bytes) (pm : PieceManager)
    : Type 0 where
  pub valid : IsValid pm
  pub count : pm.num_pieces ≡ n
  pub listed : pm.piece_hashes ≡ some hashes
  pub genuine :
      (idx : ℤ) (piece : Bytes) → get_piece pm idx ≡ some piece → Matches sha1 n hashes idx piece

module _ (sha1 : Bytes → Bytes) (n : ℕ) (hashes : Bytes) where
  Added-IsSound :
      (pm : PieceManager) (idx : ℤ) (piece : Bytes) (r : PieceManager × Option AddError)
      → Added pm idx piece r
      → IsValid r.0
      → IsSound sha1 n hashes pm
      → Matches sha1 n hashes idx piece
      → IsSound sha1 n hashes r.0
  Added-IsSound pm idx piece _ (refused_range out) valid s m = s
  Added-IsSound pm idx piece _ (refused_twice range old) valid s m = s
  Added-IsSound pm idx piece _ (added range new same_count same_hashes here others one_more) valid s
        m =
      record {
        valid = valid;
        count = same_count ∙ s.count;
        listed = same_hashes ∙ s.listed;
        genuine = λ j p got. elim (ℤ_discrete j idx) [
          | yes e ↦
              subst (λ k. Matches sha1 n hashes k p) (sym e)
                (subst (Matches sha1 n hashes idx)
                  (some_inj (sym here ∙ ap (get_piece _) (sym e) ∙ got)) m)
          | no ne ↦ s.genuine j p (sym (others j ne) ∙ got)
        ];
      }
    where
      some_inj : {a b : Bytes} → some a ≡ some b → a ≡ b
      some_inj h = cc

  add_piece-IsSound :
      (pm : PieceManager) (idx : ℤ) (piece : Bytes)
      → IsSound sha1 n hashes pm
      → verify_piece sha1 pm idx piece ≡ true
      → IsSound sha1 n hashes (add_piece pm idx piece).0
  add_piece-IsSound pm idx piece s h =
      Added-IsSound pm idx piece _ (add_piece-Added pm idx piece)
        (add_piece-IsValid pm idx piece s.valid) s
        (subst (λ k. Matches sha1 k hashes idx piece) s.count
          ((verify_piece_iff sha1 pm idx piece hashes s.listed).0 h))

-- The digest that an event uses is `sha1`.
unfoldable pub HashedBy : {Rate : Type 0} → (Bytes → Bytes) → Event Rate → Type 0
HashedBy sha1 (rpc env id payload) = env.sha1 ≡ sha1
HashedBy sha1 (unchoke_tick env) = Unit
HashedBy sha1 announce_tick = Unit
HashedBy sha1 (connection zero_rate now p) = Unit
HashedBy sha1 (frame_taken id) = Unit
HashedBy sha1 (connection_end id) = Unit

module _ (n : ℕ) (hashes : Bytes) where
  Change-IsSound :
      (sha1 : Bytes → Bytes) (pm pm' : PieceManager)
      → Change sha1 pm pm'
      → IsSound sha1 n hashes pm
      → IsSound sha1 n hashes pm'
  Change-IsSound sha1 pm pm' (same e) s = subst (IsSound sha1 n hashes) (sym e) s
  Change-IsSound sha1 pm pm' (verified i piece ok e) s =
      subst (IsSound sha1 n hashes) (sym e) (add_piece-IsSound sha1 n hashes pm (pos i) piece s ok)

module _ {Rate : Type 0} (n : ℕ) (hashes : Bytes) where
  -- Whatever a peer sends, a stored piece matches the hash list: one event, of any kind and with
  -- any content, keeps the piece table genuine, if its digest is the node's.
  pub step-IsSound :
      (sha1 : Bytes → Bytes) (e : Event Rate) (ts : TorrentServer Rate)
      → HashedBy sha1 e
      → IsSound sha1 n hashes ts.swarm.pieces
      → IsSound sha1 n hashes (step e ts).0.swarm.pieces
  unfolding step HashedBy
  step-IsSound sha1 (rpc env id payload) ts h s =
      Change-IsSound n hashes sha1 _ _
        (subst (λ f. Change f ts.swarm.pieces (handle_rpc env id payload ts).0.swarm.pieces) h
          (handle_rpc-Change env id payload ts))
        s
  step-IsSound sha1 (unchoke_tick env) ts h s =
      subst (IsSound sha1 n hashes) (sym (run_unchoke_round-pieces env ts)) s
  step-IsSound sha1 announce_tick ts h s = s
  step-IsSound sha1 (connection zero_rate now p) ts h s =
      subst (IsSound sha1 n hashes) (sym (on_peer-pieces zero_rate now p ts.swarm)) s
  step-IsSound sha1 (frame_taken id) ts h s =
      subst (IsSound sha1 n hashes) (sym (take_frame-pieces id ts.swarm)) s
  step-IsSound sha1 (connection_end id) ts h s =
      subst (IsSound sha1 n hashes) (sym (close_conn-pieces id ts.swarm)) s

  -- The piece table is genuine at the end of the loop, whatever events arrived in whatever order,
  -- if it was at the start.
  pub loop-IsSound :
      (sha1 : Bytes → Bytes) (events : List (Event Rate)) (ts : TorrentServer Rate)
      → All (HashedBy sha1) events
      → IsSound sha1 n hashes ts.swarm.pieces
      → IsSound sha1 n hashes (loop events ts).0.swarm.pieces
  unfolding loop
  loop-IsSound sha1 [] ts h s = s
  loop-IsSound sha1 (e ∷ events) ts h s =
      loop-IsSound sha1 events (step e ts).0 h.1 (step-IsSound sha1 e ts h.0 s)
