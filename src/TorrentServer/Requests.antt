-- ===== src/TorrentServer/Requests.antt =====
-- Who is served, and what is asked for.
use pixtorrent.Prelude.{
  ℕ, ◌+◌, ◌^◌, ◌≤◌, ◌<◌, Bool, true, false, none, some, List, [], ◌∷◌, ◌++◌, map, Bytes,
  bytes_discrete, length, take, ltb, put_u32, u32, ◌≡◌, ◌≢◌, refl, sym, ap, ◌∙◌, arith, u32-put_u32,
  length-put_u32, length-append, append-nil, append_assoc, take-append, lt→ltb,
}
use pixtorrent.Prelude.Int.{ℤ, pos}
use pixtorrent.Prelude.Maps.{get, get-put_self, get-put_ne, get-delete}
use pixtorrent.P2p.PeerState.{PeerState, add_uploaded}
use pixtorrent.P2p.Pieces.{get_piece}
use pixtorrent.P2p.Swarm.{
  Swarm, lookup, store, is_choking, record_upload, modify_state, msg_request_piece, msg_send_piece,
  msg_unchoke, mark_choking,
}
use pixtorrent.P2p.Wire.{TcpPeer, send, frame, outbox_size}
use pixtorrent.TorrentServer.{
  TorrentServer, Outside, send_to, request_message, piece_message, handle_piece_request,
  request_pieces, send_pending_requests, handle_rpc,
}

-- A request by a peer that is choked changes nothing.
pub choked_request :
    {Rate : Type 0} (env : Outside) (id body : Bytes) (ts : TorrentServer Rate)
    → is_choking id ts.swarm ≡ true
    → handle_rpc env id (msg_request_piece ∷ body) ts ≡ (ts, [])
unfolding handle_rpc handle_piece_request
choked_request env id body ts h = ground arith

take_four : (i : ℕ) (rest : Bytes) → i < 2 ^ 32 → u32 (take 4 (put_u32 i ++ rest)) ≡ i
take_four i rest h =
    ap u32 (take-append (put_u32 i) rest 4 (length-put_u32 i) ∙ sym (append-nil (put_u32 i)))
    ∙ u32-put_u32 i [] h

-- A request message is read as the request that it was made for.
handle_rpc_request :
    {Rate : Type 0} (env : Outside) (id : Bytes) (i : ℕ) (ts : TorrentServer Rate)
    → i < 2 ^ 32
    → handle_rpc env id (request_message i) ts ≡ (handle_piece_request id i ts, [])
unfolding handle_rpc
handle_rpc_request env id i ts h =
    let number : u32 (take 4 (put_u32 i)) ≡ i =
      ap (λ b. u32 (take 4 b)) (sym (append-nil (put_u32 i))) ∙ take_four i [] h in
    let long : ltb (length (put_u32 i)) 4 ≡ false = rw (length-put_u32 i) in rw (long, number)

send_room :
    (p : TcpPeer) (m : Bytes)
    → p.closed ≡ false
    → length p.outbox < outbox_size
    → send p m ≡ (record p { outbox = p.outbox ++ frame m ∷ [] }, none)
unfolding send
send_room p m open_peer room = rw (open_peer, lt→ltb _ _ room)

module _ {Rate : Type 0} (id : Bytes) (p : TcpPeer) (s : Swarm Rate)
    (known : lookup id s.peers ≡ some p) (open_peer : p.closed ≡ false) (m : Bytes)
    (room : length p.outbox < outbox_size) where
  send_to_room : send_to id m s ≡ (
    record s { peers = store id (record p { outbox = p.outbox ++ frame m ∷ [] }) s.peers },
    true,
  )
  unfolding send_to
  send_to_room = rw (known, send_to) (rw (send_room p m open_peer room))

mark_choking-peers :
    {Rate : Type 0} (id : Bytes) (v : Bool) (s : Swarm Rate) → (mark_choking id v s).peers ≡ s.peers
unfolding mark_choking
mark_choking-peers id v s = ground arith

-- What an unchoked peer gets for its request.
pub record Served {Rate : Type 0} (id : Bytes) (i : ℕ) (piece : Bytes) (p : TcpPeer)
    (st : PeerState Rate) (ts ts' : TorrentServer Rate) : Type 0 where
  pub sent :
      lookup id ts'.swarm.peers
      ≡ some (record p { outbox = p.outbox ++ frame (msg_send_piece ∷ (put_u32 i ++ piece)) ∷ [] })
  pub counted : lookup id ts'.swarm.peer_states ≡ some (add_uploaded (pos (length piece)) st)
  pub others :
      (q : Bytes)
      → q ≢ id
      → (lookup q ts'.swarm.peers ≡ lookup q ts.swarm.peers)
        × (lookup q ts'.swarm.peer_states ≡ lookup q ts.swarm.peer_states)
  pub same_pieces : ts'.swarm.pieces ≡ ts.swarm.pieces
  pub same_bitfields : ts'.swarm.peer_bitfields ≡ ts.swarm.peer_bitfields
  pub same_optimistic : ts'.swarm.optimistic_peer ≡ ts.swarm.optimistic_peer
  pub same_round : ts'.swarm.unchoke_round ≡ ts.swarm.unchoke_round
  pub same_node : ts'.swarm.local_peer_id ≡ ts.swarm.local_peer_id
  pub same_torrent : ts'.swarm.info_hash ≡ ts.swarm.info_hash
  pub same_pending : ts'.pending_requests ≡ ts.pending_requests

record_upload_known :
    {Rate : Type 0} (id : Bytes) (n : ℤ) (st : PeerState Rate) (s : Swarm Rate)
    → lookup id s.peer_states ≡ some st
    → record_upload id n s ≡ record s { peer_states = store id (add_uploaded n st) s.peer_states }
unfolding record_upload
record_upload_known id n st s state = rw (state, modify_state)

not_choking :
    {Rate : Type 0} (id : Bytes) (st : PeerState Rate) (s : Swarm Rate)
    → lookup id s.peer_states ≡ some st
    → st.am_choking ≡ false
    → is_choking id s ≡ false
unfolding is_choking
not_choking id st s state free = rw (state, is_choking) free

-- A request by a peer that is not choked, for a piece that is held, while its connection is open
-- and its outbox has room: the piece message with the number and the piece is queued for that peer,
-- its length is added to the peer's upload count, nothing else of the node changes, and nothing is
-- asked of the outside.
pub request-Served :
    {Rate : Type 0} (env : Outside) (id : Bytes) (i : ℕ) (piece : Bytes) (p : TcpPeer)
    (st : PeerState Rate) (ts : TorrentServer Rate)
    → i < 2 ^ 32
    → lookup id ts.swarm.peers ≡ some p
    → p.closed ≡ false
    → length p.outbox < outbox_size
    → lookup id ts.swarm.peer_states ≡ some st
    → st.am_choking ≡ false
    → get_piece ts.swarm.pieces (pos i) ≡ some piece
    → Served id i piece p st ts (handle_rpc env id (msg_request_piece ∷ put_u32 i) ts).0
      × ((handle_rpc env id (msg_request_piece ∷ put_u32 i) ts).1 ≡ [])
unfolding handle_piece_request
request-Served env id i piece p st ts small known open_peer room state free held =
    let s = ts.swarm in
    let p' = record p { outbox = p.outbox ++ frame (piece_message i piece) ∷ [] } in
    let st' = add_uploaded (pos (length piece)) st in
    rw (handle_rpc_request env id i ts small) (
      (
        rw (not_choking id st s state free, held, handle_piece_request)
            (rw (send_to_room id p s known open_peer (piece_message i piece) room) (
              rw
                (record_upload_known id (pos (length piece)) st
                  (record s { peers = store id p' s.peers }) state)
                (record {
                  sent = get-put_self bytes_discrete id p' s.peers;
                  counted = get-put_self bytes_discrete id st' s.peer_states;
                  others = λ q ne. (
                    get-put_ne bytes_discrete id q p' s.peers ne,
                    get-put_ne bytes_discrete id q st' s.peer_states ne,
                  );
                  same_pieces = refl;
                  same_bitfields = refl;
                  same_optimistic = refl;
                  same_round = refl;
                  same_node = refl;
                  same_torrent = refl;
                  same_pending = refl;
                }))),
        refl,
      ))

-- The frames of the requests for some pieces, in order.
abbrev pub request_frames : List ℕ → List Bytes
request_frames = map (λ i. frame (request_message i))

request_pieces_room :
    {Rate : Type 0} (id : Bytes) (pieces : List ℕ) (p : TcpPeer) (s : Swarm Rate)
    → lookup id s.peers ≡ some p
    → p.closed ≡ false
    → length p.outbox + length pieces ≤ outbox_size
    → lookup id (request_pieces id pieces s).peers
      ≡ some (record p { outbox = p.outbox ++ request_frames pieces })
unfolding request_pieces
request_pieces_room id [] p s known open_peer room =
    known ∙ ap (λ o. some (record p { outbox = o })) (sym (append-nil p.outbox))
request_pieces_room id (i ∷ is) p s known open_peer room =
    let p' = record p { outbox = p.outbox ++ frame (request_message i) ∷ [] } in
    rw (send_to_room id p s known open_peer (request_message i) (omega arith), request_pieces)
      (request_pieces_room id is p' (record s { peers = store id p' s.peers })
          (get-put_self bytes_discrete id p' s.peers) open_peer
          (omega (arith, length-append p.outbox (frame (request_message i) ∷ [])))
        ∙ ap (λ o. some (record p { outbox = o }))
            (append_assoc p.outbox (frame (request_message i) ∷ []) (request_frames is)))

-- On UNCHOKE the pieces that were stored for a peer are asked of it, each once, in their order,
-- behind what its outbox holds, and are no longer stored; the outbox has room for them and the
-- connection is open.
pub unchoke_requests :
    {Rate : Type 0} (env : Outside) (id : Bytes) (pieces : List ℕ) (p : TcpPeer)
    (ts : TorrentServer Rate)
    → get bytes_discrete id ts.pending_requests ≡ some pieces
    → lookup id ts.swarm.peers ≡ some p
    → p.closed ≡ false
    → length p.outbox + length pieces ≤ outbox_size
    → let ts' = (handle_rpc env id (msg_unchoke ∷ []) ts).0 in
      (lookup id ts'.swarm.peers ≡ some (record p { outbox = p.outbox ++ request_frames pieces }))
      × (get bytes_discrete id ts'.pending_requests ≡ none)
unfolding handle_rpc send_pending_requests
unchoke_requests env id pieces p ts pending known open_peer room =
    rw (pending, send_pending_requests)
      (
        request_pieces_room id pieces p (mark_choking id false ts.swarm)
            (rw (mark_choking-peers id false ts.swarm) known) open_peer room,
        get-delete bytes_discrete id id ts.pending_requests ∙ ground arith,
      )
