-- ===== src/TorrentServer/Choked.antt =====
-- Who is not served by torrent_server/handler.go behind an unchoke round.
use pixtorrent.Prelude.{
  Bool, true, false, not, Option, none, some, List, [], ◌∷◌, Bytes, bytes_discrete, ◌≡◌, refl, ap,
  ◌∙◌, Option-cases, inl, inr,
}
use pixtorrent.Prelude.Maps.{IsMap, All-get}
use pixtorrent.P2p.PeerState.{PeerState}
use pixtorrent.P2p.Swarm.{Swarm, lookup, is_choking, msg_request_piece}
use pixtorrent.P2p.Swarm.Unchoke.Bound.{Covers, round_choice, run_unchoke_algorithm-count}
use pixtorrent.P2p.Swarm.Unchoke.{RoundInput, UnchokeAction, chosen, run_unchoke_algorithm}
use pixtorrent.TorrentServer.Requests.{choked_request}
use pixtorrent.TorrentServer.{
  TorrentServer, Outside, send_to, handle_rpc, send_actions, run_unchoke_round,
}

module _ {Rate : Type 0} where
  send_to-states : (id m : Bytes) (s : Swarm Rate) → (send_to id m s).0.peer_states ≡ s.peer_states
  unfolding send_to
  send_to-states id m s = elim (Option-cases (lookup id s.peers)) [
    | inl e ↦ rw (e, send_to) refl
    | inr (p, e) ↦ rw (e, send_to) refl
  ]

  send_actions-states :
      (actions : List UnchokeAction) (s : Swarm Rate)
      → (send_actions actions s).peer_states ≡ s.peer_states
  unfolding send_actions
  send_actions-states [] s = refl
  send_actions-states (a ∷ actions) s = send_actions-states actions _ ∙ send_to-states a.peer_id _ s

  abbrev choked_by : Option (PeerState Rate) → Bool
  choked_by none = true
  choked_by (some st) = st.am_choking

  -- A peer that a round does not choose is choked behind it, known or not.
  unchosen-is_choking :
      (round : RoundInput Rate) (id : Bytes) (ts : TorrentServer Rate)
      → IsMap bytes_discrete ts.swarm.peer_states
      → Covers round.action_order ts.swarm.peer_states
      → chosen id (round_choice round ts.swarm) ≡ false
      → is_choking id (run_unchoke_round round ts).swarm ≡ true
  unfolding run_unchoke_round is_choking
  unchosen-is_choking round id ts unique covers unchosen =
      let after = run_unchoke_algorithm round ts.swarm in
      let settled = (run_unchoke_algorithm-count round ts.swarm unique covers).1 in
      ap (λ states. choked_by (lookup id states)) (send_actions-states after.1 after.0)
      ∙ elim (Option-cases (lookup id after.0.peer_states)) [
        | inl e ↦ ap choked_by e
        | inr (st, e) ↦
            ap choked_by e
            ∙ (All-get bytes_discrete
                  (λ x. x.1.am_choking ≡ not (chosen x.0 (round_choice round ts.swarm))) id
                  after.0.peer_states settled e
                ∙ ap not unchosen)
      ]

  -- Behind an unchoke round a peer that the round has not chosen gets nothing: its request, for
  -- whatever piece and with whatever payload, changes nothing and asks for nothing, whether the node
  -- knows the peer or not. The table has one state for an id, and the last loop of the round meets
  -- every peer.
  pub unchosen_request :
      (env : Outside) (round : RoundInput Rate) (id body : Bytes) (ts : TorrentServer Rate)
      → IsMap bytes_discrete ts.swarm.peer_states
      → Covers round.action_order ts.swarm.peer_states
      → chosen id (round_choice round ts.swarm) ≡ false
      → handle_rpc env id (msg_request_piece ∷ body) (run_unchoke_round round ts)
        ≡ (run_unchoke_round round ts, [])
  unchosen_request env round id body ts unique covers unchosen =
      choked_request env id body (run_unchoke_round round ts)
        (unchosen-is_choking round id ts unique covers unchosen)
