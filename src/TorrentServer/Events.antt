-- ===== src/TorrentServer/Events.antt =====
-- The main loop of torrent_server/server.go: the events that its `select` takes, in any order,
-- and what the goroutines of the connections do to the swarm meanwhile: `OnPeer`, the first frame of
-- an outbox taken by `writeLoop`, and the deferred `Close`.
use pixtorrent.Prelude.{ℕ, none, some, List, [], ◌∷◌, ◌++◌, Bytes, codes, drop}
use pixtorrent.P2p.Swarm.{Swarm, on_peer, lookup, store}
use pixtorrent.P2p.Swarm.Unchoke.{RoundInput}
use pixtorrent.P2p.Transport.{close_conn}
use pixtorrent.P2p.Wire.{TcpPeer}
use pixtorrent.TorrentServer.{
  TorrentServer, Outside, Result, with_swarm, handle_rpc, run_unchoke_round, announce,
}

pub data Event (Rate : Type 0) : Type 0 where
  rpc : Outside → Bytes → Bytes → Event Rate
  unchoke_tick : RoundInput Rate → Event Rate
  announce_tick : Event Rate
  connection : Rate → ℕ → TcpPeer → Event Rate
  frame_taken connection_end : Bytes → Event Rate

module _ {Rate : Type 0} where
  -- `range p.outbox`: what is taken makes room for the next `Send`.
  unfoldable pub take_frame : Bytes → Swarm Rate → Swarm Rate
  take_frame id s = elim (lookup id s.peers) [
    | none ↦ s
    | some p ↦ record s { peers = store id (record p { outbox = drop 1 p.outbox }) s.peers }
  ]

  unfoldable pub step : Event Rate → TorrentServer Rate → Result Rate
  step (rpc env id payload) ts = handle_rpc env id payload ts
  step (unchoke_tick env) ts = (run_unchoke_round env ts, [])
  step announce_tick ts = (ts, announce [] ∷ [])
  step (connection zero now p) ts = (with_swarm ts (on_peer zero now p ts.swarm).0, [])
  step (frame_taken id) ts = (with_swarm ts (take_frame id ts.swarm), [])
  step (connection_end id) ts = (with_swarm ts (close_conn id ts.swarm), [])

  -- The loop until `quitch` is closed; the node then announces that it stops.
  unfoldable pub loop : List (Event Rate) → TorrentServer Rate → Result Rate
  unfolding step
  loop [] ts = (ts, announce (codes "stopped") ∷ [])
  loop (e ∷ events) ts =
      let stepped = step e ts in let rest = loop events stepped.0 in (rest.0, stepped.1 ++ rest.1)
