-- ===== src/Tests/Swarm.antt =====
-- p2p/swarm.go on a swarm of two peers.
use mathlib.Core.List.{List, Perm}
use pixtorrent.Prelude.{
  ℕ, ◌%◌, ◌≤◌, Bool, true, false, not, ◌&&◌, ◌||◌, none, [], ◌∷◌, Bytes, bytes_discrete, ltb, take,
  drop, is_some, ◌≡◌, ◌⊎◌, refl, arith, All,
}
use pixtorrent.Prelude.Int.{pos}
use pixtorrent.Prelude.Maps.{IsMap, get}
use pixtorrent.Prelude.Sort.{IsOrdered}
use pixtorrent.P2p.PeerState.{PeerState}
use pixtorrent.P2p.Pieces.{PieceManager, missing_pieces, equal}
use pixtorrent.P2p.Swarm.{Swarm, lookup, no_peer, on_peer}
use pixtorrent.P2p.Swarm.Members.{IsValid}
use pixtorrent.P2p.Swarm.Members.Join.{Joined, on_peer-Joined}
use pixtorrent.P2p.Swarm.Rarest.{get_rarest_missing_pieces}
use pixtorrent.P2p.Swarm.Rarest.Order.{holders, get_rarest_missing_pieces_lem}
use pixtorrent.P2p.Swarm.Unchoke.{
  PeerRanking, RoundInput, max_unchoked_peers, optimistic_unchoke_interval, run_unchoke_algorithm,
  interested_peers, best_peers, chosen, next_optimistic, choose_optimistic,
}
use pixtorrent.P2p.Swarm.Unchoke.Apply.{occurs}
use pixtorrent.P2p.Swarm.Unchoke.Bound.{
  Covers, count_unchoked, round_choice, run_unchoke_algorithm-count,
}
use pixtorrent.P2p.Swarm.Unchoke.Ranking.{
  IsOrder, IsInterested, is_interested, ids_of, IsCandidate, best_peers_lem, optimistic_lem,
}
use pixtorrent.P2p.Wire.{TcpPeer}

-- Rates are natural numbers here: the bytes of one second.
abbrev pub Rate : Type 0
Rate = ℕ

abbrev pub alice : Bytes
alice = 1 ∷ []

abbrev pub bob : Bytes
bob = 2 ∷ []

abbrev pub peer : Bytes → TcpPeer
peer id = record { id = id; outbound = true; outbox = []; closed = false }

-- A state of a peer that is interested, served or not, and has sent at a rate.
abbrev pub state_of : Bool → ℕ → PeerState Rate
state_of am_choking rate = record {
  am_choking = am_choking;
  am_interested = false;
  peer_choking = true;
  peer_interested = true;
  uploaded = pos 0;
  downloaded = pos 0;
  upload_rate = 0;
  download_rate = rate;
  last_stat_time = 0;
  last_uploaded = pos 0;
  last_downloaded = pos 0;
}

-- Four pieces, of which the second is held.
abbrev pub some_pieces : PieceManager
some_pieces = record { num_pieces = 4; pieces = (pos 1, 9 ∷ []) ∷ []; piece_hashes = none }

abbrev pub swarm : Swarm Rate
swarm = record {
  peers = (alice, peer alice) ∷ (bob, peer bob) ∷ [];
  peer_states = (alice, state_of false 10) ∷ (bob, state_of true 20) ∷ [];
  peer_bitfields = (alice, 0xf0 ∷ []) ∷ (bob, 0x80 ∷ []) ∷ [];
  info_hash = [];
  pieces = some_pieces;
  local_peer_id = [];
  optimistic_peer = no_peer;
  unchoke_round = 0;
}

pub swarm-IsValid : IsValid swarm
unfolding get
swarm-IsValid = record {
  peers_map = ground arith;
  states_map = ground arith;
  own_ids = (refl, (refl, tt));
  together = λ id. ground arith;
}

on_peer-Joined_example : Joined 0 5 (peer (3 ∷ [])) swarm (on_peer 0 5 (peer (3 ∷ [])) swarm)
on_peer-Joined_example = on_peer-Joined 0 5 (peer (3 ∷ [])) swarm swarm-IsValid

get_rarest_missing_pieces_lem_example :
    Perm
      (get_rarest_missing_pieces (λ t. true) swarm (0xf0 ∷ []))
      (missing_pieces some_pieces (0xf0 ∷ []))
    × IsOrdered
        (λ i j. holders swarm.peer_bitfields i ≤ holders swarm.peer_bitfields j)
        (get_rarest_missing_pieces (λ t. true) swarm (0xf0 ∷ []))
get_rarest_missing_pieces_lem_example = get_rarest_missing_pieces_lem (λ t. true) swarm (0xf0 ∷ [])

-- A round that meets both peers.
abbrev pub round_input : RoundInput Rate
round_input = record {
  rate_of = λ bytes elapsed. 0;
  greater = λ a b. ltb b a;
  clock = λ id. 0;
  rank_order = alice ∷ bob ∷ [];
  choked_order = alice ∷ bob ∷ [];
  action_order = bob ∷ alice ∷ [];
  draw = 5;
}

pub round_input-Covers : Covers round_input.action_order swarm.peer_states
unfolding get equal
round_input-Covers id h = ground arith

run_unchoke_algorithm-count_example :
    (count_unchoked (run_unchoke_algorithm round_input swarm).0.peer_states ≤ max_unchoked_peers)
    × All
        (λ e. e.1.am_choking ≡ not (chosen e.0 (round_choice round_input swarm)))
        (run_unchoke_algorithm round_input swarm).0.peer_states
    × IsMap bytes_discrete (run_unchoke_algorithm round_input swarm).0.peer_states
run_unchoke_algorithm-count_example =
    run_unchoke_algorithm-count round_input swarm swarm-IsValid.states_map round_input-Covers

round_input-IsOrder : IsOrder round_input.greater
round_input-IsOrder = record {
  asymmetric = λ a b h. ground arith;
  transitive = λ a b c h k. ground arith;
}

round_input-meets : Covers round_input.rank_order swarm.peer_states
unfolding get equal
round_input-meets id h = ground arith

best_peers_lem_example :
    (ranking : List (PeerRanking Rate)) × ((id : Bytes)
      → chosen id (best_peers round_input swarm.peer_states) ≡ occurs id (ids_of (take 3 ranking)))
    × Perm ranking (interested_peers round_input.rank_order swarm.peer_states)
    × All (IsInterested swarm.peer_states) ranking
    × ((id : Bytes) → occurs id (ids_of ranking) ≡ is_interested (lookup id swarm.peer_states))
    × All
        (λ a. All (λ b. round_input.greater b.rate a.rate ≡ false) (drop 3 ranking))
        (take 3 ranking)
best_peers_lem_example =
    best_peers_lem round_input swarm.peer_states round_input-IsOrder round_input-meets

optimistic_lem_example :
    let now = next_optimistic round_input 1 no_peer [] swarm.peer_states in
    ((now ≡ no_peer)
      ⊎ (IsCandidate [] swarm.peer_states now
          × ((1 % optimistic_unchoke_interval ≡ 0) ⊎ (no_peer ≡ no_peer))))
    × ((id : Bytes)
        → chosen id (choose_optimistic now swarm.peer_states []) ≡ (
            (equal id now && (not (equal now no_peer) && is_some (lookup now swarm.peer_states)))
            || chosen id []))
optimistic_lem_example = optimistic_lem round_input 1 no_peer [] swarm.peer_states
