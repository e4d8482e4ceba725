-- ===== src/P2p/Swarm/Unchoke.antt =====
-- `RunUnchokeAlgorithm` of p2p/swarm.go: the choice of the peers that may ask for pieces.
pub mod Ranking
pub mod Apply
pub mod Counts
pub mod Bound
use pixtorrent.Prelude.{
  ℕ, zero, suc, ◌+◌, ◌-◌, ◌%◌, Bool, true, false, not, ◌&&◌, ◌||◌, Option, none, some, List, [],
  ◌∷◌, ◌++◌, map, Bytes, length, get_or, leb, ltb, ◌==◌, if◌then◌else◌, is_some,
}
use pixtorrent.Prelude.Int.{ℤ}
use pixtorrent.Prelude.Maps.{Map}
use pixtorrent.Prelude.Sort.{sort_slice}
use pixtorrent.P2p.PeerState.{PeerState, update_rates, set_am_choking}
use pixtorrent.P2p.Pieces.{equal}
use pixtorrent.P2p.Swarm.{Swarm, lookup, store, no_peer}

abbrev pub max_unchoked_peers : ℕ
max_unchoked_peers = 4

abbrev pub optimistic_unchoke_interval : ℕ
optimistic_unchoke_interval = 3

pub record PeerRanking (Rate : Type 0) : Type 0 where
  pub id : Bytes
  pub rate : Rate

pub record UnchokeAction : Type 0 where
  pub peer_id : Bytes
  pub unchoke : Bool

-- What a round takes from outside: the float64 division and comparison, the clock at each peer's
-- `UpdateRates`, the order in which three of its loops range over the states, and the number
-- that `rand.Int` draws (any number: the code's bound is taken by `%`).
pub record RoundInput (Rate : Type 0) : Type 0 where
  pub rate_of : ℤ → ℕ → Rate
  pub greater : Rate → Rate → Bool
  pub clock : Bytes → ℕ
  pub rank_order : List Bytes
  pub choked_order : List Bytes
  pub action_order : List Bytes
  pub draw : ℕ

-- `toUnchoke[id]`
unfoldable pub chosen : Bytes → Map Bytes Bool → Bool
chosen id to_unchoke = elim (lookup id to_unchoke) [ none ↦ false | some b ↦ b ]

-- `chokedInterested[n]` for the number drawn, if there is one
unfoldable pub draw_peer : ℕ → List Bytes → Bytes → Bytes
draw_peer n [] old = old
draw_peer n (id ∷ ids) old = get_or (id ∷ ids) (n % length (id ∷ ids)) old

module _ {Rate : Type 0} where
  unfoldable pub update_all :
      RoundInput Rate → Map Bytes (PeerState Rate) → Map Bytes (PeerState Rate)
  unfolding update_rates
  update_all env = map λ e. (e.0, update_rates env.rate_of (env.clock e.0) e.1)

  -- The loop that gathers the interested peers.
  unfoldable pub interested_peers :
      List Bytes → Map Bytes (PeerState Rate) → List (PeerRanking Rate)
  interested_peers [] states = []
  interested_peers (id ∷ ids) states =
      let rest = interested_peers ids states in
      elim (lookup id states) [
        | none ↦ rest
        | some state ↦
            if state.peer_interested
            then record { id = id; rate = state.download_rate } ∷ rest
            else rest
      ]

  unfoldable pub rank : RoundInput Rate → Map Bytes (PeerState Rate) → List (PeerRanking Rate)
  unfolding interested_peers sort_slice
  rank env states =
      sort_slice (λ t a b. env.greater a.rate b.rate) (interested_peers env.rank_order states)

  -- The loop over the ranking, with its count.
  unfoldable pub choose_best : ℕ → List (PeerRanking Rate) → Map Bytes Bool → Map Bytes Bool
  choose_best count [] to_unchoke = to_unchoke
  choose_best count (pr ∷ ranking) to_unchoke =
      let rest = choose_best (suc count) ranking (store pr.id true to_unchoke) in
      if leb (max_unchoked_peers - 1) count then to_unchoke else rest

  unfoldable pub choked_interested :
      List Bytes → Map Bytes Bool → Map Bytes (PeerState Rate) → List Bytes
  choked_interested [] to_unchoke states = []
  choked_interested (id ∷ ids) to_unchoke states =
      let rest = choked_interested ids to_unchoke states in
      elim (lookup id states) [
        | none ↦ rest
        | some state ↦
            if state.peer_interested && not (chosen id to_unchoke) then id ∷ rest else rest
      ]

  unfoldable pub next_optimistic :
      RoundInput Rate → ℕ → Bytes → Map Bytes Bool → Map Bytes (PeerState Rate) → Bytes
  unfolding draw_peer choked_interested
  next_optimistic env round old to_unchoke states =
      if round % optimistic_unchoke_interval == 0 || equal old no_peer
      then draw_peer env.draw (choked_interested env.choked_order to_unchoke states) old
      else old

  unfoldable pub choose_optimistic :
      Bytes → Map Bytes (PeerState Rate) → Map Bytes Bool → Map Bytes Bool
  choose_optimistic id states to_unchoke =
      if not (equal id no_peer) && is_some (lookup id states)
      then store id true to_unchoke
      else to_unchoke

  -- The body of the last loop: the new states and actions.
  unfoldable pub apply_one :
      Bytes
      → Map Bytes Bool
      → Map Bytes (PeerState Rate)
      → List UnchokeAction
      → Map Bytes (PeerState Rate) × List UnchokeAction
  unfolding set_am_choking
  apply_one id to_unchoke states actions = elim (lookup id states) [
    | none ↦ (states, actions)
    | some state ↦
        let should_unchoke = chosen id to_unchoke in
        if should_unchoke && state.am_choking
        then (
          store id (set_am_choking false state) states,
          actions ++ record { peer_id = id; unchoke = true } ∷ [],
        )
        else if not should_unchoke && not state.am_choking
        then (
          store id (set_am_choking true state) states,
          actions ++ record { peer_id = id; unchoke = false } ∷ [],
        )
        else (states, actions)
  ]

  unfoldable pub apply_choice :
      List Bytes
      → Map Bytes Bool
      → Map Bytes (PeerState Rate)
      → List UnchokeAction
      → Map Bytes (PeerState Rate) × List UnchokeAction
  unfolding apply_one
  apply_choice [] to_unchoke states actions = (states, actions)
  apply_choice (id ∷ ids) to_unchoke states actions =
      let (states', actions') = apply_one id to_unchoke states actions in
      apply_choice ids to_unchoke states' actions'

  -- The peers to unchoke by their rates, at the updated states.
  unfoldable pub best_peers : RoundInput Rate → Map Bytes (PeerState Rate) → Map Bytes Bool
  unfolding choose_best rank
  best_peers env states = choose_best 0 (rank env states) []

  unfoldable pub run_unchoke_algorithm :
      RoundInput Rate → Swarm Rate → Swarm Rate × List UnchokeAction
  run_unchoke_algorithm env s =
      let round = suc s.unchoke_round in
      let states = update_all env s.peer_states in
      let best = best_peers env states in
      let optimistic = next_optimistic env round s.optimistic_peer best states in
      let to_unchoke = choose_optimistic optimistic states best in
      let (states', actions) = apply_choice env.action_order to_unchoke states [] in
      (
        record s { unchoke_round = round; peer_states = states'; optimistic_peer = optimistic },
        actions,
      )
