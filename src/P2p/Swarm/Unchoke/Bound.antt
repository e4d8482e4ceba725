-- ===== src/P2p/Swarm/Unchoke/Bound.antt =====
-- A round leaves at most four peers unchoked, and unchokes exactly the chosen ones.
use pixtorrent.Prelude.{
  ℕ, suc, ◌+◌, ◌-◌, ◌≤◌, Bool, true, not, Option, none, some, List, [], ◌∷◌, map, Bytes, length,
  if◌then◌else◌, is_some, bytes_discrete, ◌≡◌, refl, sym, ◌∙◌, arith, All, Option-cases, inl, inr,
}
use pixtorrent.Prelude.Maps.{Map, get, IsMap, IsAbsent, entries_of_get, length-put}
use pixtorrent.P2p.PeerState.{PeerState, update_rates}
use pixtorrent.P2p.Swarm.{Swarm, lookup, store}
use pixtorrent.P2p.Swarm.Unchoke.Apply.{occurs, settle, lookup-apply_choice, apply_choice-IsMap}
use pixtorrent.P2p.Swarm.Unchoke.Counts.{count_keys, count_chosen-le}
use pixtorrent.P2p.Swarm.Unchoke.{
  RoundInput, PeerRanking, UnchokeAction, max_unchoked_peers, update_all, rank, chosen, choose_best,
  best_peers, next_optimistic, choose_optimistic, apply_choice, run_unchoke_algorithm,
}

length-store_le :
    {V : Type 0} (id : Bytes) (v : V) (m : Map Bytes V) → length (store id v m) ≤ length m + 1
length-store_le id v m = ground (arith, length-put bytes_discrete id v m)

module _ {Rate : Type 0} where
  length-choose_best :
      (count : ℕ) (ranking : List (PeerRanking Rate)) (m : Map Bytes Bool)
      → length m ≤ count
      → count ≤ max_unchoked_peers - 1
      → length (choose_best count ranking m) ≤ max_unchoked_peers - 1
  unfolding choose_best
  length-choose_best count [] m h k = omega arith
  length-choose_best count (pr ∷ ranking) m h k = ground (
    arith,
    length-store_le pr.id true m,
    length-choose_best (suc count) ranking (store pr.id true m),
  )

  length-choose_optimistic :
      (id : Bytes) (states : Map Bytes (PeerState Rate)) (m : Map Bytes Bool)
      → length (choose_optimistic id states m) ≤ length m + 1
  unfolding choose_optimistic
  length-choose_optimistic id states m = ground (arith, length-store_le id true m)

-- The number of peers that this node does not choke.
abbrev pub count_unchoked : {Rate : Type 0} → Map Bytes (PeerState Rate) → ℕ
count_unchoked [] = 0
count_unchoked ((id, state) ∷ m) = (if state.am_choking then 0 else 1) + count_unchoked m

module _ {Rate : Type 0} where
  -- If only chosen peers are unchoked there are no more of them than are chosen.
  count_unchoked-le :
      (m : Map Bytes Bool) (states : Map Bytes (PeerState Rate))
      → All (λ e. e.1.am_choking ≡ not (chosen e.0 m)) states
      → count_unchoked states ≤ count_keys (λ id. chosen id m) states
  count_unchoked-le m [] h = omega arith
  count_unchoked-le m ((id, state) ∷ states) h = ground (arith, h.0, count_unchoked-le m states h.1)

  pub update_all-IsMap :
      (env : RoundInput Rate) (states : Map Bytes (PeerState Rate))
      → IsMap bytes_discrete states
      → IsMap bytes_discrete (update_all env states)
  unfolding update_all
  update_all-IsMap env [] h = tt
  update_all-IsMap env ((id, state) ∷ states) h =
      (absent id states h.0, update_all-IsMap env states h.1)
    where
      absent :
          (id : Bytes) (m : Map Bytes (PeerState Rate))
          → IsAbsent bytes_discrete id m
          → IsAbsent bytes_discrete id
              (map (λ e. (e.0, update_rates env.rate_of (env.clock e.0) e.1)) m)
      absent id [] h = tt
      absent id (e ∷ m) h = (h.0, absent id m h.1)

  pub known_update_all :
      (env : RoundInput Rate) (states : Map Bytes (PeerState Rate)) (id : Bytes)
      → is_some (lookup id (update_all env states)) ≡ is_some (lookup id states)
  unfolding update_all get
  known_update_all env [] id = refl
  known_update_all env ((x, state) ∷ states) id = ground (arith, known_update_all env states id)

  -- The loop's order meets every peer that has a state.
  abbrev pub Covers : List Bytes → Map Bytes (PeerState Rate) → Type 0
  Covers order states = (id : Bytes) → is_some (lookup id states) ≡ true → occurs id order ≡ true

  -- The set of peers that a round chooses.
  unfoldable pub round_choice : RoundInput Rate → Swarm Rate → Map Bytes Bool
  round_choice env s =
      let states = update_all env s.peer_states in
      let best = best_peers env states in
      choose_optimistic (next_optimistic env (suc s.unchoke_round) s.optimistic_peer best states)
        states best

  length-round_choice :
      (env : RoundInput Rate) (s : Swarm Rate) → length (round_choice env s) ≤ max_unchoked_peers
  unfolding round_choice best_peers
  length-round_choice env s =
      let states = update_all env s.peer_states in
      let best = choose_best 0 (rank env states) [] in
      omega (
        arith,
        length-choose_optimistic
            (next_optimistic env (suc s.unchoke_round) s.optimistic_peer best states) states best,
        length-choose_best 0 (rank env states) [] (omega arith) (omega arith),
      )

  settle_choking :
      (id : Bytes) (m : Map Bytes Bool) (o : Option (PeerState Rate)) (st : PeerState Rate)
      → settle id m o ≡ some st
      → st.am_choking ≡ not (chosen id m)
  settle_choking id m none st e = cc
  settle_choking id m (some old) st e = ground arith

  settled_all :
      (order : List Bytes) (m : Map Bytes Bool) (states : Map Bytes (PeerState Rate))
      (actions : List UnchokeAction)
      → Covers order states
      → (id : Bytes) (st : PeerState Rate)
      → lookup id (apply_choice order m states actions).0 ≡ some st
      → st.am_choking ≡ not (chosen id m)
  settled_all order m states actions covers id st e =
      let after = sym (lookup-apply_choice order m states actions id) ∙ e in
      elim (Option-cases (lookup id states)) [
        | inl absent ↦ absurd (ground arith)
        | inr (old, known) ↦
            let met = covers id (rw known) in
            settle_choking id m (lookup id states) st (rw met at after)
      ]

-- Behind a round, whose last loop meets every peer in some order, on a table with one state for
-- an id: at most four peers are unchoked, each peer is unchoked exactly if the round has chosen
-- it, and the table still has one state for an id.
pub run_unchoke_algorithm-count :
    {Rate : Type 0} (env : RoundInput Rate) (s : Swarm Rate)
    → IsMap bytes_discrete s.peer_states
    → Covers env.action_order s.peer_states
    → (count_unchoked (run_unchoke_algorithm env s).0.peer_states ≤ max_unchoked_peers)
      × All
          (λ e. e.1.am_choking ≡ not (chosen e.0 (round_choice env s)))
          (run_unchoke_algorithm env s).0.peer_states
      × IsMap bytes_discrete (run_unchoke_algorithm env s).0.peer_states
unfolding run_unchoke_algorithm round_choice
run_unchoke_algorithm-count env s h covers =
    let states = update_all env s.peer_states in
    let m = round_choice env s in
    let after = apply_choice env.action_order m states [] in
    let met : Covers env.action_order states =
      λ id known. covers id (sym (known_update_all env s.peer_states id) ∙ known) in
    let valid =
      apply_choice-IsMap env.action_order m states [] (update_all-IsMap env s.peer_states h) in
    let settled =
      entries_of_get bytes_discrete (λ e. e.1.am_choking ≡ not (chosen e.0 m)) after.0 valid
        (settled_all env.action_order m states [] met) in
    (
      omega (
        arith,
        count_unchoked-le m after.0 settled,
        count_chosen-le m after.0 valid,
        length-round_choice env s,
      ),
      settled,
      valid,
    )
