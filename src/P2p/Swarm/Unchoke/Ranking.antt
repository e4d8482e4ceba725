-- ===== src/P2p/Swarm/Unchoke/Ranking.antt =====
-- Whom a round chooses: the best three by rate, and one optimistically.
use mathlib.Core.Bool.{Bool-set}
use mathlib.Core.List.{Perm, Permᴰ}
use mathlib.Core.Logic.{∥∥₁_elim}
use pixtorrent.Prelude.{
  ℕ, zero, suc, ◌+◌, ◌-◌, ◌%◌, Bool, true, false, not, ◌&&◌, ◌||◌, Option, none, some, List, [],
  ◌∷◌, map, Bytes, length, take, drop, ◌==◌, is_some, bytes_discrete, ◌≡◌, ◌⊎◌, refl, sym, ap, ◌∙◌,
  arith, All, Bool-cases, Option-cases, inl, inr, get_or_within,
}
use pixtorrent.Prelude.Maps.{Map, get, get-put}
use pixtorrent.Prelude.Sort.{
  sort_slice, sort_slice-perm, sort_slice-All, sort_slice-IsOrdered, IsOrdered-split,
}
use pixtorrent.P2p.PeerState.{PeerState}
use pixtorrent.P2p.Pieces.Verify.{equal_iff}
use pixtorrent.P2p.Pieces.{equal}
use pixtorrent.P2p.Swarm.{lookup, store, no_peer}
use pixtorrent.P2p.Swarm.Unchoke.Apply.{occurs}
use pixtorrent.P2p.Swarm.Unchoke.Bound.{Covers}
use pixtorrent.P2p.Swarm.Unchoke.{
  RoundInput, PeerRanking, max_unchoked_peers, interested_peers, rank, chosen, choose_best,
  best_peers, choked_interested, draw_peer, next_optimistic, choose_optimistic,
  optimistic_unchoke_interval,
}

-- What a comparison of rates has to satisfy: it is asymmetric, and "not greater" is transitive.
pub record IsOrder {Rate : Type 0} (greater : Rate → Rate → Bool) : Type 0 where
  pub asymmetric : (a b : Rate) → greater a b ≡ true → greater b a ≡ false
  pub transitive : (a b c : Rate) → greater b a ≡ false → greater c b ≡ false → greater c a ≡ false

chosen-store :
    (x id : Bytes) (m : Map Bytes Bool) → chosen id (store x true m) ≡ (equal id x || chosen id m)
unfolding chosen
chosen-store x id m = ground (arith, equal_iff id x, get-put bytes_discrete x id true m)

due :
    (round : ℕ) (old : Bytes)
    → (round % optimistic_unchoke_interval == 0 || equal old no_peer) ≡ true
    → (round % optimistic_unchoke_interval ≡ 0) ⊎ (old ≡ no_peer)
due round old e = ground (arith, equal_iff old no_peer)

draw_peer-All :
    (P : Bytes → Type 0) (n : ℕ) (ids : List Bytes) (old : Bytes)
    → All P ids
    → (draw_peer n ids old ≡ old) ⊎ P (draw_peer n ids old)
unfolding draw_peer
draw_peer-All P n [] old h = inl refl
draw_peer-All P n (id ∷ ids) old h =
    inr (get_or_within P (id ∷ ids) (n % length (id ∷ ids)) old (omega arith) h)

module _ {Rate : Type 0} where
  abbrev pub ids_of : List (PeerRanking Rate) → List Bytes
  ids_of = map (λ pr. pr.id)

  chosen-choose_best :
      (count : ℕ) (ranking : List (PeerRanking Rate)) (m : Map Bytes Bool) (id : Bytes) (left : ℕ)
      → count + left ≡ max_unchoked_peers - 1
      → chosen id (choose_best count ranking m)
        ≡ (occurs id (ids_of (take left ranking)) || chosen id m)
  unfolding choose_best
  chosen-choose_best count [] m id zero e = refl
  chosen-choose_best count [] m id (suc left) e = refl
  chosen-choose_best count (pr ∷ ranking) m id zero e = ground arith
  chosen-choose_best count (pr ∷ ranking) m id (suc left) e = ground (
    arith,
    chosen-store pr.id id m,
    chosen-choose_best (suc count) ranking (store pr.id true m) id left,
  )

  abbrev NotBefore : (Rate → Rate → Bool) → PeerRanking Rate → PeerRanking Rate → Type 0
  NotBefore greater a b = greater b.rate a.rate ≡ false

  chosen-best_peers :
      (env : RoundInput Rate) (states : Map Bytes (PeerState Rate)) (id : Bytes)
      → chosen id (best_peers env states)
        ≡ occurs id (ids_of (take (max_unchoked_peers - 1) (rank env states)))
  unfolding best_peers
  chosen-best_peers env states id =
      chosen-choose_best 0 (rank env states) [] id 3 refl ∙ unfold chosen get in ground arith

  -- A peer of the ranking is an interested peer with its download rate.
  pub record IsInterested (states : Map Bytes (PeerState Rate)) (pr : PeerRanking Rate)
      : Type 0 where
    pub state : PeerState Rate
    pub known : lookup pr.id states ≡ some state
    pub interested : state.peer_interested ≡ true
    pub rate_is : pr.rate ≡ state.download_rate

  interested_peers-IsInterested :
      (ids : List Bytes) (states : Map Bytes (PeerState Rate))
      → All (IsInterested states) (interested_peers ids states)
  unfolding interested_peers
  interested_peers-IsInterested [] states = tt
  interested_peers-IsInterested (id ∷ ids) states =
      let rest = interested_peers-IsInterested ids states in
      elim (Option-cases (lookup id states)) [
        | inl e ↦ rw (e, interested_peers) rest
        | inr (st, e) ↦
            rw (e, interested_peers)
              (elim (Bool-cases st.peer_interested) [
                | inl t ↦
                    rw t (record { state = st; known = e; interested = t; rate_is = refl }, rest)
                | inr f ↦ rw f rest
              ])
      ]

  abbrev pub is_interested : Option (PeerState Rate) → Bool
  is_interested none = false
  is_interested (some st) = st.peer_interested

  interested_peers-occurs :
      (ids : List Bytes) (states : Map Bytes (PeerState Rate)) (id : Bytes)
      → occurs id (ids_of (interested_peers ids states))
        ≡ (occurs id ids && is_interested (lookup id states))
  unfolding interested_peers
  interested_peers-occurs [] states id = refl
  interested_peers-occurs (x ∷ ids) states id =
      let rest = interested_peers-occurs ids states id in
      let same : (equal id x ≡ true) → lookup id states ≡ lookup x states =
        λ e. ap (λ y. lookup y states) ((equal_iff id x).0 e) in
      elim (Option-cases (lookup x states)) [
        | inl e ↦
            rw (e, interested_peers)
              (elim (Bool-cases (equal id x)) [
                | inl t ↦ rw t (rest ∙ rw (same t ∙ e) ground arith)
                | inr f ↦ rw f rest
              ])
        | inr (st, e) ↦
            rw (e, interested_peers)
              (elim (Bool-cases (equal id x)) [
                | inl t ↦ elim (Bool-cases st.peer_interested) [
                  | inl i ↦ rw (i, t) (rw (same t ∙ e) (sym i))
                  | inr i ↦ rw (i, t) (rest ∙ rw (same t ∙ e) ground arith)
                ]
                | inr f ↦ elim (Bool-cases st.peer_interested) [
                  | inl i ↦ rw (i, f) rest
                  | inr i ↦ rw (i, f) rest
                ]
              ])
      ]

  occurs-permuted :
      (id : Bytes) (xs ys : List (PeerRanking Rate))
      → Permᴰ xs ys
      → occurs id (ids_of xs) ≡ occurs id (ids_of ys)
  occurs-permuted id _ _ Permᴰ.nil = refl
  occurs-permuted id _ _ (Permᴰ.cons e p) = rw (e, occurs-permuted id _ _ p) refl
  occurs-permuted id _ _ (Permᴰ.swap e f) = rw (e, f) ground arith
  occurs-permuted id _ _ (Permᴰ.trans p q) = occurs-permuted id _ _ p ∙ occurs-permuted id _ _ q

  -- Tit for tat: the peers chosen by rate are the first three of a ranking; every peer of the
  -- ranking is interested and stands with its download rate, and every interested peer stands in it;
  -- and no peer behind the first three has a greater rate than one of them. The comparison is an
  -- order, and the loop over the peers meets each of them.
  pub best_peers_lem :
      (env : RoundInput Rate) (states : Map Bytes (PeerState Rate))
      → IsOrder env.greater
      → Covers env.rank_order states
      → (ranking : List (PeerRanking Rate)) × ((id : Bytes)
          → chosen id (best_peers env states) ≡ occurs id (ids_of (take 3 ranking)))
        × Perm ranking (interested_peers env.rank_order states)
        × All (IsInterested states) ranking
        × ((id : Bytes) → occurs id (ids_of ranking) ≡ is_interested (lookup id states))
        × All (λ a. All (λ b. env.greater b.rate a.rate ≡ false) (drop 3 ranking)) (take 3 ranking)
  unfolding rank
  best_peers_lem env states o covers =
      let less = λ (t : ℕ) (a b : PeerRanking Rate). env.greater a.rate b.rate in
      let found = interested_peers env.rank_order states in
      (
        rank env states,
        chosen-best_peers env states,
        sort_slice-perm less found,
        sort_slice-All less (IsInterested states) found
            (interested_peers-IsInterested env.rank_order states),
        (λ id.
            ∥∥₁_elim (sort_slice-perm less found) (Bool-set _ _)
              (occurs-permuted id (sort_slice less found) found)
            ∙ interested_peers-occurs env.rank_order states id
            ∙ met id (lookup id states) refl),
        IsOrdered-split (NotBefore env.greater) 3 (sort_slice less found) (
            sort_slice-IsOrdered less (NotBefore env.greater)
              (λ t a b e. o.asymmetric a.rate b.rate e) (λ t a b e. e)
              (λ a b c p q. o.transitive a.rate b.rate c.rate p q) found),
      )
    where
      met :
          (id : Bytes) (o : Option (PeerState Rate))
          → lookup id states ≡ o
          → (occurs id env.rank_order && is_interested o) ≡ is_interested o
      met id none e = ground arith
      met id (some st) e = rw (covers id (rw e refl)) refl

  -- A peer that is interested and not yet chosen.
  pub record IsCandidate (to_unchoke : Map Bytes Bool) (states : Map Bytes (PeerState Rate))
      (id : Bytes) : Type 0 where
    pub state : PeerState Rate
    pub known : lookup id states ≡ some state
    pub interested : state.peer_interested ≡ true
    pub not_chosen : chosen id to_unchoke ≡ false

  choked_interested-IsCandidate :
      (ids : List Bytes) (m : Map Bytes Bool) (states : Map Bytes (PeerState Rate))
      → All (IsCandidate m states) (choked_interested ids m states)
  unfolding choked_interested
  choked_interested-IsCandidate [] m states = tt
  choked_interested-IsCandidate (id ∷ ids) m states =
      let rest = choked_interested-IsCandidate ids m states in
      elim (Option-cases (lookup id states)) [
        | inl e ↦ rw (e, choked_interested) rest
        | inr (st, e) ↦
            rw (e, choked_interested)
              (elim (Bool-cases (st.peer_interested && not (chosen id m))) [
                | inl t ↦ rw t (
                  record {
                    state = st;
                    known = e;
                    interested = ground arith;
                    not_chosen = ground arith;
                  },
                  rest,
                )
                | inr f ↦ rw f rest
              ])
      ]

  -- The optimistic peer of a round stays, or, in every third round and where there was none, it
  -- becomes a peer that is interested and not among the best. Besides the best peers a round
  -- chooses it alone, and only while it has a state.
  pub optimistic_lem :
      (env : RoundInput Rate) (round : ℕ) (old : Bytes) (best : Map Bytes Bool)
      (states : Map Bytes (PeerState Rate))
      → let now = next_optimistic env round old best states in
        ((now ≡ old)
          ⊎ (IsCandidate best states now
              × ((round % optimistic_unchoke_interval ≡ 0) ⊎ (old ≡ no_peer))))
        × ((id : Bytes)
            → chosen id (choose_optimistic now states best) ≡ (
                (equal id now && (not (equal now no_peer) && is_some (lookup now states)))
                || chosen id best))
  unfolding next_optimistic
  optimistic_lem env round old best states =
      let ids = choked_interested env.choked_order best states in
      let drawn =
        draw_peer-All (IsCandidate best states) env.draw ids old
          (choked_interested-IsCandidate env.choked_order best states) in
      let now = next_optimistic env round old best states in
      (
        elim (Bool-cases (round % optimistic_unchoke_interval == 0 || equal old no_peer)) [
          | inl e ↦ rw e (elim drawn [
            | inl same ↦ inl same
            | inr candidate ↦ inr (candidate, due round old e)
          ])
          | inr e ↦ rw e (inl refl)
        ],
        (λ id. unfold choose_optimistic in ground (arith, chosen-store now id best)),
      )
