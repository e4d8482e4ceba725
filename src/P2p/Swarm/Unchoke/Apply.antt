-- ===== src/P2p/Swarm/Unchoke/Apply.antt =====
-- The last loop of `RunUnchokeAlgorithm`.
use pixtorrent.Prelude.{
  Bool, true, false, not, ◌||◌, Option, none, some, List, [], ◌∷◌, Bytes, if◌then◌else◌,
  bytes_discrete, ◌≡◌, refl, ◌∙◌, arith, Bool-cases, Option-cases, inl, inr,
}
use pixtorrent.Prelude.Maps.{Map, IsMap, get-put, put-IsMap}
use pixtorrent.P2p.PeerState.{PeerState, set_am_choking}
use pixtorrent.P2p.Pieces.Verify.{equal_iff}
use pixtorrent.P2p.Pieces.{equal}
use pixtorrent.P2p.Swarm.{lookup}
use pixtorrent.P2p.Swarm.Unchoke.{UnchokeAction, chosen, apply_one, apply_choice}

abbrev pub occurs : Bytes → List Bytes → Bool
occurs id [] = false
occurs id (x ∷ xs) = equal id x || occurs id xs

module _ {Rate : Type 0} where
  -- The state of a peer behind the loop, where the loop came by it.
  abbrev pub settled : Bytes → Map Bytes Bool → PeerState Rate → PeerState Rate
  settled id m state = record state { am_choking = not (chosen id m) }

  abbrev pub settle : Bytes → Map Bytes Bool → Option (PeerState Rate) → Option (PeerState Rate)
  settle id m none = none
  settle id m (some state) = some (settled id m state)

  lookup-apply_one :
      (x : Bytes) (m : Map Bytes Bool) (states : Map Bytes (PeerState Rate))
      (actions : List UnchokeAction) (id : Bytes)
      → lookup id (apply_one x m states actions).0
        ≡ (if equal id x then settle id m (lookup id states) else lookup id states)
  unfolding apply_one set_am_choking
  lookup-apply_one x m states actions id = elim (Option-cases (lookup x states)) [
    | inl e ↦ rw (e, apply_one) (ground (arith, equal_iff id x))
    | inr (st, e) ↦
        rw (e, apply_one)
          (ground (
            arith,
            equal_iff id x,
            get-put bytes_discrete x id (record st { am_choking = false }) states,
            get-put bytes_discrete x id (record st { am_choking = true }) states,
          ))
  ]

  apply_one-IsMap :
      (x : Bytes) (m : Map Bytes Bool) (states : Map Bytes (PeerState Rate))
      (actions : List UnchokeAction)
      → IsMap bytes_discrete states
      → IsMap bytes_discrete (apply_one x m states actions).0
  unfolding apply_one set_am_choking
  apply_one-IsMap x m states actions h = elim (Option-cases (lookup x states)) [
    | inl e ↦ rw (e, apply_one) h
    | inr (st, e) ↦
        rw (e, apply_one)
          (elim (Bool-cases (chosen x m)) [
            | inl c ↦ rw c (elim (Bool-cases st.am_choking) [
              | inl k ↦ rw k (put-IsMap bytes_discrete x _ states h)
              | inr k ↦ rw k h
            ])
            | inr c ↦ rw c (elim (Bool-cases st.am_choking) [
              | inl k ↦ rw k h
              | inr k ↦ rw k (put-IsMap bytes_discrete x _ states h)
            ])
          ])
  ]

  pub lookup-apply_choice :
      (ids : List Bytes) (m : Map Bytes Bool) (states : Map Bytes (PeerState Rate))
      (actions : List UnchokeAction) (id : Bytes)
      → lookup id (apply_choice ids m states actions).0
        ≡ (if occurs id ids then settle id m (lookup id states) else lookup id states)
  unfolding apply_choice
  lookup-apply_choice [] m states actions id = refl
  lookup-apply_choice (x ∷ ids) m states actions id =
      let one = apply_one x m states actions in
      lookup-apply_choice ids m one.0 one.1 id
      ∙ rw (lookup-apply_one x m states actions id) (ground arith)

  pub apply_choice-IsMap :
      (ids : List Bytes) (m : Map Bytes Bool) (states : Map Bytes (PeerState Rate))
      (actions : List UnchokeAction)
      → IsMap bytes_discrete states
      → IsMap bytes_discrete (apply_choice ids m states actions).0
  unfolding apply_choice
  apply_choice-IsMap [] m states actions h = h
  apply_choice-IsMap (x ∷ ids) m states actions h =
      let one = apply_one x m states actions in
      apply_choice-IsMap ids m one.0 one.1 (apply_one-IsMap x m states actions h)
