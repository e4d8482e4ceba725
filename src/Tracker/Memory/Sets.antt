-- ===== src/Tracker/Memory/Sets.antt =====
-- The set of ids of a torrent in tracker/memory_storage.go, behind an announce and a leave.
use pixtorrent.Prelude.{
  Bool, false, not, ◌&&◌, ◌||◌, Option, none, [], Bytes, bytes_discrete, IsByte, All, is_some, ◌≡◌,
  ◌≢◌, refl, ap, ◌∙◌, subst, sym, ite, if_pos, if_neg, Option-cases, Bool-cases, inl, inr,
}
use pixtorrent.Prelude.Maps.{get, delete, get-put, get-delete}
use pixtorrent.P2p.Pieces.{equal}
use pixtorrent.P2p.Pieces.Verify.{equal_iff}
use pixtorrent.Tracker.Hex.{encode_to_string, encode_to_string_inj}
use pixtorrent.Tracker.Memory.{Peer, MemoryStorage, IdSet, ids_of, add_peer, remove_peer}
use pixtorrent.Tracker.Memory.Listed.{ids_of-put_self, ids_of-put_ne, ids_of-add_peer, set_of}

pub equal_ne : (a b : Bytes) → a ≢ b → equal a b ≡ false
equal_ne a b ne = elim (Bool-cases (equal a b)) [
  | inl e ↦ absurd (ne ((equal_iff a b).0 e))
  | inr e ↦ e
]

no_set :
    (g : Bytes) (m : MemoryStorage)
    → get bytes_discrete (encode_to_string g) m.torrents ≡ none
    → ids_of g m ≡ []
unfolding ids_of
no_set g m h = rw (h, ids_of)

nothing_deleted :
    (q r : Bytes)
    → get {V = Unit} bytes_discrete q [] ≡ get bytes_discrete q (delete bytes_discrete r [])
unfolding get delete
nothing_deleted q r = refl

-- Whether an id stands in the set of a torrent.
abbrev pub holds_id : Bytes → Bytes → MemoryStorage → Bool
holds_id g q m = is_some (get bytes_discrete q (ids_of g m))

module _ (g h q : Bytes) (m : MemoryStorage) (a : All IsByte g) (b : All IsByte h) where
  pub holds_id-add_peer :
      (p : Peer) → holds_id g q (add_peer h p m) ≡ (equal g h && equal q p.id || holds_id g q m)
  holds_id-add_peer p =
      ap (λ ids. is_some (get bytes_discrete q ids)) (ids_of-add_peer g h q m a b p)
      ∙ elim (bytes_discrete g h) [
        | yes e ↦
            rw (if_pos {C = IdSet} (bytes_discrete g h) e, (equal_iff g h).1 e)
              (ap is_some (get-put bytes_discrete p.id q tt (ids_of g m))
                ∙ elim (bytes_discrete q p.id) [
                  | yes s ↦
                      rw
                        (if_pos {C = Option Unit} (bytes_discrete q p.id) s, (equal_iff q p.id).1 s)
                  | no ns ↦
                      rw (if_neg {C = Option Unit} (bytes_discrete q p.id) ns, equal_ne q p.id ns)
                ])
        | no ne ↦ rw (if_neg {C = IdSet} (bytes_discrete g h) ne, equal_ne g h ne)
      ]

  -- The set of a torrent behind a leave.
  ids_of-remove_peer :
      (r : Bytes)
      → get bytes_discrete q (ids_of g (remove_peer h r m))
        ≡ ite
            (bytes_discrete g h)
            (get bytes_discrete q (delete bytes_discrete r (ids_of g m)))
            (get bytes_discrete q (ids_of g m))
  unfolding remove_peer
  ids_of-remove_peer r = elim (bytes_discrete g h) [
    | yes e ↦ rw (if_pos {C = Option Unit} (bytes_discrete g h) e) (
        subst
          (λ k.
            get bytes_discrete q (ids_of g (remove_peer k r m))
            ≡ get bytes_discrete q (delete bytes_discrete r (ids_of g m)))
          e
          (elim (Option-cases (get bytes_discrete (encode_to_string g) m.torrents)) [
            | inl none_there ↦ rw none_there (
                ap (get bytes_discrete q)
                  (no_set g (record m { peers = delete bytes_discrete r m.peers }) none_there)
                ∙ nothing_deleted q r
                ∙ ap (λ ids. get bytes_discrete q (delete bytes_discrete r ids))
                    (sym (no_set g m none_there)))
            | inr (ids, there) ↦ rw there (
                ap (get bytes_discrete q) (
                  ids_of-put_self g (delete bytes_discrete r ids) (delete bytes_discrete r m.peers)
                    m
                  ∙ ap (delete bytes_discrete r) (sym (set_of g g ids m refl there))))
          ]))
    | no ne ↦
        rw (if_neg {C = Option Unit} (bytes_discrete g h) ne)
          (elim (Option-cases (get bytes_discrete (encode_to_string h) m.torrents)) [
            | inl none_there ↦ rw none_there (unfold ids_of in refl)
            | inr (ids, there) ↦ rw there (
                ap (get bytes_discrete q) (
                  ids_of-put_ne g h (delete bytes_discrete r ids) (delete bytes_discrete r m.peers)
                    m (λ s. ne (encode_to_string_inj g h a b s))))
          ])
  ]

  pub holds_id-remove_peer :
      (r : Bytes)
      → holds_id g q (remove_peer h r m) ≡ (not (equal g h && equal q r) && holds_id g q m)
  holds_id-remove_peer r = ap is_some (ids_of-remove_peer r) ∙ elim (bytes_discrete g h) [
    | yes e ↦
        rw (if_pos {C = Option Unit} (bytes_discrete g h) e, (equal_iff g h).1 e)
          (ap is_some (get-delete bytes_discrete r q (ids_of g m)) ∙ elim (bytes_discrete q r) [
            | yes s ↦ rw (if_pos {C = Option Unit} (bytes_discrete q r) s, (equal_iff q r).1 s)
            | no ns ↦ rw (if_neg {C = Option Unit} (bytes_discrete q r) ns, equal_ne q r ns)
          ])
    | no ne ↦ rw (if_neg {C = Option Unit} (bytes_discrete g h) ne, equal_ne g h ne)
  ]
