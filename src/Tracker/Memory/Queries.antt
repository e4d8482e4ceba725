-- ===== src/Tracker/Memory/Queries.antt =====
-- What the queries of tracker/memory_storage.go give.
use pixtorrent.Prelude.{
  ℕ, zero, suc, ◌-◌, Bool, true, false, not, none, some, List, [], ◌∷◌, ◌++◌, map, Bytes,
  bytes_discrete, length, take, All, if◌then◌else◌, ◌≡◌, refl, sym, ap₂, length-append, ◌∙◌, arith,
  Option-cases, Bool-cases, inl, inr, append_assoc, append-nil,
}
use pixtorrent.Prelude.Int.{ℤ, pos, pos_part, ltb_ℤ}
use pixtorrent.Prelude.Maps.{get, All-get}
use pixtorrent.Tracker.Memory.{
  Peer, MemoryStorage, IdSet, ids_of, gather, get_peers, pick, is_seeder, is_leecher, twice,
  get_seeders, get_leechers, sort_out, get_torrent_stats,
}

-- The entries of some ids, those without one left out.
abbrev pub peers_in : IdSet → MemoryStorage → List Peer
peers_in [] m = []
peers_in ((id, u) ∷ ids) m = elim (get bytes_discrete id m.peers) [
  | none ↦ peers_in ids m
  | some p ↦ p ∷ peers_in ids m
]

abbrev pub select : (Peer → Bool) → List Peer → List Peer
select wanted [] = []
select wanted (p ∷ peers) = if wanted p then p ∷ select wanted peers else select wanted peers

take-nil : (n : ℕ) → take {A = Peer} n [] ≡ []
take-nil zero = refl
take-nil (suc n) = refl

gather-take :
    (max : ℤ) (count left : ℕ) (ids : IdSet) (m : MemoryStorage)
    → pos_part max - count ≡ left
    → gather max count ids m ≡ take left (peers_in ids m)
unfolding gather
gather-take max count left [] m h = sym (take-nil left)
gather-take max count zero ((id, u) ∷ ids) m h = ground arith
gather-take max count (suc left) ((id, u) ∷ ids) m h =
    ground (arith, gather-take max (suc count) left ids m, gather-take max count (suc left) ids m)

-- The peers of a torrent, up to the number asked for: the known ones among its ids, in the order
-- in which the range meets them, and none where the number is negative.
pub get_peers_lem :
    (h : Bytes) (max : ℤ) (m : MemoryStorage)
    → get_peers h max m ≡ take (pos_part max) (peers_in (ids_of h m) m)
unfolding get_peers
get_peers_lem h max m = gather-take max 0 (pos_part max) (ids_of h m) m (omega arith)

pick-take :
    (wanted : Peer → Bool) (max : ℤ) (peers seen : List Peer) (left : ℕ)
    → pos_part max - length seen ≡ left
    → pick wanted max peers seen ≡ seen ++ take left (select wanted peers)
unfolding pick
pick-take wanted max [] seen left h = rw (take-nil left) (sym (append-nil seen))
pick-take wanted max (p ∷ peers) seen zero h =
    let full : ltb_ℤ (pos (length seen)) max ≡ false = ground arith in
    elim (Bool-cases (wanted p)) [
      | inl e ↦ rw (e, full) (pick-take wanted max peers seen zero h)
      | inr e ↦ rw e (pick-take wanted max peers seen zero h)
    ]
pick-take wanted max (p ∷ peers) seen (suc left) h =
    let free : ltb_ℤ (pos (length seen)) max ≡ true = ground arith in
    elim (Bool-cases (wanted p)) [
      | inl e ↦
          rw (e, free)
            (pick-take wanted max peers (seen ++ p ∷ []) left
                (omega (arith, length-append seen (p ∷ [])))
              ∙ append_assoc seen (p ∷ []) (take left (select wanted peers)))
      | inr e ↦ rw e (pick-take wanted max peers seen (suc left) h)
    ]

-- `GetSeeders` looks through the first peers of a torrent, twice as many as asked for, and gives
-- those of them that have nothing left, up to the number asked for; `GetLeechers` likewise those
-- that have something left.
pub get_seeders_lem :
    (h : Bytes) (max : ℤ) (m : MemoryStorage)
    → (get_seeders h max m
        ≡ take
            (pos_part max)
            (select is_seeder (take (pos_part (twice max)) (peers_in (ids_of h m) m))))
      × (get_leechers h max m
          ≡ take
              (pos_part max)
              (select is_leecher (take (pos_part (twice max)) (peers_in (ids_of h m) m))))
unfolding get_seeders get_leechers
get_seeders_lem h max m =
    let first = take (pos_part (twice max)) (peers_in (ids_of h m) m) in
    rw (get_peers_lem h (twice max) m) (
      pick-take is_seeder max first [] (pos_part max) (omega arith),
      pick-take is_leecher max first [] (pos_part max) (omega arith),
    )

sort_out-select :
    (ids : IdSet) (m : MemoryStorage)
    → All (λ e. e.1.id ≡ e.0) m.peers
    → ((sort_out ids m).0 ≡ map (λ p. p.id) (select is_seeder (peers_in ids m)))
      × ((sort_out ids m).1 ≡ map (λ p. p.id) (select (λ p. not (is_seeder p)) (peers_in ids m)))
unfolding sort_out
sort_out-select [] m own = (refl, refl)
sort_out-select ((id, u) ∷ ids) m own = elim (Option-cases (get bytes_discrete id m.peers)) [
  | inl e ↦ rw (e, sort_out, peers_in) (sort_out-select ids m own)
  | inr (p, e) ↦
      let own_id : p.id ≡ id = All-get bytes_discrete (λ e. e.1.id ≡ e.0) id m.peers own e in
      rw (e, sort_out, peers_in)
        (elim (Bool-cases (is_seeder p)) [
          | inl seeds ↦
              rw seeds
                (ap₂ ◌∷◌ (sym own_id) (sort_out-select ids m own).0, (sort_out-select ids m own).1)
          | inr leeches ↦
              rw leeches
                ((sort_out-select ids m own).0, ap₂ ◌∷◌ (sym own_id) (sort_out-select ids m own).1)
        ])
]

-- The two lists of `GetTorrentStats` split the known peers of the torrent: the ids of those with
-- nothing left, and the ids of the others, each in order. Every peer stands under its own id.
pub get_torrent_stats_lem :
    (h : Bytes) (m : MemoryStorage)
    → All (λ e. e.1.id ≡ e.0) m.peers
    → ((get_torrent_stats h m).seeders
        ≡ map (λ p. p.id) (select is_seeder (peers_in (ids_of h m) m)))
      × ((get_torrent_stats h m).leechers
          ≡ map (λ p. p.id) (select (λ p. not (is_seeder p)) (peers_in (ids_of h m) m)))
unfolding get_torrent_stats
get_torrent_stats_lem h m own = sort_out-select (ids_of h m) m own
