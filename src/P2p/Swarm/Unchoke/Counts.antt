-- ===== src/P2p/Swarm/Unchoke/Counts.antt =====
-- Counting the entries of a table by their keys.
use pixtorrent.Prelude.{
  ℕ, ◌+◌, ◌≤◌, Bool, true, false, ◌||◌, [], ◌∷◌, Bytes, length, if◌then◌else◌, bytes_discrete, ◌≡◌,
  refl, subst, arith, Bool-cases, inl, inr,
}
use pixtorrent.Prelude.Maps.{Map, get, IsMap, IsAbsent}
use pixtorrent.P2p.Pieces.Verify.{equal_iff}
use pixtorrent.P2p.Pieces.{equal}
use pixtorrent.P2p.Swarm.Unchoke.{chosen}

-- The entries of a table whose key satisfies a test.
abbrev pub count_keys : {V : Type 0} → (Bytes → Bool) → Map Bytes V → ℕ
count_keys p [] = 0
count_keys p ((id, v) ∷ m) = (if p id then 1 else 0) + count_keys p m

count_keys-absent :
    {V : Type 0} (x : Bytes) (m : Map Bytes V)
    → IsAbsent bytes_discrete x m
    → count_keys (λ id. equal id x) m ≡ 0
count_keys-absent x [] h = refl
count_keys-absent x ((id, v) ∷ m) h = ground (arith, equal_iff id x, count_keys-absent x m h.1)

count_keys_one :
    {V : Type 0} (x : Bytes) (m : Map Bytes V)
    → IsMap bytes_discrete m
    → count_keys (λ id. equal id x) m ≤ 1
count_keys_one x [] h = omega arith
count_keys_one x ((id, v) ∷ m) h = elim (Bool-cases (equal id x)) [
  | inl e ↦
      let same = (equal_iff id x).0 e in
      rw e
        (omega (arith, count_keys-absent x m (subst (λ k. IsAbsent bytes_discrete k m) same h.0)))
  | inr e ↦ rw e (omega (arith, count_keys_one x m h.1))
]

count_keys-or :
    {V : Type 0} (p q r : Bytes → Bool) (m : Map Bytes V)
    → ((id : Bytes) → p id ≡ true → (q id || r id) ≡ true)
    → count_keys p m ≤ count_keys q m + count_keys r m
count_keys-or p q r [] h = omega arith
count_keys-or p q r ((id, v) ∷ m) h = ground (arith, h id, count_keys-or p q r m h)

count_keys-false :
    {V : Type 0} (p : Bytes → Bool) (m : Map Bytes V)
    → ((id : Bytes) → p id ≡ false)
    → count_keys p m ≡ 0
count_keys-false p [] h = refl
count_keys-false p ((id, v) ∷ m) h = ground (arith, h id, count_keys-false p m h)

by_head :
    (x : Bytes) (b : Bool) (cs : Map Bytes Bool) (id : Bytes)
    → chosen id ((x, b) ∷ cs) ≡ true
    → (equal id x || chosen id cs) ≡ true
unfolding chosen get
by_head x b cs id e = ground (arith, equal_iff id x)

-- A set of chosen ids picks at most as many entries of a table as it has members.
pub count_chosen-le :
    {V : Type 0} (chosen_ids : Map Bytes Bool) (m : Map Bytes V)
    → IsMap bytes_discrete m
    → count_keys (λ id. chosen id chosen_ids) m ≤ length chosen_ids
unfolding chosen get
count_chosen-le [] m h = omega (arith, count_keys-false (λ id. false) m (λ id. refl))
count_chosen-le ((x, b) ∷ cs) m h = omega (
  arith,
  count_keys-or (λ id. chosen id ((x, b) ∷ cs)) (λ id. equal id x) (λ id. chosen id cs) m
      (λ id. by_head x b cs id),
  count_keys_one x m h,
  count_chosen-le cs m h,
)
