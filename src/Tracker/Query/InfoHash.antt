-- ===== src/Tracker/Query/InfoHash.antt =====
-- `decodeInfoHash` of tracker/server.go on what `r.URL.Query()` has unescaped already.
use pixtorrent.Prelude.{
  ℕ, suc, ◌≤◌, ◌<◌, true, false, Option, none, some, [], ◌∷◌, map, Bytes, length, contains, ◌==◌,
  if◌then◌else◌, ◌≡◌, refl, subst, arith, Bool-cases, Option-cases, inl, inr,
}
use pixtorrent.Tracker.Query.{percent, plus, space, cons_some, query_unescape, decode_info_hash}

-- A byte of the hash behind the second unescaping.
abbrev pub plus_to_space : ℕ → ℕ
plus_to_space c = if c == plus then space else c

query_unescape-map :
    (s : Bytes) → contains percent s ≡ false → query_unescape s ≡ some (map plus_to_space s)
unfolding query_unescape
query_unescape-map [] h = refl
query_unescape-map (c ∷ []) h = ground arith
query_unescape-map (c ∷ a ∷ []) h = ground (arith, query_unescape-map (a ∷ []))
query_unescape-map (c ∷ a ∷ b ∷ s) h = ground (arith, query_unescape-map (a ∷ b ∷ s))

length-map : (s : Bytes) → length (map plus_to_space s) ≡ length s
length-map [] = refl
length-map (c ∷ s) = omega (arith, length-map s)

-- The length of a result, or 0.
abbrev size_of : Option Bytes → ℕ
size_of none = 0
size_of (some d) = length d

length-cons_some : (c : ℕ) (o : Option Bytes) → size_of (cons_some c o) ≤ suc (size_of o)
length-cons_some c none = omega arith
length-cons_some c (some d) = omega arith

length-query_unescape : (s : Bytes) → size_of (query_unescape s) ≤ length s
unfolding query_unescape
length-query_unescape [] = omega arith
length-query_unescape (c ∷ []) = ground arith
length-query_unescape (c ∷ a ∷ []) = ground (
  arith,
  length-query_unescape (a ∷ []),
  length-cons_some (plus_to_space c) (query_unescape (a ∷ [])),
)
length-query_unescape (c ∷ a ∷ b ∷ s) =
    ground (arith, length-query_unescape s, length-query_unescape (a ∷ b ∷ s))

escape_shortens : (s : Bytes) → contains percent s ≡ true → size_of (query_unescape s) < length s
unfolding query_unescape
escape_shortens [] h = cc
escape_shortens (c ∷ []) h = ground arith
escape_shortens (c ∷ a ∷ []) h = ground (arith, escape_shortens (a ∷ []))
escape_shortens (c ∷ a ∷ b ∷ s) h =
    ground (arith, length-query_unescape s, escape_shortens (a ∷ b ∷ s))

not_equal : (a b : ℕ) → a < b → (a == b) ≡ false
not_equal a b h = ground arith

-- The server unescapes the info hash a second time: of the twenty bytes that the request carried,
-- a hash with the byte of `%` is refused, and in any other the byte of `+` becomes a space.
pub decode_info_hash_lem :
    (h : Bytes)
    → length h ≡ 20
    → decode_info_hash h ≡ (if contains percent h then none else some (map plus_to_space h))
unfolding decode_info_hash
decode_info_hash_lem h n = elim (Bool-cases (contains percent h)) [
  | inl e ↦ elim (Option-cases (query_unescape h)) [
    | inl bad ↦ rw (e, bad, decode_info_hash)
    | inr (d, good) ↦
        let short : (length d == 20) ≡ false =
          not_equal (length d) 20
            (omega (arith, subst (λ o. size_of o < length h) good (escape_shortens h e))) in
        rw (e, good, decode_info_hash) (rw short)
  ]
  | inr e ↦ rw (e, query_unescape-map h e, decode_info_hash) (ground (arith, length-map h))
]
