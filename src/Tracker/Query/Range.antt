-- ===== src/Tracker/Query/Range.antt =====
-- The ranges of what tracker/server.go reads from a request.
use pixtorrent.Prelude.{
  ℕ, ◌+◌, ◌*◌, ◌<◌, Bool, true, false, ◌&&◌, Option, none, some, [], ◌∷◌, Bytes, length, IsByte,
  All, ◌==◌, if◌then◌else◌, ◌≡◌, arith, subst, Bool-cases, Option-cases, inl, inr,
}
use pixtorrent.Prelude.Int.{IsInt64}
use pixtorrent.Tracker.Query.{
  Digits, number, bad_syntax, out_of_range, plus, minus, percent, space, is_hex, unhex, cons_some,
  signed, query_unescape, decode_info_hash, parse_unsigned, parse_int,
}

signed-IsInt64 : (neg : Bool) (d : Digits) → IsInt64 (signed neg d)
signed-IsInt64 true (number n) = ground arith
signed-IsInt64 false (number n) = ground arith
signed-IsInt64 true bad_syntax = omega arith
signed-IsInt64 false bad_syntax = omega arith
signed-IsInt64 true out_of_range = omega arith
signed-IsInt64 false out_of_range = omega arith

-- A number that is read is an int64, whatever the text.
pub parse_int-IsInt64 : (s : Bytes) → IsInt64 (parse_int s)
unfolding parse_int
parse_int-IsInt64 [] = omega arith
parse_int-IsInt64 (c ∷ cs) = elim (Bool-cases (c == plus)) [
  | inl e ↦ rw e (signed-IsInt64 false (parse_unsigned cs))
  | inr e ↦ elim (Bool-cases (c == minus)) [
    | inl k ↦ rw (e, k) (signed-IsInt64 true (parse_unsigned cs))
    | inr k ↦ rw (e, k) (signed-IsInt64 false (parse_unsigned (c ∷ cs)))
  ]
]

-- The bytes of a result, if there is one.
abbrev pub AreBytes : Option Bytes → Type 0
AreBytes none = Unit
AreBytes (some s) = All IsByte s

cons_some-AreBytes : (c : ℕ) (o : Option Bytes) → c < 256 → AreBytes o → AreBytes (cons_some c o)
cons_some-AreBytes c none h k = tt
cons_some-AreBytes c (some s) h k = (h, k)

unhex-small : (c : ℕ) → is_hex c ≡ true → unhex c < 16
unhex-small c h = ground arith

spaced-IsByte : (c : ℕ) → c < 256 → (if c == plus then space else c) < 256
spaced-IsByte c h = ground arith

hex_digits : (a b : ℕ) → (is_hex a && is_hex b) ≡ true → unhex a * 16 + unhex b < 256
hex_digits a b h = elim (Bool-cases (is_hex a)) [
  | inl e ↦ let k : is_hex b ≡ true = rw e at h in omega (arith, unhex-small a e, unhex-small b k)
  | inr e ↦ absurd (no_truth (rw e at h))
]
  where
    no_truth : false ≡ true → ⊥
    no_truth k = cc

query_unescape-AreBytes : (s : Bytes) → All IsByte s → AreBytes (query_unescape s)
unfolding query_unescape
query_unescape-AreBytes [] h = tt
query_unescape-AreBytes (c ∷ []) h = elim (Bool-cases (c == percent)) [
  | inl e ↦ rw e tt
  | inr e ↦ rw e (spaced-IsByte c h.0, tt)
]
query_unescape-AreBytes (c ∷ a ∷ []) h = elim (Bool-cases (c == percent)) [
  | inl e ↦ rw (e, query_unescape) tt
  | inr e ↦
      rw (e, query_unescape)
        (cons_some-AreBytes _ (query_unescape (a ∷ [])) (spaced-IsByte c h.0)
          (query_unescape-AreBytes (a ∷ []) h.1))
]
query_unescape-AreBytes (c ∷ a ∷ b ∷ s) h = elim (Bool-cases (c == percent)) [
  | inl e ↦ elim (Bool-cases (is_hex a && is_hex b)) [
    | inl k ↦
        rw (e, k, query_unescape)
          (cons_some-AreBytes _ (query_unescape s) (hex_digits a b k)
            (query_unescape-AreBytes s h.1.1.1))
    | inr k ↦ rw (e, k, query_unescape) tt
  ]
  | inr e ↦
      rw (e, query_unescape)
        (cons_some-AreBytes _ (query_unescape (a ∷ b ∷ s)) (spaced-IsByte c h.0)
          (query_unescape-AreBytes (a ∷ b ∷ s) h.1))
]

decode_info_hash-AreBytes : (s : Bytes) → All IsByte s → AreBytes (decode_info_hash s)
unfolding decode_info_hash
decode_info_hash-AreBytes s bytes = elim (Option-cases (query_unescape s)) [
  | inl bad ↦ rw (bad, decode_info_hash) tt
  | inr (d, good) ↦
      rw (good, decode_info_hash)
        (elim (Bool-cases (length d == 20)) [
          | inl e ↦ rw e (subst AreBytes good (query_unescape-AreBytes s bytes))
          | inr e ↦ rw e tt
        ])
]

-- A hash that is read from bytes consists of bytes.
pub decode_info_hash-IsByte :
    (s h : Bytes) → All IsByte s → decode_info_hash s ≡ some h → All IsByte h
decode_info_hash-IsByte s h bytes e = subst AreBytes e (decode_info_hash-AreBytes s bytes)
