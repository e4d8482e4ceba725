-- ===== src/Tracker/Query.antt =====
-- What tracker/server.go reads from a request: `strconv.ParseInt`, `url.QueryUnescape` and
-- `decodeInfoHash`. A string is its bytes.
pub mod Decimal
pub mod Range
pub mod InfoHash
use pixtorrent.Prelude.{
  ℕ, zero, suc, ◌+◌, ◌*◌, ◌-◌, ◌^◌, Bool, true, false, ◌&&◌, ◌||◌, Option, none, some, List, [],
  ◌∷◌, Bytes, length, leb, ltb, ◌==◌, if◌then◌else◌,
}
use pixtorrent.Prelude.Int.{ℤ, pos, negsuc}

abbrev pub percent : ℕ
percent = 0x25

abbrev pub plus : ℕ
plus = 0x2b

abbrev pub minus : ℕ
minus = 0x2d

abbrev pub space : ℕ
space = 0x20

abbrev pub is_between : ℕ → ℕ → ℕ → Bool
is_between lo hi c = leb lo c && leb c hi

abbrev pub is_digit : ℕ → Bool
is_digit = is_between 48 57

abbrev pub is_hex : ℕ → Bool
is_hex c = is_digit c || (is_between 97 102 c || is_between 65 70 c)

abbrev pub unhex : ℕ → ℕ
unhex c = if is_digit c then c - 48 else if is_between 97 102 c then c - 87 else c - 55

abbrev pub cons_some : ℕ → Option Bytes → Option Bytes
cons_some c none = none
cons_some c (some cs) = some (c ∷ cs)

-- `url.QueryUnescape`; `none` is its error.
unfoldable pub query_unescape : Bytes → Option Bytes
query_unescape [] = some []
query_unescape (c ∷ []) =
    if c == percent then none else some ((if c == plus then space else c) ∷ [])
query_unescape (c ∷ a ∷ []) = elim (c == percent) [
  | true ↦ none
  | false ↦ cons_some (if c == plus then space else c) (query_unescape (a ∷ []))
]
query_unescape (c ∷ a ∷ b ∷ cs) = elim (c == percent) [
  | true ↦ elim (is_hex a && is_hex b) [
    | true ↦ cons_some (unhex a * 16 + unhex b) (query_unescape cs)
    | false ↦ none
  ]
  | false ↦ cons_some (if c == plus then space else c) (query_unescape (a ∷ b ∷ cs))
]

unfoldable pub decode_info_hash : Bytes → Option Bytes
unfolding query_unescape
decode_info_hash info_hash_str = elim (query_unescape info_hash_str) [
  | none ↦ none
  | some decoded ↦ if length decoded == 20 then some decoded else none
]

-- The digits of `strconv.ParseUint`, read one by one: the number, a bad character, or the first
-- digit that leaves the range of uint64.
pub data Digits : Type 0 where
  number : ℕ → Digits
  bad_syntax out_of_range : Digits

unfoldable pub parse_digits : ℕ → Bytes → Digits
parse_digits n [] = number n
parse_digits n (c ∷ cs) = elim (is_digit c) [
  | false ↦ bad_syntax
  | true ↦ elim (ltb (n * 10 + (c - 48)) (2 ^ 64)) [
    | true ↦ parse_digits (n * 10 + (c - 48)) cs
    | false ↦ out_of_range
  ]
]

-- The int64 that stands beside the error, too, which the callers drop.
abbrev pub signed : Bool → Digits → ℤ
signed neg bad_syntax = pos 0
signed true (number n) =
    if leb n (2 ^ 63) then (if n == 0 then pos 0 else negsuc (n - 1)) else negsuc (2 ^ 63 - 1)
signed true out_of_range = negsuc (2 ^ 63 - 1)
signed false (number n) = if ltb n (2 ^ 63) then pos n else pos (2 ^ 63 - 1)
signed false out_of_range = pos (2 ^ 63 - 1)

unfoldable pub parse_unsigned : Bytes → Digits
unfolding parse_digits
parse_unsigned [] = bad_syntax
parse_unsigned (c ∷ cs) = parse_digits 0 (c ∷ cs)

-- The value of `strconv.ParseInt(s, 10, 64)` and of `strconv.Atoi(s)`.
unfoldable pub parse_int : Bytes → ℤ
unfolding parse_unsigned
parse_int [] = pos 0
parse_int (c ∷ cs) =
    if c == plus
    then signed false (parse_unsigned cs)
    else if c == minus
    then signed true (parse_unsigned cs)
    else signed false (parse_unsigned (c ∷ cs))
