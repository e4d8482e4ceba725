-- ===== src/Meta/Bencode.antt =====
-- meta/bencode.go: the decoder. A reader over bytes is the list of the bytes to come; `Sscanf` with
-- "%d" is written out as far as the decoder uses it. `string(char[0])` of a byte from 0x80 on is a
-- rune of that number, so the text that `Sscanf` reads is the list of the bytes as runes. The
-- greatest length for which `make` does not panic is an argument.
pub mod Scan
pub mod Encode
pub mod Fuel
pub mod RoundTrip
use pixtorrent.Prelude.{
  ℕ, zero, suc, ◌+◌, ◌*◌, ◌-◌, ◌^◌, Bool, true, false, ◌&&◌, ◌||◌, Option, none, some, List, [],
  ◌∷◌, Bytes, bytes_discrete, length, take, drop, leb, ltb, ◌==◌, if◌then◌else◌, ite,
}
use pixtorrent.Prelude.Int.{ℤ, pos, negsuc}

mutual
  pub data Node : Type 0 where
    bint : ℤ → Node
    bstring : Bytes → Node
    blist : Nodes → Node
    bdict : Fields → Node

  pub data Nodes : Type 0 where
    no_nodes : Nodes
    node : Node → Nodes → Nodes

  pub data Fields : Type 0 where
    no_fields : Fields
    field : Bytes → Node → Fields → Fields

abbrev pub byte_e : ℕ
byte_e = 0x65

abbrev pub colon : ℕ
colon = 0x3a

abbrev pub is_decimal : ℕ → Bool
is_decimal c = leb 48 c && leb c 57

-- The first byte of a value, as the switches of the decoder tell it apart.
pub data Kind : Type 0 where
  int string list dict end other : Kind

unfoldable pub kind_of : ℕ → Kind
kind_of c =
    if c == 0x69
    then int
    else if is_decimal c
    then string
    else if c == 0x6c
    then list
    else if c == 0x64
    then dict
    else if c == byte_e
    then end
    else other

-- How a parser ends: with a value and what is left, with an error, or with a panic.
pub data Result (A : Type 0) : Type 0 where
  ok : A → Bytes → Result A
  fail panic out_of_fuel : Result A

abbrev pub and_then : {A B : Type 0} → Result A → (A → Bytes → Result B) → Result B
and_then (ok a s) k = k a s
and_then fail k = fail
and_then panic k = panic
and_then out_of_fuel k = out_of_fuel

-- The loop that reads up to a mark.
unfoldable pub read_until : ℕ → Bytes → Option (Bytes × Bytes)
read_until mark [] = none
read_until mark (c ∷ s) = elim (c == mark) [
  | true ↦ some ([], s)
  | false ↦ elim (read_until mark s) [ none ↦ none | some r ↦ some (c ∷ r.0, r.1) ]
]

-- `SkipSpace`: the spaces below 0x100, of which a newline is an error.
unfoldable pub skip_space : Bytes → Option Bytes
skip_space [] = some []
skip_space (c ∷ s) = elim (c == 0x0a) [
  | true ↦ none
  | false ↦ elim ((leb 9 c && leb c 13) || ((c == 0x20) || ((c == 0x85) || (c == 0xa0)))) [
    | true ↦ skip_space s
    | false ↦ some (c ∷ s)
  ]
]

-- The digits at the front, onto the number so far; what follows them is not read.
unfoldable pub scan_digits : ℕ → Bytes → ℕ
scan_digits n [] = n
scan_digits n (c ∷ s) = elim (is_decimal c) [ true ↦ scan_digits (n * 10 + (c - 48)) s | false ↦ n ]

-- Digits, of which there must be one, as an int64 with the sign.
unfoldable pub scan_number : Bool → Bytes → Option ℤ
unfolding scan_digits
scan_number neg [] = none
scan_number neg (c ∷ s) =
    let n = scan_digits 0 (c ∷ s) in
    if is_decimal c
    then if neg
      then if leb n (2 ^ 63) then some (if n == 0 then pos 0 else negsuc (n - 1)) else none
      else if ltb n (2 ^ 63)
      then some (pos n)
      else none
    else none

-- The sign, if there is one.
unfoldable pub scan_signed : Bytes → Option ℤ
unfolding scan_number
scan_signed [] = none
scan_signed (c ∷ s) =
    if c == 0x2d
    then scan_number true s
    else if c == 0x2b
    then scan_number false s
    else scan_number false (c ∷ s)

-- `fmt.Sscanf(text, "%d", &i)`
unfoldable pub sscanf_int : Bytes → Option ℤ
unfolding skip_space scan_signed
sscanf_int text = elim (skip_space text) [ none ↦ none | some s ↦ scan_signed s ]

unfoldable pub parse_int : Bytes → Result ℤ
unfolding read_until sscanf_int
parse_int s = elim (read_until byte_e s) [
  | none ↦ fail
  | some r ↦ elim (sscanf_int r.0) [ none ↦ fail | some i ↦ ok i r.1 ]
]

-- `make` and `io.ReadFull` of a length.
unfoldable pub read_content : ℕ → ℤ → Bytes → Result Bytes
read_content max_make (negsuc n) s = panic
read_content max_make (pos n) s =
    if ltb max_make n then panic else if ltb (length s) n then fail else ok (take n s) (drop n s)

unfoldable pub parse_string : ℕ → ℕ → Bytes → Result Bytes
unfolding read_until sscanf_int read_content
parse_string max_make first_digit s = elim (read_until colon s) [
  | none ↦ fail
  | some r ↦ elim (sscanf_int (first_digit ∷ r.0)) [
    | none ↦ fail
    | some n ↦ read_content max_make n r.1
  ]
]

unfoldable pub has_field : Bytes → Fields → Bool
has_field key no_fields = false
has_field key (field k v fields) = ite (bytes_discrete key k) true (has_field key fields)

-- `dict[key] = value` ahead of the writes that the rest of the loop makes, which win.
unfoldable pub write_field : Bytes → Node → Fields → Fields
unfolding has_field
write_field key value later = if has_field key later then later else field key value later

-- `Decode` and the two loops that call it again; the first byte of a value has been read. Fuel
-- bounds the depth of the calls and the rounds of the loops.
unfoldable mutual
  unfolding kind_of parse_int parse_string write_field

  pub decode_node : ℕ → ℕ → ℕ → Bytes → Result Node
  decode_node zero max_make c s = out_of_fuel
  decode_node (suc fuel) max_make c s = elim (kind_of c) [
    | int ↦ and_then (parse_int s) (λ i t. ok (bint i) t)
    | string ↦ and_then (parse_string max_make c s) (λ str t. ok (bstring str) t)
    | list ↦ and_then (parse_list fuel max_make s) (λ nodes t. ok (blist nodes) t)
    | dict ↦ and_then (parse_dict fuel max_make s) (λ fields t. ok (bdict fields) t)
    | end ↦ fail
    | other ↦ fail
  ]

  pub parse_list : ℕ → ℕ → Bytes → Result Nodes
  parse_list zero max_make s = out_of_fuel
  parse_list (suc fuel) max_make [] = fail
  parse_list (suc fuel) max_make (c ∷ s) = elim (kind_of c) [
    | end ↦ ok no_nodes s
    | other ↦ fail
    | _ ↦
        and_then (decode_node fuel max_make c s)
          (λ v t. and_then (parse_list fuel max_make t) (λ nodes u. ok (node v nodes) u))
  ]

  pub parse_dict : ℕ → ℕ → Bytes → Result Fields
  parse_dict zero max_make s = out_of_fuel
  parse_dict (suc fuel) max_make [] = fail
  parse_dict (suc fuel) max_make (c ∷ s) = elim (kind_of c) [
    | end ↦ ok no_fields s
    | string ↦ and_then (parse_string max_make c s) (λ key t.
        and_then (decode_at fuel max_make t) (λ v u.
          and_then (parse_dict fuel max_make u) (λ fields w. ok (write_field key v fields) w)))
    | _ ↦ fail
  ]

  pub decode_at : ℕ → ℕ → Bytes → Result Node
  decode_at zero max_make s = out_of_fuel
  decode_at (suc fuel) max_make [] = fail
  decode_at (suc fuel) max_make (c ∷ s) = decode_node fuel max_make c s

-- Fuel for an input of some length; it is enough.
abbrev pub fuel_for : ℕ → ℕ
fuel_for n = 2 * n + 1

unfoldable pub decode : ℕ → Bytes → Result Node
unfolding decode_at
decode max_make input = decode_at (fuel_for (length input)) max_make input
