-- ===== src/Meta/Bencode/RoundTrip.antt =====
-- The decoder of meta/bencode.go undoes the encoding.
use pixtorrent.Prelude.{
  ℕ, zero, suc, ◌+◌, ◌*◌, ◌^◌, ◌≤◌, ◌<◌, Bool, true, false, some, [], ◌∷◌, ◌++◌, Bytes, length, ltb,
  ◌≡◌, refl, sym, ap, subst, ◌∙◌, arith, length-append, take-append, drop-append,
}
use pixtorrent.Prelude.Int.{ℤ, pos, IsInt64}
use pixtorrent.Meta.Bencode.{
  Node, Nodes, Fields, bint, bstring, blist, bdict, no_nodes, node, no_fields, field, Kind, int,
  string, list, dict, end, other, kind_of, ok, and_then, sscanf_int, parse_int, read_content,
  parse_string, decode_node, parse_list, parse_dict, decode_at, fuel_for, decode, byte_e, colon,
  has_field, write_field,
}
use pixtorrent.Meta.Bencode.Encode.{
  first_byte, string_tail, encode_tail, encode_nodes, encode_fields, encode, IsEncodable,
  AreEncodable, HasEncodable,
}
use pixtorrent.Meta.Bencode.Fuel.{Settled, decode_node-Settled}
use pixtorrent.Meta.Bencode.Scan.{
  IsDecimal, decimal-split, digits-IsDecimal, first_digit, more_digits, more_digits-colon, text_of,
  text_of-byte_e, sscanf_int-decimal, sscanf_int-text_of, read_until-append,
}

parse_int-text_of :
    (i : ℤ) (rest : Bytes) → IsInt64 i → parse_int (text_of i ++ byte_e ∷ rest) ≡ ok i rest
unfolding parse_int
parse_int-text_of i rest h =
    rw (read_until-append byte_e (text_of i) rest (text_of-byte_e i), parse_int)
      (rw (sscanf_int-text_of i h))

parse_string-string_tail :
    (max_make : ℕ) (s rest : Bytes)
    → max_make < 2 ^ 63
    → length s ≤ max_make
    → parse_string max_make (first_digit (length s)) (string_tail s rest) ≡ ok s rest
unfolding parse_string string_tail read_content
parse_string-string_tail max_make s rest small h =
    let text : sscanf_int (first_digit (length s) ∷ more_digits (length s))
        ≡ some (pos (length s)) =
      ap sscanf_int (sym (decimal-split (length s)))
      ∙ sscanf_int-decimal (length s) (omega arith) in
    let allowed : ltb max_make (length s) ≡ false = ground arith in
    let there : ltb (length (s ++ rest)) (length s) ≡ false =
      ground (arith, length-append s rest) in
    rw
      (
        read_until-append colon (more_digits (length s)) (s ++ rest) (more_digits-colon (length s)),
        parse_string,
      )
      (rw text (
        rw
          (allowed, there, take-append s rest (length s) refl, drop-append s rest (length s) refl)))

kind_of-digit : (c : ℕ) → IsDecimal c → kind_of c ≡ string
unfolding kind_of IsDecimal
kind_of-digit c h = ground arith

kind_of-first_digit : (n : ℕ) → kind_of (first_digit n) ≡ string
kind_of-first_digit n = kind_of-digit (first_digit n) (digits-IsDecimal n).0

-- The kinds of the bytes that begin a value.
abbrev is_value : Kind → Bool
is_value int = true
is_value string = true
is_value list = true
is_value dict = true
is_value end = false
is_value other = false

first_byte-is_value : (v : Node) → is_value (kind_of (first_byte v)) ≡ true
unfolding kind_of
first_byte-is_value (bint i) = refl
first_byte-is_value (bstring s) = rw (kind_of-first_digit (length s))
first_byte-is_value (blist nodes) = refl
first_byte-is_value (bdict pairs) = refl

parse_list-value :
    (fuel max_make c : ℕ) (s : Bytes)
    → is_value (kind_of c) ≡ true
    → parse_list (suc fuel) max_make (c ∷ s)
      ≡ and_then
          (decode_node fuel max_make c s)
          (λ v t. and_then (parse_list fuel max_make t) (λ nodes u. ok (node v nodes) u))
unfolding parse_list
parse_list-value fuel max_make c s h = go (kind_of c) refl
  where
    go :
        (k : Kind)
        → kind_of c ≡ k
        → parse_list (suc fuel) max_make (c ∷ s)
          ≡ and_then
              (decode_node fuel max_make c s)
              (λ v t. and_then (parse_list fuel max_make t) (λ nodes u. ok (node v nodes) u))
    go int e = rw (e, parse_list)
    go string e = rw (e, parse_list)
    go list e = rw (e, parse_list)
    go dict e = rw (e, parse_list)
    go end e = absurd (ground arith)
    go other e = absurd (ground arith)

length-string_tail : (s rest : Bytes) → suc (length rest) ≤ length (string_tail s rest)
unfolding string_tail
length-string_tail s rest =
    omega
      (arith, length-append (more_digits (length s)) (colon ∷ (s ++ rest)), length-append s rest)

-- What a value leaves is no longer than what was there.
shorter :
    (fuel max_make c : ℕ) (s t : Bytes) (v : Node)
    → 2 * length s + 2 ≤ fuel
    → decode_node fuel max_make c s ≡ ok v t
    → length t ≤ length s
shorter fuel max_make c s t v h e =
    subst (Settled (length s)) e (decode_node-Settled fuel max_make c s h)

added :
    (key : Bytes) (v : Node) (pairs : Fields) (rest : Bytes)
    → has_field key pairs ≡ false
    → ok (write_field key v pairs) rest ≡ ok (field key v pairs) rest
unfolding write_field
added key v pairs rest h = rw h

module _ (max_make : ℕ) (small : max_make < 2 ^ 63) where
  mutual
    unfolding decode_node parse_list parse_dict decode_at encode_tail encode_nodes encode_fields
        IsEncodable AreEncodable HasEncodable kind_of

    decode_node-encode_tail :
        (v : Node) (fuel : ℕ) (rest : Bytes)
        → IsEncodable max_make v
        → 2 * length (encode_tail v rest) + 2 ≤ fuel
        → decode_node fuel max_make (first_byte v) (encode_tail v rest) ≡ ok v rest
    decode_node-encode_tail v zero rest h k = absurd (omega arith)
    decode_node-encode_tail (bint i) (suc fuel) rest h k = rw (parse_int-text_of i rest h)
    decode_node-encode_tail (bstring s) (suc fuel) rest h k =
        rw (kind_of-first_digit (length s), decode_node)
          (rw (parse_string-string_tail max_make s rest small h))
    decode_node-encode_tail (blist nodes) (suc fuel) rest h k =
        rw (parse_list-encode_nodes nodes fuel rest h (omega arith))
    decode_node-encode_tail (bdict pairs) (suc fuel) rest h k =
        rw (parse_dict-encode_fields pairs fuel rest h (omega arith))

    parse_list-encode_nodes :
        (nodes : Nodes) (fuel : ℕ) (rest : Bytes)
        → AreEncodable max_make nodes
        → 2 * length (encode_nodes nodes (byte_e ∷ rest)) + 1 ≤ fuel
        → parse_list fuel max_make (encode_nodes nodes (byte_e ∷ rest)) ≡ ok nodes rest
    parse_list-encode_nodes nodes zero rest h k = absurd (omega arith)
    parse_list-encode_nodes no_nodes (suc fuel) rest h k = refl
    parse_list-encode_nodes (node v nodes) (suc fuel) rest h k =
        let later = encode_nodes nodes (byte_e ∷ rest) in
        let here = decode_node-encode_tail v fuel later h.0 (omega arith) in
        let less =
          shorter fuel max_make (first_byte v) (encode_tail v later) later v (omega arith) here in
        parse_list-value fuel max_make (first_byte v) (encode_tail v later) (first_byte-is_value v)
        ∙ rw here (rw (parse_list-encode_nodes nodes fuel rest h.1 (omega (arith, less))))

    parse_dict-encode_fields :
        (pairs : Fields) (fuel : ℕ) (rest : Bytes)
        → HasEncodable max_make pairs
        → 2 * length (encode_fields pairs (byte_e ∷ rest)) + 1 ≤ fuel
        → parse_dict fuel max_make (encode_fields pairs (byte_e ∷ rest)) ≡ ok pairs rest
    parse_dict-encode_fields pairs zero rest h k = absurd (omega arith)
    parse_dict-encode_fields no_fields (suc fuel) rest h k = refl
    parse_dict-encode_fields (field key v pairs) (suc zero) rest h k = absurd (omega arith)
    parse_dict-encode_fields (field key v pairs) (suc (suc fuel)) rest h k =
        let later = encode_fields pairs (byte_e ∷ rest) in
        let value = first_byte v ∷ encode_tail v later in
        let long = length-string_tail key value in
        let here = decode_node-encode_tail v fuel later h.2 (omega (arith, long)) in
        let less =
          shorter fuel max_make (first_byte v) (encode_tail v later) later v (omega (arith, long))
            here in
        let tail = parse_dict-encode_fields pairs (suc fuel) rest h.3 (omega (arith, long, less)) in
        rw (kind_of-first_digit (length key), parse_dict)
          (rw (parse_string-string_tail max_make key value small h.0)
            (rw (here, decode_at) (rw tail (added key v pairs rest h.1))))

decode_at-cons :
    (max_make fuel fuel' c : ℕ) (s : Bytes)
    → fuel ≡ suc fuel'
    → decode_at fuel max_make (c ∷ s) ≡ decode_node fuel' max_make c s
unfolding decode_at
decode_at-cons max_make fuel fuel' c s e = rw e

-- Decoding undoes the encoding: a value whose integers are int64, whose strings can be allocated
-- and whose dictionaries have a key once is read back from its encoding, with nothing left. The
-- greatest length that can be allocated is below 2 ^ 63.
pub decode-encode :
    (max_make : ℕ) (v : Node)
    → max_make < 2 ^ 63
    → IsEncodable max_make v
    → decode max_make (encode v) ≡ ok v []
unfolding decode decode_at
decode-encode max_make v small h =
    decode_at-cons max_make (fuel_for (length (encode v))) (2 * length (encode_tail v []) + 2)
      (first_byte v) (encode_tail v []) (omega arith)
    ∙ decode_node-encode_tail max_make small v (2 * length (encode_tail v []) + 2) [] h
        (omega arith)
