-- ===== src/Meta/Bencode/Encode.antt =====
-- The bencode format as the comment of meta/bencode.go states it: what the decoder should undo.
use pixtorrent.Prelude.{ℕ, ◌≤◌, false, [], ◌∷◌, ◌++◌, Bytes, length, ◌≡◌}
use pixtorrent.Prelude.Int.{IsInt64}
use pixtorrent.Meta.Bencode.{
  Node, Nodes, Fields, bint, bstring, blist, bdict, no_nodes, node, no_fields, field, byte_e, colon,
  has_field,
}
use pixtorrent.Meta.Bencode.Scan.{decimal, text_of, first_digit, more_digits}

-- The first byte of a value, and the bytes behind it, in front of what follows.
abbrev pub first_byte : Node → ℕ
first_byte (bint i) = 0x69
first_byte (bstring s) = first_digit (length s)
first_byte (blist nodes) = 0x6c
first_byte (bdict pairs) = 0x64

-- A string is its length, a colon and its bytes.
unfoldable pub string_tail : Bytes → Bytes → Bytes
unfolding decimal
string_tail s rest = more_digits (length s) ++ colon ∷ (s ++ rest)

unfoldable mutual
  unfolding text_of string_tail decimal

  pub encode_tail : Node → Bytes → Bytes
  encode_tail (bint i) rest = text_of i ++ byte_e ∷ rest
  encode_tail (bstring s) rest = string_tail s rest
  encode_tail (blist nodes) rest = encode_nodes nodes (byte_e ∷ rest)
  encode_tail (bdict fields) rest = encode_fields fields (byte_e ∷ rest)

  pub encode_nodes : Nodes → Bytes → Bytes
  encode_nodes no_nodes rest = rest
  encode_nodes (node v nodes) rest = first_byte v ∷ encode_tail v (encode_nodes nodes rest)

  pub encode_fields : Fields → Bytes → Bytes
  encode_fields no_fields rest = rest
  encode_fields (field key v fields) rest =
      first_digit (length key)
      ∷ string_tail key (first_byte v ∷ encode_tail v (encode_fields fields rest))

abbrev pub encode : Node → Bytes
encode v = first_byte v ∷ encode_tail v []

-- The values that the decoder can give: integers are int64, a string is no longer than what `make`
-- can be asked for, and a dictionary has a key once.
unfoldable mutual
  pub IsEncodable : ℕ → Node → Type 0
  IsEncodable max_make (bint i) = IsInt64 i
  IsEncodable max_make (bstring s) = length s ≤ max_make
  IsEncodable max_make (blist nodes) = AreEncodable max_make nodes
  IsEncodable max_make (bdict fields) = HasEncodable max_make fields

  pub AreEncodable : ℕ → Nodes → Type 0
  AreEncodable max_make no_nodes = Unit
  AreEncodable max_make (node v nodes) = IsEncodable max_make v × AreEncodable max_make nodes

  pub HasEncodable : ℕ → Fields → Type 0
  HasEncodable max_make no_fields = Unit
  HasEncodable max_make (field key v fields) =
      (length key ≤ max_make)
      × (has_field key fields ≡ false)
      × IsEncodable max_make v
      × HasEncodable max_make fields
