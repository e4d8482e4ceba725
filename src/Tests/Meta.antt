-- ===== src/Tests/Meta.antt =====
-- meta/ at small inputs.
use pixtorrent.Prelude.{
  some, replicate, ℕ, ◌^◌, List, [], ◌∷◌, Bytes, bytes_discrete, codes, length, false, ◌≡◌, refl,
  arith,
}
use pixtorrent.Meta.Torrent.{InfoDict, encode_bencode_info_dict, parse_info_dict}
use pixtorrent.Meta.Torrent.InfoFields.{info_fields, restored, encode-parse_info_dict}
use pixtorrent.Prelude.Int.{pos, negsuc}
use pixtorrent.Meta.Bencode.{
  Node, bint, bstring, blist, bdict, no_nodes, node, no_fields, field, ok, decode, has_field,
}
use pixtorrent.Meta.Bencode.Encode.{encode, IsEncodable}
use pixtorrent.Meta.Bencode.Fuel.{Settled, decode-Settled}
use pixtorrent.Meta.Bencode.RoundTrip.{decode-encode}

-- { "bar": "spam", "foo": [42, -7] }
abbrev value : Node
value = bdict (
    field (codes "bar") (bstring (codes "spam")) (
      field (codes "foo") (blist (node (bint (pos 42)) (node (bint (negsuc 6)) no_nodes)))
        no_fields))

value-IsEncodable : IsEncodable (2 ^ 48) value
unfolding IsEncodable has_field bytes_discrete pixtorrent.Prelude.ℕ_discrete
value-IsEncodable =
    (omega arith, refl, omega arith, (omega arith, refl, (omega arith, (omega arith, tt)), tt))

decode-encode_example : decode (2 ^ 48) (encode value) ≡ ok value []
decode-encode_example = decode-encode (2 ^ 48) value (omega arith) value-IsEncodable

-- An input that ends inside a string.
decode-Settled_example : Settled 4 (decode (2 ^ 48) (codes "5:ab"))
decode-Settled_example = decode-Settled (2 ^ 48) (codes "5:ab")

-- A torrent of one file of 42 bytes.
abbrev info : InfoDict
info = record {
  name = codes "a.txt";
  length = pos 42;
  files = [];
  piece_length = pos 64;
  pieces = replicate 20 1;
  private = pos 0;
}

info-IsEncodable : IsEncodable (2 ^ 48) (bdict (info_fields info))
unfolding IsEncodable info_fields has_field bytes_discrete pixtorrent.Prelude.ℕ_discrete
info-IsEncodable = (
  omega arith,
  refl,
  omega arith,
  (
    omega arith,
    refl,
    omega arith,
    (omega arith, refl, omega arith, (omega arith, refl, omega arith, tt)),
  ),
)

encode-parse_info_dict_example :
    (decode (2 ^ 48) (encode_bencode_info_dict info) ≡ ok (bdict (info_fields info)) [])
    × (parse_info_dict (info_fields info) ≡ restored info)
encode-parse_info_dict_example = encode-parse_info_dict (2 ^ 48) info (omega arith) info-IsEncodable

-- The restored dictionary is the one that was written.
restored_run : restored info ≡ some info
restored_run = refl
