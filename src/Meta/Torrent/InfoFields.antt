-- ===== src/Meta/Torrent/InfoFields.antt =====
-- The info dictionary of meta/torrent.go as a bencoded value.
use pixtorrent.Prelude.{
  ℕ, ◌≤◌, ◌<◌, ◌^◌, Bool, true, false, Option, none, some, List, [], ◌∷◌, ◌++◌, Bytes,
  bytes_discrete, codes, length, if◌then◌else◌, ◌≡◌, refl, sym, ap, ◌∙◌, arith, Bool-cases, inl,
  inr,
}
use pixtorrent.Prelude.Int.{ℤ, pos, ltb_ℤ}
use pixtorrent.Meta.Bencode.{
  Node, Nodes, Fields, bint, bstring, blist, bdict, no_nodes, node, no_fields, field, byte_e, colon,
  ok, decode,
}
use pixtorrent.Meta.Bencode.Encode.{
  encode, encode_tail, encode_nodes, encode_fields, string_tail, first_byte, IsEncodable,
}
use pixtorrent.Meta.Bencode.RoundTrip.{decode-encode}
use pixtorrent.Meta.Bencode.Scan.{decimal-split, first_digit}
use pixtorrent.Meta.Torrent.{
  FileInfo, InfoDict, write_string, write_int, write_path, write_files, write_file_list,
  write_positive, encode_bencode_info_dict, get_field, parse_path, parse_file, parse_file_list,
  parse_mode, parse_info_dict,
}

pub path_nodes : List Bytes → Nodes
path_nodes [] = no_nodes
path_nodes (s ∷ path) = node (bstring s) (path_nodes path)

pub file_nodes : List FileInfo → Nodes
file_nodes [] = no_nodes
file_nodes (file ∷ files) =
    node
      (bdict (
        field (codes "length") (bint file.length)
          (field (codes "path") (blist (path_nodes file.path)) no_fields)))
      (file_nodes files)

abbrev file_field : List FileInfo → Fields → Fields
file_field [] pairs = pairs
file_field (file ∷ files) pairs = field (codes "files") (blist (file_nodes (file ∷ files))) pairs

abbrev positive_field : Bytes → ℤ → Fields → Fields
positive_field key i pairs = if ltb_ℤ (pos 0) i then field key (bint i) pairs else pairs

-- The dictionary that stands for an info dictionary.
unfoldable pub info_fields : InfoDict → Fields
info_fields info = file_field info.files (
    positive_field (codes "length") info.length (
      field (codes "name") (bstring info.name) (
        field (codes "piece length") (bint info.piece_length) (
          field (codes "pieces") (bstring info.pieces)
            (positive_field (codes "private") info.private no_fields)))))

string_tail-write_string :
    (s rest : Bytes) → first_digit (length s) ∷ string_tail s rest ≡ write_string s rest
unfolding string_tail write_string
string_tail-write_string s rest =
    ap (λ d. d ++ colon ∷ (s ++ rest)) (sym (decimal-split (length s)))

module _ (key : Bytes) (pairs : Fields) (rest : Bytes) where
  string_field :
      (s : Bytes)
      → encode_fields (field key (bstring s) pairs) rest
        ≡ write_string key (write_string s (encode_fields pairs rest))
  unfolding encode_fields encode_tail
  string_field s =
      string_tail-write_string key _ ∙ ap (write_string key) (string_tail-write_string s _)

  other_field :
      (v : Node)
      → encode_fields (field key v pairs) rest
        ≡ write_string key (first_byte v ∷ encode_tail v (encode_fields pairs rest))
  unfolding encode_fields
  other_field v = string_tail-write_string key _

encode_nodes-write_path :
    (path : List Bytes) (rest : Bytes) → encode_nodes (path_nodes path) rest ≡ write_path path rest
unfolding path_nodes encode_nodes encode_tail write_path
encode_nodes-write_path [] rest = refl
encode_nodes-write_path (s ∷ path) rest =
    string_tail-write_string s _ ∙ ap (write_string s) (encode_nodes-write_path path rest)

encode_nodes-write_files :
    (files : List FileInfo) (rest : Bytes)
    → encode_nodes (file_nodes files) rest ≡ write_files files rest
unfolding file_nodes encode_nodes encode_tail encode_fields write_files write_int
encode_nodes-write_files [] rest = refl
encode_nodes-write_files (file ∷ files) rest =
    let later = encode_nodes (file_nodes files) rest in
    let after = byte_e ∷ (byte_e ∷ later) in
    let paths = field (codes "path") (blist (path_nodes file.path)) no_fields in
    ap (◌∷◌ 0x64) (
      other_field (codes "length") paths (byte_e ∷ later) (bint file.length)
      ∙ ap (λ b. write_string (codes "length") (write_int file.length b))
          (other_field (codes "path") no_fields (byte_e ∷ later) (blist (path_nodes file.path))
            ∙ ap (λ b. write_string (codes "path") (0x6c ∷ b))
                (encode_nodes-write_path file.path after
                  ∙ ap (λ b. write_path file.path (byte_e ∷ (byte_e ∷ b)))
                      (encode_nodes-write_files files rest))))

encode_fields-write_positive :
    (key : Bytes) (i : ℤ) (pairs : Fields) (rest : Bytes)
    → encode_fields (positive_field key i pairs) rest
      ≡ write_positive key i (encode_fields pairs rest)
unfolding write_positive write_int encode_tail
encode_fields-write_positive key i pairs rest = elim (Bool-cases (ltb_ℤ (pos 0) i)) [
  | inl e ↦ rw e (other_field key pairs rest (bint i))
  | inr e ↦ rw e
]

encode_fields-write_file_list :
    (files : List FileInfo) (pairs : Fields) (rest : Bytes)
    → encode_fields (file_field files pairs) rest ≡ write_file_list files (encode_fields pairs rest)
unfolding write_file_list encode_tail
encode_fields-write_file_list [] pairs rest = refl
encode_fields-write_file_list (file ∷ files) pairs rest =
    other_field (codes "files") pairs rest (blist (file_nodes (file ∷ files)))
    ∙ ap (λ b. write_string (codes "files") (0x6c ∷ b))
        (encode_nodes-write_files (file ∷ files) (byte_e ∷ encode_fields pairs rest))

-- What is hashed is the bencoding of the info dictionary as a value.
pub encode_bencode_info_dict-encode :
    (info : InfoDict) → encode_bencode_info_dict info ≡ encode (bdict (info_fields info))
unfolding encode_bencode_info_dict info_fields encode_tail write_int
encode_bencode_info_dict-encode info =
    let rest = byte_e ∷ [] in
    let private = positive_field (codes "private") info.private no_fields in
    let pieces = field (codes "pieces") (bstring info.pieces) private in
    let piece_length = field (codes "piece length") (bint info.piece_length) pieces in
    let name = field (codes "name") (bstring info.name) piece_length in
    let len = positive_field (codes "length") info.length name in
    ap (◌∷◌ 0x64) (
      sym (
        encode_fields-write_file_list info.files len rest
        ∙ ap (write_file_list info.files) (
            encode_fields-write_positive (codes "length") info.length name rest
            ∙ ap (write_positive (codes "length") info.length) (
                string_field (codes "name") piece_length rest info.name
                ∙ ap (λ b. write_string (codes "name") (write_string info.name b))
                    (other_field (codes "piece length") pieces rest (bint info.piece_length)
                      ∙ ap
                          (λ b. write_string (codes "piece length") (write_int info.piece_length b))
                          (string_field (codes "pieces") private rest info.pieces
                            ∙ ap (λ b. write_string (codes "pieces") (write_string info.pieces b))
                                (encode_fields-write_positive (codes "private") info.private
                                  no_fields rest)))))))

parse_path-path_nodes : (path : List Bytes) → parse_path (path_nodes path) ≡ some path
unfolding parse_path path_nodes
parse_path-path_nodes [] = refl
parse_path-path_nodes (s ∷ path) = rw (parse_path-path_nodes path)

parse_file_list-file_nodes :
    (files : List FileInfo) → parse_file_list (file_nodes files) ≡ some files
unfolding parse_file_list file_nodes parse_file get_field bytes_discrete
    pixtorrent.Prelude.ℕ_discrete
parse_file_list-file_nodes [] = refl
parse_file_list-file_nodes (file ∷ files) =
    rw (parse_path-path_nodes file.path, parse_file_list-file_nodes files)

-- What a number reads as when it was written only if it was positive.
abbrev pub kept : ℤ → ℤ
kept i = if ltb_ℤ (pos 0) i then i else pos 0

-- The info dictionary that is read back: a positive length wins over files; without either there
-- is none.
abbrev pub restored : InfoDict → Option InfoDict
restored info =
    if ltb_ℤ (pos 0) info.length
    then some (record info { files = []; private = kept info.private })
    else elim info.files [
      | [] ↦ none
      | ◌∷◌ file files ↦ some (record info { length = pos 0; private = kept info.private })
    ]

module _ (name : Bytes) (piece_length : ℤ) (pieces : Bytes) (private : ℤ) where
  abbrev common : Fields
  common = field (codes "name") (bstring name) (
      field (codes "piece length") (bint piece_length) (
        field (codes "pieces") (bstring pieces)
          (positive_field (codes "private") private no_fields)))

  abbrev info_of : ℤ → List FileInfo → InfoDict
  info_of len files = record {
    name = name;
    length = len;
    files = files;
    piece_length = piece_length;
    pieces = pieces;
    private = private;
  }

  parse_info_dict-info_fields :
      (len : ℤ) (files : List FileInfo)
      → parse_info_dict (info_fields (info_of len files)) ≡ restored (info_of len files)
  unfolding parse_info_dict info_fields parse_mode get_field bytes_discrete
      pixtorrent.Prelude.ℕ_discrete
  parse_info_dict-info_fields len [] = elim (Bool-cases (ltb_ℤ (pos 0) private)) [
    | inl p ↦ elim (Bool-cases (ltb_ℤ (pos 0) len)) [ inl e ↦ rw (p, e) | inr e ↦ rw (p, e) ]
    | inr p ↦ elim (Bool-cases (ltb_ℤ (pos 0) len)) [ inl e ↦ rw (p, e) | inr e ↦ rw (p, e) ]
  ]
  parse_info_dict-info_fields len (file ∷ files) =
      let read = parse_file_list-file_nodes (file ∷ files) in
      elim (Bool-cases (ltb_ℤ (pos 0) private)) [
        | inl p ↦ elim (Bool-cases (ltb_ℤ (pos 0) len)) [
          | inl e ↦ rw (p, e)
          | inr e ↦ rw (p, e, read)
        ]
        | inr p ↦ elim (Bool-cases (ltb_ℤ (pos 0) len)) [
          | inl e ↦ rw (p, e)
          | inr e ↦ rw (p, e, read)
        ]
      ]

-- The bytes that are hashed decode to a dictionary, and what is parsed from it is the info
-- dictionary again: with a positive length, without its files; with files, as it was; and a file
-- of length 0 is refused, since its length was not written. A private number below 1 reads as 0.
-- The numbers are int64 and the strings can be allocated.
pub encode-parse_info_dict :
    (max_make : ℕ) (info : InfoDict)
    → max_make < 2 ^ 63
    → IsEncodable max_make (bdict (info_fields info))
    → (decode max_make (encode_bencode_info_dict info) ≡ ok (bdict (info_fields info)) [])
      × (parse_info_dict (info_fields info) ≡ restored info)
encode-parse_info_dict max_make info small h = (
  ap (decode max_make) (encode_bencode_info_dict-encode info)
      ∙ decode-encode max_make (bdict (info_fields info)) small h,
  parse_info_dict-info_fields info.name info.piece_length info.pieces info.private info.length
      info.files,
)
