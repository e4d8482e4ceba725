-- ===== src/Meta/Torrent.antt =====
-- meta/torrent.go: torrent files. An error is `none`. What Go writes to a buffer is a function of
-- what is written behind it.
pub mod InfoFields
use pixtorrent.Prelude.{
  ℕ, Bool, Option, none, some, List, [], ◌∷◌, ◌++◌, Bytes, bytes_discrete, codes, length, ltb,
  if◌then◌else◌, ite,
}
use pixtorrent.Prelude.Int.{ℤ, pos, ltb_ℤ}
use pixtorrent.Meta.Bencode.{
  Node, Nodes, Fields, bint, bstring, blist, bdict, no_nodes, node, no_fields, field, Result, ok,
  fail, panic, out_of_fuel, decode, byte_e, colon,
}
use pixtorrent.Meta.Bencode.Scan.{decimal, text_of}

pub record FileInfo : Type 0 where
  pub length : ℤ
  pub path : List Bytes

pub record InfoDict : Type 0 where
  pub name : Bytes
  pub length : ℤ
  pub files : List FileInfo
  pub piece_length : ℤ
  pub pieces : Bytes
  pub private : ℤ

pub record Torrent : Type 0 where
  pub announce : Bytes
  pub announce_list : List (List Bytes)
  pub info : InfoDict
  pub creation_date : ℤ
  pub created_by : Bytes
  pub comment : Bytes
  pub encoding : Bytes

-- `dict[key]`
unfoldable pub get_field : Bytes → Fields → Option Node
get_field key no_fields = none
get_field key (field k v pairs) = ite (bytes_discrete key k) (some v) (get_field key pairs)

-- The type assertions.
abbrev pub as_string : Node → Option Bytes
as_string (bstring s) = some s
as_string _ = none

abbrev pub as_int : Node → Option ℤ
as_int (bint i) = some i
as_int _ = none

abbrev pub as_list : Node → Option Nodes
as_list (blist nodes) = some nodes
as_list _ = none

abbrev pub as_dict : Node → Option Fields
as_dict (bdict pairs) = some pairs
as_dict _ = none

abbrev pub chain : {A B : Type 0} → Option A → (A → Option B) → Option B
chain none k = none
chain (some a) k = k a

-- A field that must be there with the right type.
abbrev pub required : {A : Type 0} → (Node → Option A) → Bytes → Fields → Option A
required as_type key dict = chain (get_field key dict) as_type

-- `parseOptionalString` and `parseOptionalInt`: the value, or what was there before.
abbrev pub optional : {A : Type 0} → (Node → Option A) → Bytes → A → Fields → A
optional as_type key old dict = elim (get_field key dict) [
  | none ↦ old
  | some n ↦ elim (as_type n) [ none ↦ old | some a ↦ a ]
]

-- The loop over the components of a path.
unfoldable pub parse_path : Nodes → Option (List Bytes)
parse_path no_nodes = some []
parse_path (node n nodes) =
    let rest = parse_path nodes in chain (as_string n) (λ s. chain rest (λ path. some (s ∷ path)))

unfoldable pub parse_file : Node → Option FileInfo
unfolding parse_path get_field
parse_file n = chain (as_dict n) (λ dict. chain (required as_int (codes "length") dict) (λ len.
    chain (required as_list (codes "path") dict)
      (λ nodes. chain (parse_path nodes) (λ path. some (record { length = len; path = path })))))

unfoldable pub parse_file_list : Nodes → Option (List FileInfo)
unfolding parse_file
parse_file_list no_nodes = some []
parse_file_list (node n nodes) =
    let rest = parse_file_list nodes in
    chain (parse_file n) (λ file. chain rest (λ files. some (file ∷ files)))

-- The length or the files; a length wins.
unfoldable pub parse_mode : Fields → Option (ℤ × List FileInfo)
unfolding parse_file_list get_field
parse_mode dict = elim (get_field (codes "length") dict) [
  | some n ↦ chain (as_int n) (λ len. some (len, []))
  | none ↦
      chain (required as_list (codes "files") dict)
        (λ nodes. chain (parse_file_list nodes) (λ files. some (pos 0, files)))
]

unfoldable pub parse_info_dict : Fields → Option InfoDict
unfolding parse_mode get_field
parse_info_dict dict = chain (required as_string (codes "name") dict) (λ name.
    chain (required as_int (codes "piece length") dict) (λ piece_length.
      chain (required as_string (codes "pieces") dict) (λ pieces. chain (parse_mode dict) (λ mode.
        some (record {
          name = name;
          length = mode.0;
          files = mode.1;
          piece_length = piece_length;
          pieces = pieces;
          private = optional as_int (codes "private") (pos 0) dict;
        })))))

-- The strings of a tier; other nodes are left out.
unfoldable pub parse_tier : Nodes → List Bytes
parse_tier no_nodes = []
parse_tier (node n nodes) =
    let rest = parse_tier nodes in elim (as_string n) [ none ↦ rest | some s ↦ s ∷ rest ]

-- The tiers that are lists with a string in them.
unfoldable pub parse_announce_list : Nodes → List (List Bytes)
unfolding parse_tier
parse_announce_list no_nodes = []
parse_announce_list (node n nodes) =
    let rest = parse_announce_list nodes in
    elim (as_list n) [
      | none ↦ rest
      | some tier ↦ elim (parse_tier tier) [ [] ↦ rest | ◌∷◌ s tiers ↦ (s ∷ tiers) ∷ rest ]
    ]

unfoldable pub parse_dict_torrent : Fields → Option Torrent
unfolding parse_info_dict parse_announce_list get_field
parse_dict_torrent dict = chain (required as_string (codes "announce") dict) (λ announce.
    chain (required as_dict (codes "info") dict) (λ info_dict.
      chain (parse_info_dict info_dict) (λ info. some (record {
        announce = announce;
        announce_list = elim (get_field (codes "announce-list") dict) [
          | none ↦ []
          | some n ↦ elim (as_list n) [ none ↦ [] | some tiers ↦ parse_announce_list tiers ]
        ];
        info = info;
        creation_date = optional as_int (codes "creation date") (pos 0) dict;
        created_by = optional as_string (codes "created by") [] dict;
        comment = optional as_string (codes "comment") [] dict;
        encoding = optional as_string (codes "encoding") [] dict;
      }))))

-- `ParseTorrent`: a torrent, an error, or the panic of the decoder.
unfoldable pub parse_torrent : ℕ → Bytes → Result Torrent
unfolding decode parse_dict_torrent
parse_torrent max_make input = elim (decode max_make input) [
  | ok n rest ↦ elim (chain (as_dict n) parse_dict_torrent) [ none ↦ fail | some t ↦ ok t rest ]
  | fail ↦ fail
  | panic ↦ panic
  | out_of_fuel ↦ out_of_fuel
]

-- `%d:%s` of a string and its length, and `i%de`.
unfoldable pub write_string : Bytes → Bytes → Bytes
unfolding decimal
write_string s rest = decimal (length s) ++ colon ∷ (s ++ rest)

unfoldable pub write_int : ℤ → Bytes → Bytes
unfolding text_of
write_int i rest = 0x69 ∷ (text_of i ++ byte_e ∷ rest)

unfoldable pub write_path : List Bytes → Bytes → Bytes
unfolding write_string
write_path [] rest = rest
write_path (s ∷ path) rest = write_string s (write_path path rest)

-- The loop over the files.
unfoldable pub write_files : List FileInfo → Bytes → Bytes
unfolding write_string write_int write_path
write_files [] rest = rest
write_files (file ∷ files) rest =
    0x64
    ∷ write_string (codes "length") (
        write_int file.length (
          write_string (codes "path")
            (0x6c ∷ write_path file.path (byte_e ∷ (byte_e ∷ write_files files rest)))))

unfoldable pub write_file_list : List FileInfo → Bytes → Bytes
unfolding write_string write_files
write_file_list [] rest = rest
write_file_list (file ∷ files) rest =
    write_string (codes "files") (0x6c ∷ write_files (file ∷ files) (byte_e ∷ rest))

-- A number that is written only if it is positive.
unfoldable pub write_positive : Bytes → ℤ → Bytes → Bytes
unfolding write_string write_int
write_positive key i rest = if ltb_ℤ (pos 0) i then write_string key (write_int i rest) else rest

unfoldable pub encode_bencode_info_dict : InfoDict → Bytes
unfolding write_string write_int write_file_list write_positive
encode_bencode_info_dict info =
    0x64
    ∷ write_file_list info.files (
        write_positive (codes "length") info.length (
          write_string (codes "name") (
            write_string info.name (
              write_string (codes "piece length") (
                write_int info.piece_length (
                  write_string (codes "pieces") (
                    write_string info.pieces
                      (write_positive (codes "private") info.private (byte_e ∷ [])))))))))

unfoldable pub info_hash : (Bytes → Bytes) → InfoDict → Bytes
unfolding encode_bencode_info_dict
info_hash sha1 info = sha1 (encode_bencode_info_dict info)
