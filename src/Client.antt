-- ===== src/Client.antt =====
-- client/tracker_client.go: what a node asks of the tracker and how it reads the answer. `http` and
-- the parsing of the tracker's URL are library code: the parsed URL and the response are arguments.
pub mod Announce
pub mod Scrape
pub mod Replies
use pixtorrent.Prelude.{
  ℕ, Bool, true, false, not, Option, none, some, List, [], ◌∷◌, Bytes, bytes_discrete, codes,
  length, ◌==◌, if◌then◌else◌,
}
use pixtorrent.Prelude.Int.{ℤ, pos}
use pixtorrent.Prelude.Maps.{Map, put}
use pixtorrent.Meta.Bencode.{
  Node, Nodes, Fields, no_nodes, node, no_fields, field, Result, ok, fail, panic, out_of_fuel,
  decode,
}
use pixtorrent.Meta.Bencode.Scan.{text_of}
use pixtorrent.Meta.Torrent.{get_field, as_string, as_int, as_list, as_dict, chain, optional}

pub record TrackerClient : Type 0 where
  pub peer_id : Bytes
  pub port : ℤ
  pub uploaded : ℤ
  pub downloaded : ℤ

pub record Peer : Type 0 where
  pub peer_id : Bytes
  pub ip : Bytes
  pub port : ℤ

pub record AnnounceResponse : Type 0 where
  pub interval : ℤ
  pub peers : List Peer

pub record ScrapeResponse : Type 0 where
  pub complete : ℤ
  pub incomplete : ℤ
  pub downloaded : ℤ

unfoldable pub new_tracker_client : Bytes → ℤ → TrackerClient
new_tracker_client peer_id port = record {
  peer_id = peer_id;
  port = port;
  uploaded = pos 0;
  downloaded = pos 0;
}

unfoldable pub update_stats : ℤ → ℤ → TrackerClient → TrackerClient
update_stats uploaded downloaded tc = record tc { uploaded = uploaded; downloaded = downloaded }

abbrev pub Values : Type 0
Values = Map Bytes (List Bytes)

-- `Set` of `url.Values`.
abbrev pub set : Bytes → Bytes → Values → Values
set key value = put bytes_discrete key (value ∷ [])

-- A URL behind `url.Parse`; its query is kept as the values that `Encode` writes.
pub record Url : Type 0 where
  pub host : Bytes
  pub path : Bytes
  pub query : Values

-- The parameters of an announce.
unfoldable pub announce_params : TrackerClient → Bytes → ℤ → Bytes → Values
unfolding text_of
announce_params tc info_hash left event =
    let params = set (codes "numwant") (codes "50") (
      set (codes "compact") (codes "0") (
        set (codes "left") (text_of left) (
          set (codes "downloaded") (text_of tc.downloaded) (
            set (codes "uploaded") (text_of tc.uploaded) (
              set (codes "port") (text_of tc.port)
                (set (codes "peer_id") tc.peer_id (set (codes "info_hash") info_hash []))))))) in
    if not (length event == 0) then set (codes "event") event params else params

-- `buildAnnounceURL`, where `none` is a tracker URL that cannot be parsed.
unfoldable pub build_announce_url : TrackerClient → Option Url → Bytes → ℤ → Bytes → Option Url
unfolding announce_params
build_announce_url tc none info_hash left event = none
build_announce_url tc (some u) info_hash left event = some (record u {
  path = if length u.path == 0 then codes "/announce" else u.path;
  query = announce_params tc info_hash left event;
})

-- The URL of `Scrape`.
unfoldable pub build_scrape_url : Option Url → Bytes → Option Url
build_scrape_url none info_hash = none
build_scrape_url (some u) info_hash =
    some (record u { path = codes "/scrape"; query = set (codes "info_hash") info_hash [] })

pub data ClientError : Type 0 where
  bad_url no_answer no_body not_bencode not_a_dictionary no_files no_stats : ClientError
  bad_status : ℕ → ClientError
  tracker_error : Bytes → ClientError

-- How a call ends: with its result, an error, or the panic of the decoder. `unfinished` stands for
-- a decoder that runs out of fuel.
pub data Answer (A : Type 0) : Type 0 where
  answered : A → Answer A
  failed : ClientError → Answer A
  panicked unfinished : Answer A

unfoldable pub parse_peer : Fields → Peer
unfolding get_field
parse_peer dict = record {
  peer_id = optional as_string (codes "peer id") [] dict;
  ip = optional as_string (codes "ip") [] dict;
  port = optional as_int (codes "port") (pos 0) dict;
}

-- The loop over the peers; what is no dictionary is left out.
unfoldable pub parse_peers : Nodes → List Peer
unfolding parse_peer
parse_peers no_nodes = []
parse_peers (node n nodes) =
    let rest = parse_peers nodes in
    elim (as_dict n) [ none ↦ rest | some dict ↦ parse_peer dict ∷ rest ]

unfoldable pub parse_announce_response : Node → Answer AnnounceResponse
unfolding get_field parse_peers
parse_announce_response decoded = elim (as_dict decoded) [
  | none ↦ failed not_a_dictionary
  | some dict ↦ elim (chain (get_field (codes "failure reason") dict) as_string) [
    | some reason ↦ failed (tracker_error reason)
    | none ↦ answered (record {
      interval = optional as_int (codes "interval") (pos 0) dict;
      peers = elim (chain (get_field (codes "peers") dict) as_list) [
        | none ↦ []
        | some nodes ↦ parse_peers nodes
      ];
    })
  ]
]

-- The response to a request: nothing, or a status with a body that can be read or not.
pub data Reply : Type 0 where
  unreachable : Reply
  replied : ℕ → Option Bytes → Reply

-- A body, decoded; `k` reads the value.
unfoldable pub read_body : {A : Type 0} → ℕ → (Node → Answer A) → Option Bytes → Answer A
unfolding decode
read_body max_make k none = failed no_body
read_body max_make k (some body) = elim (decode max_make body) [
  | ok decoded rest ↦ k decoded
  | fail ↦ failed not_bencode
  | panic ↦ panicked
  | out_of_fuel ↦ unfinished
]

-- `Announce`: the network answers a URL.
unfoldable pub announce :
    ℕ → (Url → Reply) → TrackerClient → Option Url → Bytes → ℤ → Bytes → Answer AnnounceResponse
unfolding build_announce_url parse_announce_response read_body
announce max_make network tc tracker_url info_hash left event =
    elim (build_announce_url tc tracker_url info_hash left event) [
      | none ↦ failed bad_url
      | some url ↦ elim (network url) [
        | unreachable ↦ failed no_answer
        | replied status body ↦
            if not (status == 200)
            then failed (bad_status status)
            else read_body max_make parse_announce_response body
      ]
    ]

abbrev pub parse_stats : Fields → ScrapeResponse
parse_stats stats = record {
  complete = optional as_int (codes "complete") (pos 0) stats;
  incomplete = optional as_int (codes "incomplete") (pos 0) stats;
  downloaded = optional as_int (codes "downloaded") (pos 0) stats;
}

-- The loop over the files, which ends at the first dictionary.
unfoldable pub first_stats : Fields → Answer ScrapeResponse
unfolding get_field
first_stats no_fields = failed no_stats
first_stats (field key v files) =
    let rest = first_stats files in
    elim (as_dict v) [ none ↦ rest | some stats ↦ answered (parse_stats stats) ]

unfoldable pub parse_scrape_response : Node → Answer ScrapeResponse
unfolding get_field first_stats
parse_scrape_response decoded = elim (as_dict decoded) [
  | none ↦ failed not_a_dictionary
  | some dict ↦ elim (chain (get_field (codes "files") dict) as_dict) [
    | none ↦ failed no_files
    | some files ↦ first_stats files
  ]
]

-- `Scrape`, which does not look at the status.
unfoldable pub scrape : ℕ → (Url → Reply) → Option Url → Bytes → Answer ScrapeResponse
unfolding build_scrape_url parse_scrape_response read_body
scrape max_make network tracker_url info_hash = elim (build_scrape_url tracker_url info_hash) [
  | none ↦ failed bad_url
  | some url ↦ elim (network url) [
    | unreachable ↦ failed no_answer
    | replied status body ↦ read_body max_make parse_scrape_response body
  ]
]
