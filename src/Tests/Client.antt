-- ===== src/Tests/Client.antt =====
-- client/ against tracker/ at small inputs.
use pixtorrent.Prelude.{
  ℕ, ◌^◌, some, [], ◌∷◌, map, Bytes, bytes_discrete, codes, take, get_or, ◌≡◌, ◌≢◌, refl, ap, arith,
  sym, subst, true, ◌/◌, List, inl,
}
use pixtorrent.Prelude.Int.{pos}
use pixtorrent.Prelude.Maps.{get, put}
use pixtorrent.P2p.Pieces.{equal}
use pixtorrent.Meta.Bencode.{has_field}
use pixtorrent.Meta.Bencode.Scan.{text_of, decimal, decimal_onto}
use pixtorrent.Meta.Bencode.Encode.{encode, IsEncodable}
use pixtorrent.Tracker.Hex.{encode_to_string}
use pixtorrent.Tracker.Memory.{
  MemoryStorage, Peer, ids_of, add_peer, get_peers, gather, get_torrent_stats, sort_out,
  completed_of,
}
use pixtorrent.Tracker.Memory.Listed.{listed}
use pixtorrent.Tracker.Memory.Queries.{peers_in}
use pixtorrent.Tracker.Query.{
  decode_info_hash, query_unescape, parse_int, parse_unsigned, parse_digits,
}
use pixtorrent.Tracker.Server.{
  memory_storage, filter_peers, convert_peers_to_list, handle_announce, handle_scrape, PeerEntry,
  announced, param, announced_peer, num_want, handle_event, answer_peers, get_client_ip, scrape_all,
  scrape_one,
}
use pixtorrent.Tracker.Server.Reply.{
  response_value, scrape_value, peer_values, peer_value, file_fields, stats_value,
}
use pixtorrent.Client.{
  Peer as Named, TrackerClient, Url, answered, announce, scrape, announce_params,
}
use pixtorrent.Client.Announce.{
  IsClient, named, request_of, serve, announce_url, peer_of_client, announce-handle_announce,
}
use pixtorrent.TorrentServer.Bootstrap.Nodes.{IsDistinct}
use pixtorrent.Tracker.Server.Mux.{serve_http}
use pixtorrent.Tracker.Server.Others.{AreOthers}
use pixtorrent.Client.Scrape.{scrape_url, scraped, scrape-handle_scrape}
use pixtorrent.TorrentServer.Bootstrap.{bootstrap_left, started, bootstrap_network}
use pixtorrent.TorrentServer.Bootstrap.Announced.{AreDialled, bootstrap_network-handle_announce}
use pixtorrent.Tests.Tracker.{peer_of, first, first-bytes, ann}

-- Bob's client, the tracker's URL, and a torrent that Ann seeds.
abbrev pub bobs : TrackerClient
bobs = record { peer_id = codes "bob"; port = pos 6882; uploaded = pos 0; downloaded = pos 0 }

bobs-IsClient : IsClient bobs
bobs-IsClient = record {
  has_id = refl;
  port_int64 = omega arith;
  uploaded_int64 = omega arith;
  downloaded_int64 = omega arith;
}

abbrev pub url : Url
url = record { host = codes "tracker"; path = []; query = [] }

abbrev seeded : MemoryStorage
seeded = record {
  peers = (ann, peer_of ann (pos 0)) ∷ [];
  torrents = (codes "6161616161616161616161616161616161616161", (ann, tt) ∷ []) ∷ [];
  completed = [];
}

first-decoded : decode_info_hash first ≡ some first
unfolding decode_info_hash query_unescape
first-decoded = refl

apart : (a b : ℕ) → a ≡ 97 → b ≡ 111 → a ≡ b → ⊥
apart a b h k e = omega arith

started_goes_on : codes "started" ≢ codes "stopped"
started_goes_on h = absurd (apart _ _ refl refl (ap (λ b. get_or b 2 0) h))

-- The tracker's answer to Bob: Ann, and the interval.
abbrev ann_entry : PeerEntry
ann_entry = record { peer_id = ann; ip = codes "10.0.0.1"; port = pos 6881 }

answer_run :
    (handle_announce memory_storage 9
      (request_of (codes "10.0.0.2") (announce_url bobs url first (pos 0) (codes "started")))
      seeded).1
    ≡ announced (ann_entry ∷ []) 1800
unfolding handle_announce param get put bytes_discrete pixtorrent.Prelude.ℕ_discrete
    decode_info_hash query_unescape announced_peer num_want handle_event answer_peers memory_storage
    filter_peers convert_peers_to_list get_client_ip parse_int parse_unsigned parse_digits
    announce_params text_of decimal decimal_onto equal add_peer get_peers gather ids_of
    encode_to_string
answer_run = refl

answer-IsEncodable : IsEncodable (2 ^ 48) (response_value (announced (ann_entry ∷ []) 1800))
unfolding IsEncodable response_value peer_values peer_value has_field bytes_discrete
    pixtorrent.Prelude.ℕ_discrete
answer-IsEncodable = (
  omega arith,
  refl,
  omega arith,
  (
    omega arith,
    refl,
    (
      (
        omega arith,
        refl,
        omega arith,
        (omega arith, refl, omega arith, (omega arith, refl, omega arith, tt)),
      ),
      tt,
    ),
    tt,
  ),
)

fits : IsEncodable (2 ^ 48) (
    response_value
      (handle_announce memory_storage 9
        (request_of (codes "10.0.0.2") (announce_url bobs url first (pos 0) (codes "started")))
        seeded).1)
fits = subst (λ a. IsEncodable (2 ^ 48) (response_value a)) (sym answer_run) answer-IsEncodable

announce-handle_announce_example :
    let sent = announce_url bobs url first (pos 0) (codes "started") in
    let m' =
      (serve_http memory_storage encode 9 sent.path
        (request_of (codes "10.0.0.2") sent)
        seeded).store in
    (listed first (codes "bob") m'
      ≡ some (peer_of_client bobs (codes "10.0.0.2") (pos 0) (codes "started") 9))
    × ((got : List Named) × (announce
            (2 ^ 48)
            (serve memory_storage encode 9 (codes "10.0.0.2") seeded)
            bobs
            (some url)
            first
            (pos 0)
            (codes "started")
          ≡ answered (record { interval = pos 1800; peers = got }))
        × AreOthers named (codes "bob") (take 50 (peers_in (ids_of first m') m')) got)
announce-handle_announce_example =
    announce-handle_announce (2 ^ 48) encode bobs url first (pos 0) (codes "started")
      (codes "10.0.0.2") 9 seeded (omega arith) (λ v. refl) (inl refl) bobs-IsClient (omega arith)
      first-decoded refl first-bytes started_goes_on fits

bootstrap_network-handle_announce_example :
    let sent = announce_url bobs url first bootstrap_left started in
    let m' =
      (serve_http memory_storage encode 9 sent.path
        (request_of (codes "10.0.0.2") sent)
        seeded).store in
    ((p : Peer) × (listed first (codes "bob") m' ≡ some p) × (p.left ≡ pos 0))
    × ((nodes : List Bytes) × (bootstrap_network
            (2 ^ 48)
            (serve memory_storage encode 9 (codes "10.0.0.2") seeded)
            bobs
            (some url)
            first
            (codes "0.0.0.0:6882")
          ≡ answered nodes)
        × IsDistinct nodes
        × AreDialled
            (codes "0.0.0.0:6882")
            (codes "bob")
            (take 50 (peers_in (ids_of first m') m'))
            nodes)
bootstrap_network-handle_announce_example =
    bootstrap_network-handle_announce (2 ^ 48) encode bobs url first (codes "0.0.0.0:6882")
      (codes "10.0.0.2") 9 seeded (omega arith) (λ v. refl) (inl refl) bobs-IsClient first-decoded
      refl first-bytes fits

-- The tracker's numbers of the torrent.
scrape_run :
    handle_scrape memory_storage (request_of (codes "10.0.0.2") (scrape_url url first)) seeded
    ≡ (first, (1, 0, pos 0)) ∷ []
unfolding handle_scrape scrape_all scrape_one get put bytes_discrete pixtorrent.Prelude.ℕ_discrete
    decode_info_hash query_unescape memory_storage get_torrent_stats sort_out ids_of
    encode_to_string completed_of
scrape_run = refl

scrape-IsEncodable : IsEncodable (2 ^ 48) (scrape_value ((first, (1, 0, pos 0)) ∷ []))
unfolding IsEncodable scrape_value file_fields stats_value has_field bytes_discrete
    pixtorrent.Prelude.ℕ_discrete
scrape-IsEncodable = (
  omega arith,
  refl,
  (
    omega arith,
    refl,
    (
      omega arith,
      refl,
      omega arith,
      (omega arith, refl, omega arith, (omega arith, refl, omega arith, tt)),
    ),
    tt,
  ),
  tt,
)

scrape-handle_scrape_example :
    scrape (2 ^ 48) (serve memory_storage encode 9 (codes "10.0.0.2") seeded) (some url) first
    ≡ scraped seeded (decode_info_hash first)
scrape-handle_scrape_example =
    scrape-handle_scrape (2 ^ 48) encode url first (codes "10.0.0.2") 9 seeded (omega arith)
      (λ v. refl) (refl, tt)
      (subst (λ files. IsEncodable (2 ^ 48) (scrape_value files)) (sym scrape_run)
        scrape-IsEncodable)
