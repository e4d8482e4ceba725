-- ===== src/Client/Scrape.antt =====
-- `Scrape` of client/tracker_client.go against `handleScrape` of tracker/server.go over any store.
use pixtorrent.Prelude.{
  ℕ, ◌^◌, ◌<◌, Option, none, some, [], ◌∷◌, Bytes, bytes_discrete, codes, ◌≡◌, refl, ap, ◌∙◌,
  Option-cases, inl, inr, Bool, true, false, not, List, map, length, ◌+◌, All, zero, suc, ap₂, ◌&&◌,
  if◌then◌else◌, arith, ◌≢◌,
}
use pixtorrent.Prelude.Int.{ℤ, pos, negsuc, leb_ℤ, ℤ_discrete}
use pixtorrent.Prelude.Maps.{Map, get, put}
use pixtorrent.Meta.Bencode.{Node}
use pixtorrent.Meta.Bencode.Encode.{encode, IsEncodable}
use pixtorrent.Meta.Torrent.{get_field}
use pixtorrent.Tracker.Query.{decode_info_hash}
use pixtorrent.Tracker.Server.{Storage, memory_storage, handle_scrape, scrape_all, scrape_one}
use pixtorrent.Tracker.Server.Reply.{scrape_value, file_fields, stats_value}
use pixtorrent.Client.{
  Url, Answer, answered, failed, no_stats, ScrapeResponse, set, build_scrape_url, first_stats,
  parse_scrape_response, scrape,
}
use pixtorrent.P2p.Pieces.{equal}
use pixtorrent.Tracker.Memory.{Peer, MemoryStorage, ids_of, is_seeder, completed_of}
use pixtorrent.Tracker.Memory.Queries.{peers_in, select, get_torrent_stats_lem}
use pixtorrent.Tracker.Server.Mux.{serve_http}
use pixtorrent.Client.Announce.{request_of, serve}
use pixtorrent.Client.Replies.{read_body-marshal}

abbrev pub scrape_url : Url → Bytes → Url
scrape_url u h = record u { path = codes "/scrape"; query = set (codes "info_hash") h [] }

-- The known peers of a torrent with nothing left, and the others, by their numbers.
abbrev pub has_all : Peer → Bool
has_all p = elim (ℤ_discrete p.left (pos 0)) [ yes e ↦ true | no ne ↦ false ]

abbrev pub count : (Peer → Bool) → List Peer → ℕ
count wanted [] = 0
count wanted (p ∷ peers) = (if wanted p then 1 else 0) + count wanted peers

-- What the client should get, for a hash that the tracker reads or not.
abbrev pub scraped : MemoryStorage → Option Bytes → Answer ScrapeResponse
scraped m none = failed no_stats
scraped m (some info_hash) =
    let known = peers_in (ids_of info_hash m) m in
    answered (record {
      complete = pos (count has_all known);
      incomplete = pos (count (λ p. not (has_all p)) known);
      downloaded = completed_of info_hash m;
    })

not_zero : (i : ℤ) → i ≢ pos 0 → (leb_ℤ i (pos 0) && leb_ℤ (pos 0) i) ≡ false
not_zero (pos zero) ne = absurd (ne refl)
not_zero (pos (suc n)) ne = ground arith
not_zero (negsuc n) ne = ground arith

is_seeder-has_all : (p : Peer) → is_seeder p ≡ has_all p
is_seeder-has_all p =
    elim (ℤ_discrete p.left (pos 0))
      as (λ d. is_seeder p ≡ elim d [ yes e ↦ true | no ne ↦ false ]) [
        | yes e ↦ rw e refl
        | no ne ↦ not_zero p.left ne
      ]

length-select :
    (wanted picked : Peer → Bool) (peers : List Peer)
    → ((p : Peer) → wanted p ≡ picked p)
    → length (map (λ p. p.id) (select wanted peers)) ≡ count picked peers
length-select wanted picked [] same = refl
length-select wanted picked (p ∷ peers) same =
    ground (arith, same p, length-select wanted picked peers same)

abbrev shown : {S : Type 0} → Storage S → S → Option Bytes → Answer ScrapeResponse
shown store s none = failed no_stats
shown store s (some info_hash) =
    let (complete, incomplete, downloaded) = scrape_one store info_hash s in
    answered
      (record { complete = pos complete; incomplete = pos incomplete; downloaded = downloaded })

abbrev files_of : {S : Type 0} → Storage S → S → Bytes → Option Bytes → Map Bytes (ℕ × ℕ × ℤ)
files_of store s h none = []
files_of store s h (some info_hash) = (h, scrape_one store info_hash s) ∷ []

module _ {S : Type 0} (store : Storage S) (h host : Bytes) (u : Url) (s : S) where
  handle_scrape-one :
      handle_scrape store (request_of host (scrape_url u h)) s
      ≡ files_of store s h (decode_info_hash h)
  unfolding handle_scrape scrape_all get put bytes_discrete pixtorrent.Prelude.ℕ_discrete
  handle_scrape-one = elim (Option-cases (decode_info_hash h)) [
    | inl e ↦ rw (e, scrape_all)
    | inr (i, e) ↦ rw (e, scrape_all)
  ]

  parse_scrape_response-files_of :
      (o : Option Bytes)
      → parse_scrape_response (scrape_value (files_of store s h o)) ≡ shown store s o
  unfolding parse_scrape_response first_stats scrape_value file_fields stats_value get_field
      bytes_discrete pixtorrent.Prelude.ℕ_discrete
  parse_scrape_response-files_of none = refl
  parse_scrape_response-files_of (some i) = refl

numbers_lem :
    (m : MemoryStorage) (info_hash : Bytes)
    → All (λ e. e.1.id ≡ e.0) m.peers
    → let known = peers_in (ids_of info_hash m) m in
      scrape_one memory_storage info_hash m
      ≡ (count has_all known, count (λ p. not (has_all p)) known, completed_of info_hash m)
unfolding scrape_one memory_storage
numbers_lem m info_hash own =
    let known = peers_in (ids_of info_hash m) m in
    let (seeders, leechers) = get_torrent_stats_lem info_hash m own in
    ap₂ (λ a b. (a, b, completed_of info_hash m))
      (ap length seeders ∙ length-select is_seeder has_all known is_seeder-has_all)
      (ap length leechers
        ∙ length-select (λ p. not (is_seeder p)) (λ p. not (has_all p)) known
            (λ p. ap not (is_seeder-has_all p)))

shown-scraped :
    (m : MemoryStorage) (o : Option Bytes)
    → All (λ e. e.1.id ≡ e.0) m.peers
    → shown memory_storage m o ≡ scraped m o
shown-scraped m none own = refl
shown-scraped m (some info_hash) own =
    ap (λ t. answered (record { complete = pos t.0; incomplete = pos t.1; downloaded = t.2 }))
      (numbers_lem m info_hash own)

-- A scrape of one torrent gives the client how many of its known peers have nothing left, how many
-- have something left, and how often it was completed; or the error that there are no numbers, if
-- the tracker cannot read the hash. The client's URL has any path; the tracker keeps its store in
-- memory, with each peer under its own id, and writes its responses as bencode, and what it answers
-- is int64 and can be allocated.
pub scrape-handle_scrape :
    (max_make : ℕ) (marshal : Node → Bytes) (u : Url) (h host : Bytes) (now : ℕ) (m : MemoryStorage)
    → max_make < 2 ^ 63
    → ((v : Node) → marshal v ≡ encode v)
    → All (λ e. e.1.id ≡ e.0) m.peers
    → IsEncodable max_make
        (scrape_value (handle_scrape memory_storage (request_of host (scrape_url u h)) m))
    → scrape max_make (serve memory_storage marshal now host m) (some u) h
      ≡ scraped m (decode_info_hash h)
unfolding scrape build_scrape_url serve_http equal
scrape-handle_scrape max_make marshal u h host now m small writes own fits =
    read_body-marshal max_make marshal parse_scrape_response
      (scrape_value (handle_scrape memory_storage (request_of host (scrape_url u h)) m)) small
      writes fits
    ∙ ap (λ files. parse_scrape_response (scrape_value files))
        (handle_scrape-one memory_storage h host u m)
    ∙ parse_scrape_response-files_of memory_storage h host u m (decode_info_hash h)
    ∙ shown-scraped m (decode_info_hash h) own
