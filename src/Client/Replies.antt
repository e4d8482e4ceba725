-- ===== src/Client/Replies.antt =====
-- What the client reads from a body that tracker/server.go has written. The package that bencodes
-- a response is not part of the repository: it is a function `marshal` that writes a value in the
-- bencode format.
use pixtorrent.Prelude.{
  ℕ, ◌^◌, ◌<◌, Option, none, some, List, [], ◌∷◌, map, Bytes, bytes_discrete, codes, ◌≡◌, refl, ap,
}
use pixtorrent.Prelude.Int.{pos}
use pixtorrent.Meta.Bencode.{Node}
use pixtorrent.Meta.Bencode.Encode.{encode, IsEncodable}
use pixtorrent.Meta.Bencode.RoundTrip.{decode-encode}
use pixtorrent.Meta.Torrent.{get_field}
use pixtorrent.Tracker.Server.{PeerEntry, Response, failure, announced}
use pixtorrent.Tracker.Server.Reply.{peer_value, peer_values, response_value}
use pixtorrent.Client.{
  Peer, AnnounceResponse, Answer, answered, failed, tracker_error, parse_peer, parse_peers,
  parse_announce_response, read_body,
}

-- What a client should get from a response.
abbrev pub entry_peer : PeerEntry → Peer
entry_peer p = record { peer_id = p.peer_id; ip = p.ip; port = p.port }

abbrev pub received : Response → Answer AnnounceResponse
received (failure reason) = failed (tracker_error reason)
received (announced peers seconds) =
    answered (record { interval = pos seconds; peers = map entry_peer peers })

parse_peers-peer_values :
    (peers : List PeerEntry) → parse_peers (peer_values peers) ≡ map entry_peer peers
unfolding parse_peers parse_peer peer_values peer_value get_field bytes_discrete
    pixtorrent.Prelude.ℕ_discrete
parse_peers-peer_values [] = refl
parse_peers-peer_values (p ∷ peers) = ap (◌∷◌ (entry_peer p)) (parse_peers-peer_values peers)

pub parse_announce_response-response_value :
    (r : Response) → parse_announce_response (response_value r) ≡ received r
unfolding parse_announce_response response_value get_field bytes_discrete
    pixtorrent.Prelude.ℕ_discrete
parse_announce_response-response_value (failure reason) = refl
parse_announce_response-response_value (announced peers seconds) =
    ap (λ ps. answered (record { interval = pos seconds; peers = ps }))
      (parse_peers-peer_values peers)

-- A body in the bencode format is read as the value that was written.
pub read_body-marshal :
    {A : Type 0} (max_make : ℕ) (marshal : Node → Bytes) (k : Node → Answer A) (v : Node)
    → max_make < 2 ^ 63
    → ((w : Node) → marshal w ≡ encode w)
    → IsEncodable max_make v
    → read_body max_make k (some (marshal v)) ≡ k v
unfolding read_body
read_body-marshal max_make marshal k v small writes h =
    rw (writes v) (rw (decode-encode max_make v small h, read_body))
