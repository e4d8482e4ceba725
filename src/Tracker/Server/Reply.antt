-- ===== src/Tracker/Server/Reply.antt =====
-- What tracker/server.go encodes as the body of a response. A Go map with constant keys is a
-- dictionary with these keys in the order in which bencoding writes them.
use pixtorrent.Prelude.{ℕ, List, [], ◌∷◌, Bytes, codes}
use pixtorrent.Prelude.Int.{ℤ, pos}
use pixtorrent.Prelude.Maps.{Map}
use pixtorrent.Meta.Bencode.{
  Node, Nodes, Fields, bint, bstring, blist, bdict, no_nodes, node, no_fields, field,
}
use pixtorrent.Tracker.Server.{PeerEntry, Response, failure, announced}

-- An entry of `convertPeersToList`.
unfoldable pub peer_value : PeerEntry → Node
peer_value p = bdict (
    field (codes "ip") (bstring p.ip)
      (field (codes "peer id") (bstring p.peer_id) (field (codes "port") (bint p.port) no_fields)))

unfoldable pub peer_values : List PeerEntry → Nodes
unfolding peer_value
peer_values [] = no_nodes
peer_values (p ∷ peers) = node (peer_value p) (peer_values peers)

-- `sendErrorResponse` and `sendAnnounceResponse`
unfoldable pub response_value : Response → Node
unfolding peer_values
response_value (failure reason) = bdict (field (codes "failure reason") (bstring reason) no_fields)
response_value (announced peers seconds) = bdict (
    field (codes "interval") (bint (pos seconds))
      (field (codes "peers") (blist (peer_values peers)) no_fields))

-- The numbers of one torrent.
unfoldable pub stats_value : ℕ × ℕ × ℤ → Node
stats_value (complete, incomplete, downloaded) = bdict (
    field (codes "complete") (bint (pos complete)) (
      field (codes "downloaded") (bint downloaded)
        (field (codes "incomplete") (bint (pos incomplete)) no_fields)))

unfoldable pub file_fields : Map Bytes (ℕ × ℕ × ℤ) → Fields
unfolding stats_value
file_fields [] = no_fields
file_fields ((info_hash, stats) ∷ files) = field info_hash (stats_value stats) (file_fields files)

-- The end of `handleScrape`.
unfoldable pub scrape_value : Map Bytes (ℕ × ℕ × ℤ) → Node
unfolding file_fields
scrape_value files = bdict (field (codes "files") (bdict (file_fields files)) no_fields)
