-- ===== src/Tracker/Server/Mux.antt =====
-- `NewTracker` of tracker/server.go: which handler answers a path. A path that `ServeMux` would clean
-- and redirect, with empty or dotted parts, is outside the model. The handlers write with status 200,
-- failures included; the package that bencodes a response is a function `marshal`.
use pixtorrent.Prelude.{ℕ, Bytes, codes, if◌then◌else◌}
use pixtorrent.Meta.Bencode.{Node}
use pixtorrent.P2p.Pieces.{equal}
use pixtorrent.Tracker.Server.{Storage, Request, handle_announce, handle_scrape}
use pixtorrent.Tracker.Server.Reply.{response_value, scrape_value}

-- The store behind a request, the status and the body.
pub record Served (S : Type 0) : Type 0 where
  pub store : S
  pub status : ℕ
  pub body : Bytes

module _ {S : Type 0} (storage : Storage S) (marshal : Node → Bytes) where
  unfoldable pub serve_http : ℕ → Bytes → Request → S → Served S
  unfolding handle_announce handle_scrape
  serve_http now path r s =
      let done = handle_announce storage now r s in
      if equal path (codes "/announce")
      then record { store = done.0; status = 200; body = marshal (response_value done.1) }
      else if equal path (codes "/scrape")
      then record {
        store = s;
        status = 200;
        body = marshal (scrape_value (handle_scrape storage r s));
      }
      else record { store = s; status = 404; body = codes "404 page not found" }
