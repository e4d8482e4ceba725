-- ===== src/Tracker/Server/Failures.antt =====
-- Which requests the announce handler of tracker/server.go answers with a failure.
use pixtorrent.Prelude.{none, [], codes, ◌≡◌, ◌⊎◌}
use pixtorrent.Tracker.Query.{decode_info_hash}
use pixtorrent.Tracker.Server.{Request, param}

-- What a request must not be to be answered with peers.
abbrev pub IsRefused : Request → Type 0
IsRefused r =
    (param r (codes "info_hash") ≡ [])
    ⊎ (param r (codes "peer_id") ≡ [])
    ⊎ (param r (codes "port") ≡ [])
    ⊎ (decode_info_hash (param r (codes "info_hash")) ≡ none)
