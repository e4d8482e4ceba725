-- ===== src/Client/Announce.antt =====
-- client/tracker_client.go against tracker/server.go with the store in memory: one announce, from the
-- client's arguments to the peers that it gets. The standard library's `Query` gives back the values
-- that `Encode` wrote.
use pixtorrent.Prelude.{
  ℕ, ◌^◌, ◌<◌, Bool, true, false, not, Option, none, some, List, [], ◌∷◌, map, Bytes,
  bytes_discrete, codes, length, take, All, IsByte, ◌==◌, if◌then◌else◌, ◌≡◌, ◌≢◌, refl, sym, ap,
  ◌∙◌, arith, Bool-cases, inl, inr, subst, ◌⊎◌, map-map,
}
use pixtorrent.Prelude.Int.{ℤ, pos, negsuc, IsInt64}
use pixtorrent.Prelude.Maps.{get, put}
use pixtorrent.Meta.Bencode.{Node}
use pixtorrent.Meta.Bencode.Encode.{encode, IsEncodable}
use pixtorrent.Meta.Bencode.Scan.{text_of, decimal-split}
use pixtorrent.P2p.Pieces.{equal}
use pixtorrent.Tracker.Memory.{Peer, MemoryStorage, ids_of}
use pixtorrent.Tracker.Memory.Listed.{listed}
use pixtorrent.Tracker.Memory.Queries.{peers_in}
use pixtorrent.Tracker.Query.{decode_info_hash, parse_int, parse_unsigned, parse_digits}
use pixtorrent.Tracker.Query.Decimal.{parse_int-text_of}
use pixtorrent.Tracker.Server.{
  Request, Storage, memory_storage, is_empty, param, interval, num_want, announced_peer,
  filter_peers, convert_peers_to_list, get_client_ip, handle_announce, announced,
}
use pixtorrent.Tracker.Server.Announce.{IsComplete, stored_peer, handle_announce_goes_on}
use pixtorrent.Tracker.Server.Mux.{serve_http}
use pixtorrent.Tracker.Server.Others.{AreOthers, filter_peers-AreOthers}
use pixtorrent.Tracker.Server.Reply.{response_value}
use pixtorrent.Client.{
  TrackerClient, Url, Reply, Peer as Named, replied, answered, announce_params, build_announce_url,
  announce, parse_announce_response,
}
use pixtorrent.Client.Replies.{
  entry_peer, received, parse_announce_response-response_value, read_body-marshal,
}

-- The request that a URL becomes, from a host without a proxy.
abbrev pub request_of : Bytes → Url → Request
request_of host u = record {
  params = u.query;
  real_ip = [];
  forwarded_for = [];
  remote_host = host;
}

-- The tracker as the network shows it to a client on this host.
abbrev pub serve : {S : Type 0} → Storage S → (Node → Bytes) → ℕ → Bytes → S → Url → Reply
serve storage marshal now host s u =
    let served = serve_http storage marshal now u.path (request_of host u) s in
    replied served.status (some served.body)

-- A URL that names the tracker: one with no path, or with that of its announces.
abbrev pub IsTracker : Url → Type 0
IsTracker u = (u.path ≡ []) ⊎ (u.path ≡ codes "/announce")

abbrev pub announce_url : TrackerClient → Url → Bytes → ℤ → Bytes → Url
announce_url tc u h left event = record u {
  path = if length u.path == 0 then codes "/announce" else u.path;
  query = announce_params tc h left event;
}

-- A client with an id, whose numbers are int64.
pub record IsClient (tc : TrackerClient) : Type 0 where
  pub has_id : is_empty tc.peer_id ≡ false
  pub port_int64 : IsInt64 tc.port
  pub uploaded_int64 : IsInt64 tc.uploaded
  pub downloaded_int64 : IsInt64 tc.downloaded

-- What the tracker should know of a client behind its announce.
abbrev pub peer_of_client : TrackerClient → Bytes → ℤ → Bytes → ℕ → Peer
peer_of_client tc host left event now = record {
  id = tc.peer_id;
  ip = if equal host (codes "::1") then codes "127.0.0.1" else host;
  port = tc.port;
  uploaded = tc.uploaded;
  downloaded = tc.downloaded;
  left = if equal event (codes "completed") then pos 0 else left;
  last_seen = now;
}

empty_is_nil : (s : Bytes) → (length s == 0) ≡ true → s ≡ []
empty_is_nil [] h = refl
empty_is_nil (c ∷ s) h = absurd (ground arith)

text_of_full : (i : ℤ) → is_empty (text_of i) ≡ false
unfolding text_of
text_of_full (pos n) = rw (decimal-split n) (ground arith)
text_of_full (negsuc n) = ground arith

module _ (tc : TrackerClient) (h : Bytes) (left : ℤ) (event host : Bytes) (u : Url) where
  r : Request
  r = request_of host (announce_url tc u h left event)

  param_event : param r (codes "event") ≡ event
  unfolding r param announce_params get put bytes_discrete pixtorrent.Prelude.ℕ_discrete
  param_event = elim (Bool-cases (length event == 0)) [
    | inl e ↦ rw e (sym (empty_is_nil event e))
    | inr e ↦ rw e
  ]

  -- The other parameters, each as it was set.
  params_given :
      (param r (codes "info_hash") ≡ h)
      × (param r (codes "peer_id") ≡ tc.peer_id)
      × (param r (codes "port") ≡ text_of tc.port)
      × (param r (codes "uploaded") ≡ text_of tc.uploaded)
      × (param r (codes "downloaded") ≡ text_of tc.downloaded)
      × (param r (codes "left") ≡ text_of left)
      × (param r (codes "numwant") ≡ codes "50")
  unfolding r param announce_params get put bytes_discrete pixtorrent.Prelude.ℕ_discrete
  params_given = elim (Bool-cases (length event == 0)) [
    | inl e ↦ rw e (refl, refl, refl, refl, refl, refl, refl)
    | inr e ↦ rw e (refl, refl, refl, refl, refl, refl, refl)
  ]

  request-IsComplete :
      IsClient tc → is_empty h ≡ false → decode_info_hash h ≡ some h → IsComplete r h
  request-IsComplete c full d = record {
    has_info_hash = rw params_given.0 full;
    has_peer_id = rw params_given.1 c.has_id;
    has_port = rw params_given.2 (text_of_full tc.port);
    decoded = rw params_given.0 d;
  }

  num_want_default : num_want r ≡ pos 50
  unfolding num_want parse_int parse_unsigned parse_digits
  num_want_default = rw params_given.6 refl

  client_ip : get_client_ip r ≡ (if equal host (codes "::1") then codes "127.0.0.1" else host)
  unfolding r get_client_ip
  client_ip = refl

  stored_peer-client :
      (now : ℕ)
      → IsClient tc
      → IsInt64 left
      → stored_peer now r ≡ peer_of_client tc host left event now
  unfolding announced_peer
  stored_peer-client now c l =
      rw
        (
          param_event,
          client_ip,
          params_given.1,
          params_given.2,
          params_given.3,
          params_given.4,
          params_given.5,
          parse_int-text_of tc.port c.port_int64,
          parse_int-text_of tc.uploaded c.uploaded_int64,
          parse_int-text_of tc.downloaded c.downloaded_int64,
          parse_int-text_of left l,
        )
        (elim (Bool-cases (equal event (codes "completed"))) [
          | inl e ↦ rw e refl
          | inr e ↦ rw e refl
        ])

  -- The tracker's step, in the client's terms.
  handle_announce-client :
      (now : ℕ) (m : MemoryStorage)
      → IsClient tc
      → IsInt64 left
      → decode_info_hash h ≡ some h
      → is_empty h ≡ false
      → All IsByte h
      → event ≢ codes "stopped"
      → let done = handle_announce memory_storage now r m in
        (listed h tc.peer_id done.0 ≡ some (peer_of_client tc host left event now))
        × (done.1
            ≡ announced
                (convert_peers_to_list
                  (filter_peers tc.peer_id (take 50 (peers_in (ids_of h done.0) done.0))))
                interval)
  handle_announce-client now m c l d full bytes go =
      rw (params_given.1, stored_peer-client now c l, num_want_default) at
        (handle_announce_goes_on now r h m (request-IsComplete c full d) bytes
          (subst (λ e. e ≢ codes "stopped") (sym param_event) go))

  -- A response with a body in the bencode format is read as the value that was written.
  announce-replied :
      (max_make : ℕ) (marshal : Node → Bytes) (network : Url → Reply) (v : Node)
      → max_make < 2 ^ 63
      → ((w : Node) → marshal w ≡ encode w)
      → IsEncodable max_make v
      → network (announce_url tc u h left event) ≡ replied 200 (some (marshal v))
      → announce max_make network tc (some u) h left event ≡ parse_announce_response v
  unfolding announce build_announce_url
  announce-replied max_make marshal network v small writes fits e =
      rw (e, announce)
        (read_body-marshal max_make marshal parse_announce_response v small writes fits)

-- The way of an announce through `NewTracker`.
serve_announce :
    (marshal : Node → Bytes) (tc : TrackerClient) (u : Url) (h : Bytes) (left : ℤ)
    (event host : Bytes) (now : ℕ) (m : MemoryStorage)
    → IsTracker u
    → let sent = announce_url tc u h left event in
      let done = handle_announce memory_storage now (request_of host sent) m in
      serve_http memory_storage marshal now sent.path (request_of host sent) m
      ≡ record { store = done.0; status = 200; body = marshal (response_value done.1) }
unfolding serve_http equal
serve_announce marshal tc u h left event host now m (inl e) = rw e refl
serve_announce marshal tc u h left event host now m (inr e) = rw e refl

-- A peer as the client gets it.
abbrev pub named : Peer → Named
named p = record { peer_id = p.id; ip = p.ip; port = p.port }

-- A client announces to a tracker that writes its responses as bencode, and does not stop: the
-- tracker then lists it under its torrent with its own id, address, port and numbers, with nothing
-- left if it has completed; and the client gets the interval of 1800 seconds and, of the first fifty
-- known peers of the torrent, exactly those with another id. The URL has no path or that of
-- announces, the hash is bytes that unescape to themselves, the client has an id, its numbers are
-- int64, and what the tracker answers can be allocated.
pub announce-handle_announce :
    (max_make : ℕ) (marshal : Node → Bytes) (tc : TrackerClient) (u : Url) (h : Bytes) (left : ℤ)
    (event host : Bytes) (now : ℕ) (m : MemoryStorage)
    → let sent = announce_url tc u h left event in
      let m' = (serve_http memory_storage marshal now sent.path (request_of host sent) m).store in
      max_make < 2 ^ 63
      → ((v : Node) → marshal v ≡ encode v)
      → IsTracker u
      → IsClient tc
      → IsInt64 left
      → decode_info_hash h ≡ some h
      → is_empty h ≡ false
      → All IsByte h
      → event ≢ codes "stopped"
      → IsEncodable max_make
          (response_value (handle_announce memory_storage now (request_of host sent) m).1)
      → (listed h tc.peer_id m' ≡ some (peer_of_client tc host left event now))
        × ((got : List Named) × (announce max_make
                (serve memory_storage marshal now host m)
                tc
                (some u)
                h
                left
                event
              ≡ answered (record { interval = pos 1800; peers = got }))
            × AreOthers named tc.peer_id (take 50 (peers_in (ids_of h m') m')) got)
unfolding r convert_peers_to_list
announce-handle_announce max_make marshal tc u h left event host now m small writes tracker c l d
      full bytes go fits =
    let asked = request_of host (announce_url tc u h left event) in
    let done = handle_announce memory_storage now asked m in
    let routed = serve_announce marshal tc u h left event host now m tracker in
    let (stored, answer) =
      handle_announce-client tc h left event host u now m c l d full bytes go in
    let known = take 50 (peers_in (ids_of h done.0) done.0) in
    rw routed (
      stored,
      (
        map named (filter_peers tc.peer_id known),
        announce-replied tc h left event host u max_make marshal
              (serve memory_storage marshal now host m) (response_value done.1) small writes fits
              (ap (λ served. replied served.status (some served.body)) routed)
            ∙ parse_announce_response-response_value done.1
            ∙ ap received answer
            ∙ ap (λ ps. answered (record { interval = pos 1800; peers = ps }))
                (map-map entry_peer _ (filter_peers tc.peer_id known)),
        filter_peers-AreOthers named tc.peer_id known,
      ),
    )
