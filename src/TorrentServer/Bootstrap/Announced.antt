-- ===== src/TorrentServer/Bootstrap/Announced.antt =====
-- `bootstrapNetwork` of torrent_server/server.go against tracker/server.go: a node's first announce.
use pixtorrent.Prelude.{
  ℕ, ◌^◌, ◌<◌, Bool, true, false, not, ◌&&◌, some, List, [], ◌∷◌, Bytes, codes, take, get_or, All,
  IsByte, IsIn, ◌≡◌, ◌≢◌, ◌↔◌, refl, sym, ap, ◌∙◌, arith, Bool-cases, inl, inr,
}
use pixtorrent.Prelude.Int.{pos}
use pixtorrent.Meta.Bencode.{Node}
use pixtorrent.Meta.Bencode.Encode.{encode, IsEncodable}
use pixtorrent.P2p.Pieces.{equal}
use pixtorrent.P2p.Pieces.Verify.{equal_iff}
use pixtorrent.Tracker.Memory.{Peer, MemoryStorage, ids_of}
use pixtorrent.Tracker.Memory.Listed.{listed}
use pixtorrent.Tracker.Memory.Queries.{peers_in}
use pixtorrent.Tracker.Memory.Sets.{equal_ne}
use pixtorrent.Tracker.Query.{decode_info_hash}
use pixtorrent.Tracker.Server.{memory_storage, is_empty, handle_announce}
use pixtorrent.Tracker.Server.Mux.{serve_http}
use pixtorrent.Tracker.Server.Others.{AreOthers}
use pixtorrent.Tracker.Server.Reply.{response_value}
use pixtorrent.Client.{Peer as Named, TrackerClient, Url, answered}
use pixtorrent.Client.Announce.{
  request_of, serve, announce_url, named, IsTracker, IsClient, peer_of_client,
  announce-handle_announce,
}
use pixtorrent.TorrentServer.Bootstrap.{
  bootstrap_left, started, format_addr, add_nodes, bootstrap_network,
}
use pixtorrent.TorrentServer.Bootstrap.Nodes.{IsDistinct, is_listed, addresses, add_nodes_lem}

apart : (a b : ℕ) → a ≡ 97 → b ≡ 111 → a ≡ b → ⊥
apart a b h k e = omega arith

started_no_stop : started ≢ codes "stopped"
started_no_stop h = apart _ _ refl refl (ap (λ b. get_or b 2 0) h)

nothing_left :
    (tc : TrackerClient) (host : Bytes) (now : ℕ)
    → (peer_of_client tc host bootstrap_left started now).left ≡ pos 0
unfolding equal
nothing_left tc host now = refl

is_listed-IsIn : (a : Bytes) (xs : List Bytes) → is_listed a xs ≡ true → IsIn a xs
is_listed-IsIn a [] h = cc
is_listed-IsIn a (x ∷ xs) h = elim (Bool-cases (equal a x)) [
  | inl e ↦ inl ((equal_iff a x).0 e)
  | inr e ↦ inr (is_listed-IsIn a xs (rw e at h))
]

IsIn-is_listed : (a : Bytes) (xs : List Bytes) → IsIn a xs → is_listed a xs ≡ true
IsIn-is_listed a [] h = absurd h
IsIn-is_listed a (x ∷ xs) (inl e) = rw ((equal_iff a x).1 e) refl
IsIn-is_listed a (x ∷ xs) (inr i) = ground (arith, IsIn-is_listed a xs i)

address_of :
    (a : Bytes) (peers : List Named)
    → IsIn a (addresses peers)
    → (q : Named) × IsIn q peers × (a ≡ format_addr q.ip q.port)
address_of a [] h = absurd h
address_of a (q ∷ peers) (inl e) = (q, inl refl, e)
address_of a (q ∷ peers) (inr i) =
    let (p, there, same) = address_of a peers i in (p, inr there, same)

addresses-IsIn :
    (a : Bytes) (peers : List Named) (q : Named)
    → IsIn q peers
    → a ≡ format_addr q.ip q.port
    → IsIn a (addresses peers)
addresses-IsIn a [] q h e = absurd h
addresses-IsIn a (x ∷ peers) q (inl same) e = inl (e ∙ ap (λ y. format_addr y.ip y.port) same)
addresses-IsIn a (x ∷ peers) q (inr i) e = inr (addresses-IsIn a peers q i e)

-- The nodes are exactly the addresses of the known peers with another id, but for the own address.
abbrev pub AreDialled : Bytes → Bytes → List Peer → List Bytes → Type 0
AreDialled own_address own known nodes =
    (a : Bytes)
    → IsIn a nodes ↔ (
        (a ≢ own_address)
        × ((p : Peer) × IsIn p known × (p.id ≢ own) × (a ≡ format_addr p.ip p.port)))

add_nodes-AreDialled :
    (own_address own : Bytes) (known : List Peer) (got : List Named)
    → AreOthers named own known got
    → AreDialled own_address own known (add_nodes own_address got [] [])
add_nodes-AreDialled own_address own known got others a = (
  λ i.
      let e = sym ((add_nodes_lem own_address got).1 a) ∙ IsIn-is_listed a _ i in
      let (q, there, same) = address_of a got (is_listed-IsIn a (addresses got) (second _ _ e)) in
      let (p, here, ne, name) = (others q).0 there in
      (
        (λ k. not_own (equal a own_address) ((equal_iff a own_address).1 k) (first _ _ e)),
        (p, here, ne, same ∙ ap (λ x. format_addr x.ip x.port) name),
      ),
  λ (ne, (p, here, other, same)). is_listed-IsIn a _ (
      (add_nodes_lem own_address got).1 a
      ∙ both _ _ (equal_ne a own_address ne) (
          IsIn-is_listed a (addresses got)
            (addresses-IsIn a got (named p) ((others (named p)).1 (p, here, other, refl)) same))),
)
  where
    first : (b c : Bool) → (not b && c) ≡ true → b ≡ false
    first b c h = ground arith

    second : (b c : Bool) → (b && c) ≡ true → c ≡ true
    second b c h = ground arith

    both : (b c : Bool) → b ≡ false → c ≡ true → (not b && c) ≡ true
    both b c h k = rw (h, k) refl

    not_own : (b : Bool) → b ≡ true → b ≡ false → ⊥
    not_own b h k = ground arith

-- The first announce of a node to a tracker that writes bencode: whatever pieces the node misses,
-- the tracker lists it with nothing left; and the node dials, none twice, exactly the addresses of
-- those of the first fifty known peers of the torrent that have another id, but for its own address.
-- The URL has no path or that of announces, the hash unescapes to itself, the client has an id, its
-- numbers are int64, and the tracker's answer can be allocated.
pub bootstrap_network-handle_announce :
    (max_make : ℕ) (marshal : Node → Bytes) (tc : TrackerClient) (u : Url) (h own host : Bytes)
    (now : ℕ) (m : MemoryStorage)
    → let sent = announce_url tc u h bootstrap_left started in
      let m' = (serve_http memory_storage marshal now sent.path (request_of host sent) m).store in
      max_make < 2 ^ 63
      → ((v : Node) → marshal v ≡ encode v)
      → IsTracker u
      → IsClient tc
      → decode_info_hash h ≡ some h
      → is_empty h ≡ false
      → All IsByte h
      → IsEncodable max_make
          (response_value (handle_announce memory_storage now (request_of host sent) m).1)
      → ((p : Peer) × (listed h tc.peer_id m' ≡ some p) × (p.left ≡ pos 0))
        × ((nodes : List Bytes) × (bootstrap_network max_make
                (serve memory_storage marshal now host m)
                tc
                (some u)
                h
                own
              ≡ answered nodes)
            × IsDistinct nodes
            × AreDialled own tc.peer_id (take 50 (peers_in (ids_of h m') m')) nodes)
unfolding bootstrap_network
bootstrap_network-handle_announce max_make marshal tc u h own host now m small writes tracker c d
      full bytes fits =
    let (stored, (got, answer, others)) =
      announce-handle_announce max_make marshal tc u h bootstrap_left started host now m small
        writes tracker c (omega arith) d full bytes started_no_stop fits in
    (
      (peer_of_client tc host bootstrap_left started now, stored, nothing_left tc host now),
      (
        add_nodes own got [] [],
        rw (answer, bootstrap_network) refl,
        (add_nodes_lem own got).0,
        add_nodes-AreDialled own tc.peer_id _ got others,
      ),
    )
